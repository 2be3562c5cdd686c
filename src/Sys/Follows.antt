-- ===== src/Sys/Follows.antt =====
-- One way: a run with looks at the clock as one without them.
use gra_project.Base.{
  ℕ, ◌+◌, ◌≡◌, ◌≤◌, refl, sym, ap, ◌∙◌, false, if◌then◌else◌, List, [], ◌∷◌, ◌++◌, length,
  length-append, append_assoc, arith,
}
use gra_project.Sys.{
  Call, clock, Reply, World, Run, returns, halts, M, and_then, ◌>>=◌, fit, answer, syscall,
}
use gra_project.Sys.Seen.{is_clock, erased, seen, Asks}

module _ {S T : Type 0} (φ : S → T) where
  -- The run of `n` on some of the replies, at least `k` of them if it returns.
  abbrev pub Follows : {A B : Type 0} → (A → B) → ℕ → M T B → World S → Run S A → Type 0
  Follows α k n w (returns a v) =
      (cs : List Reply) × (k ≤ length cs)
      × (k + length v.script ≤ length w.script)
      × ((rest : List Reply) → n (seen φ w (cs ++ rest)) ≡ returns (α a) (seen φ v rest))
  Follows α k n w (halts h v) = (cs : List Reply) × (n (seen φ w cs) ≡ halts h (seen φ v []))

module _ {S T : Type 0} where
  pub Follows-answer :
      (φ : S → T) (c : Call) (w : World S) (script : List Reply)
      → is_clock c ≡ false
      → w.script ≡ script
      → Follows φ (λ r. r) 1 (syscall c) w (answer c w script)
  unfolding syscall
  Follows-answer φ c w [] q e = ([], refl)
  Follows-answer φ c w (r ∷ rest) q e = (
    r ∷ [],
    omega arith,
    rw e (omega arith),
    λ more.
        ap (λ t. returns (fit c r) (record { vars = φ w.vars; script = more; trace = t }))
          (sym (ap (λ b. if b then erased w.trace else ((c, fit c r) ∷ erased w.trace)) q)),
  )

  pub Follows-and_then :
      (φ : S → T) {A B C D : Type 0} (α : A → B) (β : C → D) (k l : ℕ) (n : M T B) (f : A → M S C)
      (g : B → M T D) (w : World S) (r : Run S A)
      → Follows φ α k n w r
      → ((a : A) (v : World S) → Follows φ β l (g (α a)) v (f a v))
      → Follows φ β (k + l) (n >>= g) w (and_then r f)
  Follows-and_then φ α β k l n f g w (returns a v) (cs, c, s, e) h = second (f a v) (h a v)
    where
      second : (q : Run S _) → Follows φ β l (g (α a)) v q → Follows φ β (k + l) (n >>= g) w q
      second (returns b u) (ds, d, t, i) = (
        cs ++ ds,
        omega (arith, c, d, length-append cs ds),
        omega (arith, s, t),
        λ rest.
            ap (λ xs. (n >>= g) (seen φ w xs)) (append_assoc cs ds rest)
            ∙ ap (λ q. and_then q g) (e (ds ++ rest))
            ∙ i rest,
      )
      second (halts x u) (ds, i) = (cs ++ ds, ap (λ q. and_then q g) (e ds) ∙ i)
  Follows-and_then φ α β k l n f g w (halts x v) (cs, e) h = (cs, ap (λ q. and_then q g) e)

  pub Follows-weaken :
      (φ : S → T) {A B : Type 0} (α : A → B) (j k : ℕ) (n : M T B) (w : World S) (r : Run S A)
      → j ≤ k
      → Follows φ α k n w r
      → Follows φ α j n w r
  Follows-weaken φ α j k n w (returns a v) l (cs, c, s, e) =
      (cs, omega (arith, l, c), omega (arith, l, s), e)
  Follows-weaken φ α j k n w (halts h v) l p = p

  -- A look at the clock before a call: the first program waits there, the second at the call.
  pub Follows-clock :
      (φ : S → T) {A B : Type 0} (α : A → B) (k : ℕ) (f : Reply → M S A) (n : M T B) (w : World S)
      (script : List Reply)
      → Asks n
      → ((r : Reply) (v : World S) → Follows φ α k n v (f r v))
      → w.script ≡ script
      → Follows φ α k n w (and_then (answer clock w script) f)
  Follows-clock φ α k f n w [] asks h e = ([], asks (seen φ w []) refl)
  Follows-clock φ α k f n w (r ∷ rest) asks h e =
      looked (f r (record { vars = w.vars; script = rest; trace = (clock, r) ∷ w.trace })) (h r _)
    where
      looked :
          (q : Run S _)
          → Follows φ α k n
              (record { vars = w.vars; script = rest; trace = (clock, r) ∷ w.trace })
              q
          → Follows φ α k n w q
      looked (returns b u) (ds, d, t, i) = (ds, d, rw e (omega (arith, t)), i)
      looked (halts x u) p = p
