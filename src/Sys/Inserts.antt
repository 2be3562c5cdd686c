-- ===== src/Sys/Inserts.antt =====
-- The other way: a run without looks at the clock as one with them.
pub mod Turns
use gra_project.Base.{
  ℕ, ◌+◌, ◌≡◌, ◌≤◌, refl, sym, ap, subst, ◌∙◌, false, if◌then◌else◌, List, [], ◌∷◌, ◌++◌, length,
  length-append, append_assoc, arith,
}
use gra_project.Sys.{
  Call, clock, Reply, done, World, Run, returns, halts, M, and_then, ◌>>=◌, fit, answer, syscall,
}
use gra_project.Sys.Seen.{is_clock, erased, seen}

-- The world with other replies to come.
abbrev pub told : {S : Type 0} → World S → List Reply → World S
told w script = record { vars = w.vars; script = script; trace = w.trace }

-- The end of a run, whatever replies are left.
abbrev pub at_end : {S A : Type 0} → Run S A → Run S A
at_end (returns a v) = returns a (told v [])
at_end (halts h v) = halts h (told v [])

module _ {S T : Type 0} (φ : S → T) where
  -- A run of `m` that is seen as the given run, from the world seen with `script`.
  abbrev pub Precedes :
      {A B : Type 0} → (A → B) → ℕ → M S A → World S → List Reply → Run T B → Type 0
  Precedes {A} α k m w script (returns b v) =
      (ds : List Reply) × (a : A) × (u : World S) × (α a ≡ b)
      × (seen φ u v.script ≡ v)
      × (k ≤ length ds)
      × (k + length v.script ≤ length script)
      × ((rest : List Reply) → m (told w (ds ++ rest)) ≡ returns a (told u rest))
  Precedes α k m w script (halts h v) =
      (ds : List Reply) × (u : World S) × (seen φ u v.script ≡ v)
      × (m (told w ds) ≡ halts h (told u []))

  pub Precedes-answer :
      (c : Call) (w : World S) (script : List Reply)
      → is_clock c ≡ false
      → Precedes (λ r. r) 1 (syscall c) w script (answer c (seen φ w script) script)
  unfolding syscall
  Precedes-answer c w [] q = ([], told w [], refl, refl)
  Precedes-answer c w (r ∷ rest) q = (
    r ∷ [],
    fit c r,
    record { vars = w.vars; script = []; trace = (c, fit c r) ∷ w.trace },
    refl,
    ap (λ t. record { vars = φ w.vars; script = rest; trace = t })
        (ap (λ b. if b then erased w.trace else ((c, fit c r) ∷ erased w.trace)) q),
    omega arith,
    omega arith,
    λ more. refl,
  )

  pub Precedes-and_then :
      {A B C D : Type 0} (α : A → B) (β : C → D) (k l : ℕ) (m : M S A) (f : A → M S C)
      (g : B → M T D) (w : World S) (script : List Reply) (r : Run T B)
      → Precedes α k m w script r
      → ((a : A) (u : World S) (left : List Reply)
          → Precedes β l (f a) u left (g (α a) (seen φ u left)))
      → Precedes β (k + l) (m >>= f) w script (and_then r g)
  Precedes-and_then {D} α β k l m f g w script (returns b v) (ds, a, u, eb, ev, c, s, e) h =
      behind (g b v) (subst (Precedes β l (f a) u v.script) (λ i. g (eb i) (ev i)) (h a u v.script))
    where
      behind :
          (q : Run T D) → Precedes β l (f a) u v.script q → Precedes β (k + l) (m >>= f) w script q
      behind (returns b' v') (xs, a', u', eb', ev', c', s', e') = (
        ds ++ xs,
        a',
        u',
        eb',
        ev',
        omega (arith, c, c', length-append ds xs),
        omega (arith, s, s'),
        λ rest.
            ap (λ ys. (m >>= f) (told w ys)) (append_assoc ds xs rest)
            ∙ ap (λ r. and_then r f) (e (xs ++ rest))
            ∙ e' rest,
      )
      behind (halts x v') (xs, u', ev', e') =
          (ds ++ xs, u', ev', ap (λ r. and_then r f) (e xs) ∙ e')
  Precedes-and_then α β k l m f g w script (halts x v) (ds, u, ev, e) h =
      (ds, u, ev, ap (λ r. and_then r f) e)

  -- A look at the clock is answered by anything.
  pub Precedes-clock :
      {A B : Type 0} (α : A → B) (k : ℕ) (f : Reply → M S A) (w : World S) (script : List Reply)
      (r : Run T B)
      → Precedes α k (f (done 0)) (record w { trace = (clock, done 0) ∷ w.trace }) script r
      → Precedes α k (syscall clock >>= f) w script r
  unfolding syscall
  Precedes-clock α k f w script (returns b v) (ds, a, u, eb, ev, c, s, e) =
      (done 0 ∷ ds, a, u, eb, ev, omega (arith, c), s, e)
  Precedes-clock α k f w script (halts x v) (ds, u, ev, e) = (done 0 ∷ ds, u, ev, e)

  pub Precedes-weaken :
      {A B : Type 0} (α : A → B) (j k : ℕ) (m : M S A) (w : World S) (script : List Reply)
      (r : Run T B)
      → j ≤ k
      → Precedes α k m w script r
      → Precedes α j m w script r
  Precedes-weaken α j k m w script (returns b v) l (ds, a, u, eb, ev, c, s, e) =
      (ds, a, u, eb, ev, omega (arith, l, c), omega (arith, l, s), e)
  Precedes-weaken α j k m w script (halts x v) l p = p
