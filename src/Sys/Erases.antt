-- ===== src/Sys/Erases.antt =====
-- One program by another that does not look at the clock, over an abstraction `φ` of the variables: the
-- second makes the calls of the first but for those, and ends as it does.
pub mod Turns
use gra_project.Base.{
  ℕ, zero, suc, subst, ◌+◌, ◌≡◌, ◌<◌, ◌≤◌, refl, sym, ap, ◌∙◌, Bool, true, false, if◌then◌else◌,
  List, [], ◌∷◌, ◌++◌, length, length-append, append_assoc, append-nil, arith,
}
use gra_project.Sys.{
  Call, clock, done, Reply, Outcome, ok, error, Halt, waiting, World, Run, returns, halts, M,
  and_then, ◌>>=◌, ◌>>◌, pure, stop, modify, fit, answer, syscall, Trace,
}
use gra_project.Sys.Loop.{repeat, loop}
use gra_project.Sys.Seen.{is_clock, erased, seen, seen_run, Asks}
use gra_project.Sys.Inserts.{
  told, at_end, Precedes, Precedes-answer, Precedes-and_then, Precedes-clock, Precedes-weaken,
}
use gra_project.Sys.Follows.{
  Follows, Follows-answer, Follows-and_then, Follows-clock, Follows-weaken,
}

and_then-and_then :
    {S A B C : Type 0} (r : Run S A) (g : A → M S B) (f : B → M S C)
    → and_then r (λ a. g a >>= f) ≡ and_then (and_then r g) f
and_then-and_then (returns a w) g f = refl
and_then-and_then (halts h w) g f = refl

module _ {S T : Type 0} (φ : S → T) where
  pub record Erases {A B : Type 0} (α : A → B) (k : ℕ) (m : M S A) (n : M T B) : Type 0 where
    pub at : (w : World S) → Follows φ α k n w (m w)
    pub back : (w : World S) (script : List Reply) → Precedes φ α k m w script (n (seen φ w script))

module _ {S T : Type 0} {φ : S → T} where
  pub erase_run :
      {A B : Type 0} {α : A → B} {k : ℕ} {m : M S A} {n : M T B} (w : World S)
      → Erases φ α k m n
      → (cs : List Reply) × (n (seen φ w cs) ≡ seen_run φ α (m w))
  erase_run {α} {k} {m} {n} w h = run (m w) (h.at w)
    where
      run :
          (r : Run S _)
          → Follows φ α k n w r
          → (cs : List Reply) × (n (seen φ w cs) ≡ seen_run φ α r)
      run (returns a v) (cs, _, _, e) = (cs, ap n (ap (seen φ w) (sym (append-nil cs))) ∙ e [])
      run (halts h v) p = p

  pub insert_run :
      {A B : Type 0} {α : A → B} {k : ℕ} {m : M S A} {n : M T B} (w : World S) (script : List Reply)
      → Erases φ α k m n
      → (ds : List Reply) × (seen_run φ α (m (told w ds)) ≡ at_end (n (seen φ w script)))
  insert_run {B} {α} {k} {m} {n} w script h = run (n (seen φ w script)) (h.back w script)
    where
      run :
          (r : Run T B)
          → Precedes φ α k m w script r
          → (ds : List Reply) × (seen_run φ α (m (told w ds)) ≡ at_end r)
      run (returns b v) (ds, a, u, eb, ev, _, _, e) = (
        ds,
        ap (λ xs. seen_run φ α (m (told w xs))) (sym (append-nil ds))
            ∙ ap (seen_run φ α) (e [])
            ∙ (λ i. returns (eb i) (told (ev i) [])),
      )
      run (halts x v) (ds, u, ev, e) = (ds, ap (seen_run φ α) e ∙ ap (λ t. halts x (told t [])) ev)

  pub Erases-pure : {A B : Type 0} {α : A → B} (a : A) → Erases φ α 0 (pure a) (pure (α a))
  Erases-pure a = record {
    at = λ w. ([], omega arith, omega arith, λ rest. refl);
    back = λ w script. ([], a, w, refl, refl, omega arith, omega arith, λ rest. refl);
  }

  pub Erases-stop : {A B : Type 0} {α : A → B} {k : ℕ} (h : Halt) → Erases φ α k (stop h) (stop h)
  Erases-stop h = record { at = λ w. ([], refl); back = λ w script. ([], w, refl, refl) }

  pub Erases-modify :
      (f : S → S) (g : T → T)
      → ((s : S) → g (φ s) ≡ φ (f s))
      → Erases φ (λ x. x) 0 (modify f) (modify g)
  Erases-modify f g e = record {
    at = λ w. (
      [],
      omega arith,
      omega arith,
      λ rest.
          ap (λ t. returns tt (record { vars = t; script = rest; trace = erased w.trace }))
            (e w.vars),
    );
    back = λ w script. (
      [],
      tt,
      record w { vars = f w.vars },
      refl,
      ap (λ t. record { vars = t; script = script; trace = erased w.trace }) (sym (e w.vars)),
      omega arith,
      omega arith,
      λ rest. refl,
    );
  }

  pub Erases-syscall : (c : Call) → is_clock c ≡ false → Erases φ (λ r. r) 1 (syscall c) (syscall c)
  unfolding syscall
  Erases-syscall c q = record {
    at = λ w. Follows-answer φ c w w.script q refl;
    back = λ w script. Precedes-answer φ c w script q;
  }

  pub Erases-bind :
      {A B C D : Type 0} {α : A → B} {β : C → D} {k l : ℕ} {m : M S A} {n : M T B} {f : A → M S C}
      (g : B → M T D)
      → Erases φ α k m n
      → ((a : A) → Erases φ β l (f a) (g (α a)))
      → Erases φ β (k + l) (m >>= f) (n >>= g)
  Erases-bind {α} {β} {k = i} {l} {m} {n} {f} g h k = record {
    at = λ w. Follows-and_then φ α β i l n f g w (m w) (h.at w) (λ a. (k a).at);
    back = λ w script.
        Precedes-and_then φ α β i l m f g w script (n (seen φ w script)) (h.back w script)
          (λ a. (k a).back);
  }

  pub Erases-seq :
      {C D : Type 0} {β : C → D} {k l : ℕ} {m : M S (Unit {0})} {n : M T (Unit {0})} {f : M S C}
      {g : M T D}
      → Erases φ (λ x. x) k m n
      → Erases φ β l f g
      → Erases φ β (k + l) (m >> f) (n >> g)
  Erases-seq {β} {k = i} {l} {m} {n} {f} {g} h k = record {
    at = λ w. Follows-and_then φ (λ x. x) β i l n (λ _. f) (λ _. g) w (m w) (h.at w) (λ _. k.at);
    back = λ w script.
        Precedes-and_then φ (λ x. x) β i l m (λ _. f) (λ _. g) w script (n (seen φ w script))
          (h.back w script) (λ a. k.back);
  }

  pub Erases-clock :
      {A B : Type 0} {α : A → B} {k : ℕ} {f : Reply → M S A} {n : M T B}
      → Asks n
      → ((r : Reply) → Erases φ α k (f r) n)
      → Erases φ α k (syscall clock >>= f) n
  unfolding syscall
  Erases-clock {α} {k} {f} {n} asks h = record {
    at = λ w. Follows-clock φ α k f n w w.script asks (λ r. (h r).at) refl;
    back = λ w script.
        Precedes-clock φ α k f w script (n (seen φ w script))
          ((h (done 0)).back (record w { trace = (clock, done 0) ∷ w.trace }) script);
  }

  pub Erases-if :
      {A B : Type 0} {α : A → B} {k : ℕ} (b : Bool) {f f' : M S A} {g g' : M T B}
      → Erases φ α k f g
      → Erases φ α k f' g'
      → Erases φ α k (if b then f else f') (if b then g else g')
  Erases-if true h k = h
  Erases-if false h k = k

  pub Erases-Outcome :
      {A B : Type 0} {α : A → B} {k : ℕ} (r : Outcome) {f f' : ℕ → M S A} {g g' : ℕ → M T B}
      → ((n : ℕ) → Erases φ α k (f n) (g n))
      → ((e : ℕ) → Erases φ α k (f' e) (g' e))
      → Erases φ α k
          (elim r [ ok n ↦ f n | error e ↦ f' e ])
          (elim r [ ok n ↦ g n | error e ↦ g' e ])
  Erases-Outcome (ok n) h k = h n
  Erases-Outcome (error e) h k = k e

  pub Erases-weaken :
      {A B : Type 0} {α : A → B} {j k : ℕ} {m : M S A} {n : M T B}
      → j ≤ k
      → Erases φ α k m n
      → Erases φ α j m n
  Erases-weaken {α} {j} {k} {m} {n} l h = record {
    at = λ w. Follows-weaken φ α j k n w (m w) l (h.at w);
    back = λ w script. Precedes-weaken φ α j k m w script (n (seen φ w script)) l (h.back w script);
  }

  pub Erases-assoc :
      {A B C D : Type 0} {α : C → D} {k : ℕ} (m : M S A) (g : A → M S B) (f : B → M S C) {n : M T D}
      → Erases φ α k (m >>= (λ a. g a >>= f)) n
      → Erases φ α k ((m >>= g) >>= f) n
  Erases-assoc {α} {k} m g f {n} h = record {
    at = λ w. subst (Follows φ α k n w) (and_then-and_then (m w) g f) (h.at w);
    back = λ w script.
        subst (λ p. Precedes φ α k p w script (n (seen φ w script)))
          (λ i v. and_then-and_then (m v) g f i) (h.back w script);
  }
