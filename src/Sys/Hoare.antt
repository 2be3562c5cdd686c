-- ===== src/Sys/Hoare.antt =====
-- Triples: from `P`, a return ends in `Q` and a halt in `E`.
use gra_project.Base.{
  ℕ, zero, suc, ◌≡◌, refl, Bool, true, false, if◌then◌else◌, List, [], ◌∷◌, length,
}
use gra_project.Sys.{
  Call, Reply, Outcome, ok, error, Halt, waiting, World, Run, returns, halts, M, and_then, ◌>>=◌,
  ◌>>◌, get, modify, fit, answer, syscall, pure, stop, unfinished,
}
use gra_project.Sys.Loop.{repeat, loop}

abbrev pub Post :
    {S A : Type 0} → (A → World S → Type 0) → (Halt → World S → Type 0) → Run S A → Type 0
Post Q E (returns a w) = Q a w
Post Q E (halts h w) = E h w

pub record Hoare {S A : Type 0} (P : World S → Type 0) (m : M S A) (Q : A → World S → Type 0)
    (E : Halt → World S → Type 0) : Type 0 where
  pub at : (w : World S) → P w → Post Q E (m w)

Post-answer :
    {S : Type 0} (Q : Reply → World S → Type 0) (E : Halt → World S → Type 0) (c : Call)
    (w : World S) (script : List Reply)
    → (script ≡ [] → E waiting w)
    → ((r : Reply) (rest : List Reply)
        → script ≡ r ∷ rest
        → Q (fit c r) (record w { script = rest; trace = (c, fit c r) ∷ w.trace }))
    → Post Q E (answer c w script)
Post-answer Q E c w [] e h = e refl
Post-answer Q E c w (r ∷ rest) e h = h r rest refl

module _ {S : Type 0} {E : Halt → World S → Type 0} where
  Post-and_then :
      {A B : Type 0} {R : A → World S → Type 0} {Q : B → World S → Type 0} (r : Run S A)
      (f : A → M S B)
      → Post R E r
      → ((a : A) → Hoare (R a) (f a) Q E)
      → Post Q E (and_then r f)
  Post-and_then (returns a w) f h k = (k a).at w h
  Post-and_then (halts e w) f h k = h

  pub Hoare-bind :
      {A B : Type 0} {P : World S → Type 0} {R : A → World S → Type 0} {Q : B → World S → Type 0}
      {m : M S A} {f : A → M S B}
      → Hoare P m R E
      → ((a : A) → Hoare (R a) (f a) Q E)
      → Hoare P (m >>= f) Q E
  Hoare-bind {m} {f} h k = record { at = λ w p. Post-and_then (m w) f (h.at w p) k }

  pub Hoare-seq :
      {B : Type 0} {P R : World S → Type 0} {Q : B → World S → Type 0} {m : M S (Unit {0})}
      {g : M S B}
      → Hoare P m (λ _. R) E
      → Hoare R g Q E
      → Hoare P (m >> g) Q E
  Hoare-seq {m} {g} h k = record { at = λ w p. Post-and_then (m w) (λ _. g) (h.at w p) (λ _. k) }

  -- A call waits for ever, or takes the next reply.
  pub Hoare-syscall :
      {P : World S → Type 0} {Q : Reply → World S → Type 0} (c : Call)
      → ((w : World S) → P w → w.script ≡ [] → E waiting w)
      → ((w : World S) (r : Reply) (rest : List Reply)
          → P w
          → w.script ≡ r ∷ rest
          → Q (fit c r) (record w { script = rest; trace = (c, fit c r) ∷ w.trace }))
      → Hoare P (syscall c) Q E
  unfolding syscall
  Hoare-syscall {Q} c e h = record {
    at = λ w p. Post-answer Q E c w w.script (e w p) (λ r rest. h w r rest p);
  }

  pub Hoare-get : {P : World S → Type 0} → Hoare P get (λ s. P) E
  Hoare-get = record { at = λ w h. h }

  pub Hoare-modify :
      {P R : World S → Type 0} (f : S → S)
      → ((w : World S) → P w → R (record w { vars = f w.vars }))
      → Hoare P (modify f) (λ _. R) E
  Hoare-modify f h = record { at = h }

  pub Hoare-weaken :
      {A : Type 0} {P : World S → Type 0} {Q : A → World S → Type 0} {m : M S A}
      (R : World S → Type 0)
      → ((w : World S) → P w → R w)
      → Hoare R m Q E
      → Hoare P m Q E
  Hoare-weaken R h k = record { at = λ w p. k.at w (h w p) }

  pub Hoare-pure :
      {A : Type 0} {P : World S → Type 0} {Q : A → World S → Type 0} (a : A)
      → ((w : World S) → P w → Q a w)
      → Hoare P (pure a) Q E
  Hoare-pure a h = record { at = h }

  pub Hoare-stop :
      {A : Type 0} {P : World S → Type 0} {Q : A → World S → Type 0} (e : Halt)
      → ((w : World S) → P w → E e w)
      → Hoare P (stop e) Q E
  Hoare-stop e h = record { at = h }

  Hoare-repeat :
      {P Q : World S → Type 0} (fuel : ℕ) (body : M S Bool)
      → ((w : World S) → P w → E unfinished w)
      → Hoare P body (λ more. if more then P else Q) E
      → Hoare P (repeat fuel body) (λ _. Q) E
  unfolding repeat
  Hoare-repeat zero body u h = Hoare-stop unfinished u
  Hoare-repeat {P} {Q} (suc fuel) body u h = Hoare-bind h λ more.
      elim more
        as (λ b.
          Hoare {A = Unit {0}} (if b then P else Q)
            (elim b [ true ↦ repeat fuel body | false ↦ pure tt ]) (λ _. Q) E) [
              | true ↦ Hoare-repeat fuel body u h
              | false ↦ Hoare-pure tt (λ w q. q)
            ]

  -- An invariant of a loop, kept by the turns after which it goes on.
  pub Hoare-loop :
      {P Q : World S → Type 0} (body : M S Bool)
      → ((w : World S) → P w → E unfinished w)
      → Hoare P body (λ more. if more then P else Q) E
      → Hoare P (loop body) (λ _. Q) E
  unfolding loop
  Hoare-loop body u h = record {
    at = λ w p. (Hoare-repeat (suc (length w.script)) body u h).at w p;
  }

  pub Hoare-if :
      {A : Type 0} {P : World S → Type 0} {Q : A → World S → Type 0} (b : Bool) {m n : M S A}
      → Hoare P m Q E
      → Hoare P n Q E
      → Hoare P (if b then m else n) Q E
  Hoare-if true h k = h
  Hoare-if false h k = k

  pub Hoare-Outcome :
      {A : Type 0} {P : World S → Type 0} {Q : A → World S → Type 0} (i : Outcome) {f g : ℕ → M S A}
      → ((n : ℕ) → Hoare P (f n) Q E)
      → ((e : ℕ) → Hoare P (g e) Q E)
      → Hoare P (elim i [ ok n ↦ f n | error e ↦ g e ]) Q E
  Hoare-Outcome (ok n) h k = h n
  Hoare-Outcome (error e) h k = k e
