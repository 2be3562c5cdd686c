-- ===== src/Sys/Keeps.antt =====
-- Predicates that a program keeps, however it ends.
use gra_project.Base.{ℕ, zero, suc, Bool, true, false, List, [], ◌∷◌, length, All}
use gra_project.Sys.{
  Call, Reply, Outcome, ok, error, Halt, World, Run, returns, halts, final, M, and_then, ◌>>=◌,
  ◌>>◌, pure, stop, get, modify, assert, fit, answer, syscall, ok_or_exit, ok_or_abort,
}
use gra_project.Sys.Loop.{repeat, loop, for_each, for_range}

-- Wherever the run of `m` ends, by a return or a halt, it ends in `P`.
pub record Keeps {S A : Type 0} (P : World S → Type 0) (m : M S A) : Type 0 where
  pub at : (w : World S) → P w → P (final (m w))

module _ {S : Type 0} (P : World S → Type 0) where
  final-and_then :
      {A B : Type 0} (r : Run S A) (f : A → M S B)
      → P (final r)
      → ((a : A) → Keeps P (f a))
      → P (final (and_then r f))
  final-and_then (returns a w) f h k = (k a).at w h
  final-and_then (halts s w) f h k = h

  pub Keeps-bind :
      {A B : Type 0} {m : M S A} {f : A → M S B}
      → Keeps P m
      → ((a : A) → Keeps P (f a))
      → Keeps P (m >>= f)
  Keeps-bind {m} {f} h k = record { at = λ w p. final-and_then (m w) f (h.at w p) k }

  pub Keeps-seq :
      {B : Type 0} {m : M S (Unit {0})} {k : M S B} → Keeps P m → Keeps P k → Keeps P (m >> k)
  Keeps-seq {m} {k} h g = record { at = λ w p. final-and_then (m w) (λ _. k) (h.at w p) (λ _. g) }

  pub Keeps-pure : {A : Type 0} (a : A) → Keeps P (pure a)
  Keeps-pure a = record { at = λ w p. p }

  pub Keeps-stop : {A : Type 0} (h : Halt) → Keeps {A = A} P (stop h)
  Keeps-stop h = record { at = λ w p. p }

  pub Keeps-get : Keeps P get
  Keeps-get = record { at = λ w p. p }

  pub Keeps-assert : (b : Bool) → Keeps P (assert b)
  Keeps-assert true = Keeps-pure tt
  Keeps-assert false = record { at = λ w p. p }

  pub Keeps-ok_or_exit : (i : Outcome) → Keeps P (ok_or_exit i)
  Keeps-ok_or_exit (ok n) = Keeps-pure n
  Keeps-ok_or_exit (error e) = record { at = λ w p. p }

  pub Keeps-ok_or_abort : (i : Outcome) → Keeps P (ok_or_abort i)
  Keeps-ok_or_abort (ok n) = Keeps-pure n
  Keeps-ok_or_abort (error e) = record { at = λ w p. p }

  pub Keeps-modify :
      (f : S → S) → ((w : World S) → P w → P (record w { vars = f w.vars })) → Keeps P (modify f)
  Keeps-modify f h = record { at = h }

  answer-keeps :
      (c : Call) (w : World S) (script : List Reply)
      → P w
      → ((r : Reply) (rest : List Reply)
          → P (record w { script = rest; trace = (c, fit c r) ∷ w.trace }))
      → P (final (answer c w script))
  answer-keeps c w [] p h = p
  answer-keeps c w (r ∷ rest) p h = h r rest

  -- A call keeps what its entry in the trace keeps, whatever the reply.
  pub Keeps-syscall :
      {c : Call}
      → ((w : World S) (r : Reply) (rest : List Reply)
          → P w
          → P (record w { script = rest; trace = (c, fit c r) ∷ w.trace }))
      → Keeps P (syscall c)
  unfolding syscall
  Keeps-syscall {c} h = record { at = λ w p. answer-keeps c w w.script p (λ r rest. h w r rest p) }

  Keeps-repeat : (fuel : ℕ) (body : M S Bool) → Keeps P body → Keeps P (repeat fuel body)
  unfolding repeat
  Keeps-repeat zero body h = Keeps-stop _
  Keeps-repeat (suc fuel) body h = Keeps-bind h λ more.
      elim more
        as (λ b. Keeps {A = Unit {0}} P (elim b [ true ↦ repeat fuel body | false ↦ pure tt ])) [
          | true ↦ Keeps-repeat fuel body h
          | false ↦ Keeps-pure tt
        ]

  pub Keeps-loop : (body : M S Bool) → Keeps P body → Keeps P (loop body)
  unfolding loop
  Keeps-loop body h = record { at = λ w p. (Keeps-repeat (suc (length w.script)) body h).at w p }

  pub Keeps-for_each :
      {A : Type 0} (xs : List A) (body : A → M S (Unit {0}))
      → All (λ a. Keeps P (body a)) xs
      → Keeps P (for_each xs body)
  unfolding for_each
  Keeps-for_each [] body h = Keeps-pure tt
  Keeps-for_each (a ∷ xs) body h = Keeps-seq h.0 (Keeps-for_each xs body h.1)

  pub Keeps-for_range :
      (n i : ℕ) (body : ℕ → M S (Unit {0}))
      → ((i : ℕ) → Keeps P (body i))
      → Keeps P (for_range n i body)
  unfolding for_range
  Keeps-for_range zero i body h = Keeps-pure tt
  Keeps-for_range (suc n) i body h = Keeps-seq (h i) (Keeps-for_range n (suc i) body h)
