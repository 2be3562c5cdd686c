-- ===== src/Sys/Endless.antt =====
-- Programs that only stop by a halt: `while (1)` with no `break`.
use gra_project.Base.{ℕ, zero, suc, ◌<◌, ◌≡◌, refl, ◌≢◌, true, false, arith, length}
use gra_project.Sys.{Halt, unfinished, World, Run, returns, halts, M, and_then, ◌>>=◌, ◌>>◌, pure}
use gra_project.Sys.Loop.{repeat, loop, forever}
use gra_project.Sys.Consumes.{Leaves, Takes}

-- The run halts, and not for want of fuel.
abbrev pub Halts : {S A : Type 0} → Run S A → Type 0
Halts {S} r = (h : Halt) × (w : World S) × (r ≡ halts h w) × (h ≢ unfinished)

pub record Endless {S A : Type 0} (m : M S A) : Type 0 where
  pub at : (w : World S) → Halts (m w)

module _ {S : Type 0} where
  Halts-and_then :
      {A B : Type 0} (n : ℕ) (r : Run S A) (f : A → M S B)
      → Leaves 0 n r
      → ((a : A) → Endless (f a))
      → Halts (and_then r f)
  Halts-and_then n (returns a w) f l t = (t a).at w
  Halts-and_then n (halts h w) f l t = (h, w, refl, l)

  pub Endless-bind :
      {A B : Type 0} {m : M S A} {f : A → M S B}
      → Takes 0 m
      → ((a : A) → Endless (f a))
      → Endless (m >>= f)
  Endless-bind {m} {f} t e = record {
    at = λ w. Halts-and_then (length w.script) (m w) f (t.at w) e;
  }

  pub Endless-seq :
      {B : Type 0} {m : M S (Unit {0})} {g : M S B} → Takes 0 m → Endless g → Endless (m >> g)
  Endless-seq {m} {g} t e = record {
    at = λ w. Halts-and_then (length w.script) (m w) (λ _. g) (t.at w) (λ _. e);
  }

  Halts-repeat :
      (fuel : ℕ) (body : M S (Unit {0})) (w : World S)
      → Takes 1 body
      → length w.script < fuel
      → Halts (repeat fuel (body >> pure true) w)
  unfolding repeat
  Halts-repeat zero body w t h = absurd (omega arith)
  Halts-repeat (suc fuel) body w t h = turn (body w) (t.at w) (λ v l. Halts-repeat fuel body v t l)
    where
      turn :
          (r : Run S (Unit {0}))
          → Leaves 1 (length w.script) r
          → ((v : World S) → length v.script < fuel → Halts (repeat fuel (body >> pure true) v))
          → Halts (
              and_then
                (and_then r (λ _. pure true))
                (λ more. elim more [ true ↦ repeat fuel (body >> pure true) | false ↦ pure tt ]))
      turn (returns a v) l rest = rest v (omega arith)
      turn (halts e v) l rest = (e, v, refl, l)

  -- Every turn makes a call, so the process ends by a halt: it waits, exits or aborts.
  pub Endless-forever : {body : M S (Unit {0})} → Takes 1 body → Endless (forever body)
  unfolding loop
  Endless-forever {body} t = record {
    at = λ w. Halts-repeat (suc (length w.script)) body w t (omega arith);
  }
