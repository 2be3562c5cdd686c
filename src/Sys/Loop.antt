-- ===== src/Sys/Loop.antt =====
-- The loops of the programs. Every turn of a loop makes a system call, so a loop has as many turns
-- as there are replies: that is the fuel, and it is enough.
use gra_project.Base.{ℕ, zero, suc, Bool, true, false, List, [], ◌∷◌, length}
use gra_project.Sys.{unfinished, M, ◌>>=◌, ◌>>◌, pure, stop}

module _ {S : Type 0} where
  -- `while (1) body`, where the body says whether to go on.
  unfoldable pub repeat : ℕ → M S Bool → M S (Unit {0})
  repeat zero body = stop unfinished
  repeat (suc fuel) body = do more ← body; elim more [ true ↦ repeat fuel body | false ↦ pure tt ]

  unfoldable pub loop : M S Bool → M S (Unit {0})
  unfolding repeat
  loop body w = repeat (suc (length w.script)) body w

  -- `while (1) body` with no `break`.
  abbrev pub forever : M S (Unit {0}) → M S (Unit {0})
  forever body = loop (do body; pure true)

  -- `for (int i = 0; i < n; ++i) body(events[i])`.
  unfoldable pub for_each : {A : Type 0} → List A → (A → M S (Unit {0})) → M S (Unit {0})
  for_each [] body = pure tt
  for_each (a ∷ xs) body = do body a; for_each xs body

  -- `for (int i = start; i < start + n; ++i) body(i)`.
  unfoldable pub for_range : ℕ → ℕ → (ℕ → M S (Unit {0})) → M S (Unit {0})
  for_range zero i body = pure tt
  for_range (suc n) i body = do body i; for_range n (suc i) body
