-- ===== src/Sys/Seen.antt =====
-- Worlds and runs without the looks at the clock, over an abstraction `φ` of the variables.
use gra_project.Base.{◌≡◌, Bool, true, false, if◌then◌else◌, List, [], ◌∷◌}
use gra_project.Sys.{Call, clock, Reply, waiting, World, Run, returns, halts, M, Trace}

abbrev pub is_clock : Call → Bool
is_clock clock = true
is_clock _ = false

-- A trace without the looks at the clock.
abbrev pub erased : Trace → Trace
erased [] = []
erased ((c, r) ∷ trace) = if is_clock c then erased trace else ((c, r) ∷ erased trace)

module _ {S T : Type 0} (φ : S → T) where
  abbrev pub seen : World S → List Reply → World T
  seen w script = record { vars = φ w.vars; script = script; trace = erased w.trace }

  -- A run without the looks at the clock, at the end of its replies.
  abbrev pub seen_run : {A B : Type 0} → (A → B) → Run S A → Run T B
  seen_run α (returns a v) = returns (α a) (seen v [])
  seen_run α (halts h v) = halts h (seen v [])

-- A program that begins with a call.
abbrev pub Asks : {T B : Type 0} → M T B → Type 0
Asks {T} n = (w : World T) → w.script ≡ [] → n w ≡ halts waiting w
