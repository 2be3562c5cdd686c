-- ===== src/Tests/Inner.antt =====
-- The inner server on small inputs.
use gra_project.Base.{◌≡◌, refl, List, [], ◌∷◌, arith, replicate, Bytes}
use gra_project.Sys.{read, Reply, input, World, returns, ◌>>◌}
use gra_project.Wire.{mess_len}
use gra_project.Inner.{Vars, work_turn}
use gra_project.Inner.Echo.{split_message_unanswered}

abbrev working : List Reply → World Vars
working script = record { vars = record { mess = replicate 20 7 }; script = script; trace = [] }

abbrev sevens : Bytes
sevens = replicate 20 7

split_message_unanswered_example :
    let w = working (input (replicate 8 1) ∷ input (replicate 12 2) ∷ []) in
    (v : World Vars) × ((work_turn 3 >> work_turn 3) w ≡ returns tt v)
    × (v.script ≡ [])
    × (v.trace
        ≡ (read 3 mess_len, input (replicate 12 2)) ∷ (read 3 mess_len, input (replicate 8 1)) ∷ [])
split_message_unanswered_example =
    split_message_unanswered 3 (replicate 8 1) (replicate 12 2) []
      (working (input (replicate 8 1) ∷ input (replicate 12 2) ∷ [])) (omega arith) (omega arith)
      refl refl
