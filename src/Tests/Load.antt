-- ===== src/Tests/Load.antt =====
-- The program that fills a file, on a disk that takes a part of the buffer and is then full.
use gra_project.Base.{arith, ◌+◌, ◌≡◌, refl, [], ◌∷◌, true}
use gra_project.Sys.{done, failed, write_same, World, final, returns, ok}
use gra_project.Load.{Vars, len, left_after, write_turn, main}
use gra_project.Load.Bounds.{InBuffer, main-InBuffer, turns, failed_writes_overrun}

abbrev started : World Vars
started = record {
  vars = record { left = 0 };
  script = done 3 ∷ done 100 ∷ failed 28 ∷ failed 28 ∷ [];
  trace = [];
}

main-InBuffer_example : InBuffer (final (main started)).trace
main-InBuffer_example = main-InBuffer started refl

abbrev full : World Vars
full = record {
  vars = record { left = len };
  script = failed 28 ∷ failed 28 ∷ done 7 ∷ [];
  trace = [];
}

failed_writes_overrun_example :
    (v : World Vars) × (turns 3 2 full ≡ returns tt v)
    × (write_turn 3 v
        ≡ returns true (record {
          vars = record { left = left_after (ok 7) (len + 2) };
          script = [];
          trace = (write_same 3 (len + 2), done 7) ∷ v.trace;
        }))
failed_writes_overrun_example =
    failed_writes_overrun 3 (28 ∷ 28 ∷ []) (done 7) [] full (omega arith) refl refl
