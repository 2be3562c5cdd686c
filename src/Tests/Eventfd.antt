-- ===== src/Tests/Eventfd.antt =====
-- The eventfd experiment: a run of `main`, and a thread that reads a number and then nothing.
use gra_project.Base.{◌+◌, ◌≡◌, refl, List, [], ◌∷◌, length, replicate, length-replicate, arith}
use gra_project.Sys.{Reply, done, failed, input, ready, World, final, returns, eagain}
use gra_project.Eventfd.{Vars, long_bytes, thread, main}
use gra_project.Eventfd.Drains.{IsDrained, thread-IsDrained}
use gra_project.Eventfd.Writes.{numbers, count_down, main_writes}

abbrev begun : List Reply → World Vars
begun script = record { vars = record { epolls = replicate 10 0 }; script = script; trace = [] }

abbrev woken : World Vars
woken = begun (
    done 5
    ∷ done 0
    ∷ ready (record { fd = 3; events = 1 } ∷ [])
    ∷ input (long_bytes 10)
    ∷ failed eagain
    ∷ [])

thread-IsDrained_example : IsDrained (final (thread 3 0 woken)).trace
thread-IsDrained_example = thread-IsDrained 3 0 woken refl

main_writes_example :
    (v : World Vars) × (main (begun (replicate 2003 (done 3))) ≡ returns tt v)
    × (2003 + length v.script ≡ length (replicate 2003 (done 3)))
    × (numbers v.trace ≡ count_down 1000)
main_writes_example =
    main_writes (begun (replicate 2003 (done 3))) refl
      (omega (arith, length-replicate 2003 (done 3)))
