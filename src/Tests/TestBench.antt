-- ===== src/Tests/TestBench.antt =====
-- The test bench on small inputs: a request without an answer, one that is answered after 250
-- microseconds, and the end of the time.
use gra_project.Base.{◌≡◌, refl, List, [], ◌∷◌, ◌++◌, replicate}
use gra_project.Sys.{Reply, done, input, World, syscall, final}
use gra_project.Sys.Loop.{loop}
use gra_project.Bench.Core.{someip_socket, connect_to, is_answer}
use gra_project.Bench.Core
use gra_project.Sys.Seen.{seen_run}
use gra_project.Sys.Inserts.{told, at_end}
use gra_project.TestBench.Agrees.{counts_of, nothing, benchcores_agree}
use gra_project.TestBench.Client.{
  Tally, now, elapsed, give_up, close_answered, read_answer, half_close, send_request, attempt,
  count, forgive, bench_turn, benchcore,
}
use gra_project.TestBench.Seen.{watch}
use gra_project.TestBench.Times.{benchcore_times}

abbrev old : Tally
old = record { speed = 8; failed = 2; diff = 5 }

-- The flag, the address, the socket, and what comes of the request.
abbrev asked : List Reply → List Reply
asked replies = done 0 ∷ done 7 ∷ done 3 ∷ done 0 ∷ done 16 ∷ replies

abbrev replies : List Reply
replies =
    done 0
    ∷ done 0
    ∷ (asked (done 100 ∷ done 0 ∷ input [] ∷ done 0 ∷ [])
        ++ (asked (done 400 ∷ done 0 ∷ input (replicate 16 b'a') ∷ done 650 ∷ done 0 ∷ [])
            ++ (done 1 ∷ [])))

abbrev ended : World Tally
ended =
    final
      (benchcore [] 80 (replicate 16 1) 30 (record { vars = old; script = replies; trace = [] }))

counted : ended.vars ≡ record { speed = 1; failed = 0; diff = 250 }
unfolding benchcore syscall loop bench_turn attempt someip_socket connect_to send_request now
    half_close read_answer give_up is_answer close_answered forgive count elapsed
counted = refl

benchcore_times_example :
    (ended.vars.speed ≡ (watch ended.trace).answered) × (ended.vars.diff ≡ (watch ended.trace).sum)
benchcore_times_example = benchcore_times [] 80 (replicate 16 1) 30 old replies

abbrev begun : World Tally
begun = record { vars = old; script = replies; trace = [] }

-- The replies to a client without a clock: one answer, and the end of the time.
abbrev untimed : List Reply
untimed =
    done 0 ∷ done 0 ∷ (asked (done 0 ∷ input (replicate 16 b'a') ∷ done 0 ∷ []) ++ (done 1 ∷ []))

benchcores_agree_example :
    ((script : List Reply) × (Core.benchcore [] 80
          (replicate 16 1)
          30
          (record { vars = nothing; script = script; trace = [] })
        ≡ seen_run counts_of (λ x. x) (benchcore [] 80 (replicate 16 1) 30 begun)))
    × ((script : List Reply) × (seen_run counts_of
            (λ x. x)
            (benchcore [] 80 (replicate 16 1) 30 (told begun script))
          ≡ at_end (
              Core.benchcore [] 80
                (replicate 16 1)
                30
                (record { vars = nothing; script = untimed; trace = [] }))))
benchcores_agree_example = benchcores_agree [] 80 (replicate 16 1) 30 begun untimed
