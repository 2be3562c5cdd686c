-- ===== src/Tests/Bench.antt =====
-- The bench on small inputs.
use gra_project.Base.{
  ℕ, suc, ◌+◌, ◌≤◌, ◌≡◌, ◌≢◌, some, refl, arith, List, [], ◌∷◌, ◌++◌, Bytes, replicate, true,
}
use gra_project.Sys.{Reply, done, failed, unfinished, World, returns, halts, final, text}
use gra_project.Algorithm.Serve.{correct_res}
use gra_project.Bench.{Settings, ready, defaults, atoi, build_request}
use gra_project.Bench.Core.{Counts, bench_turn, benchcore}
use gra_project.Bench.Parent.{collect, bench}
use gra_project.TestBench
use gra_project.TestBench.Outside.{main_setup_fails}
use gra_project.Bench.Layout.{big_endian, sent, address, build_request_header}
use gra_project.Bench.Accounting.{turns, benchcore_accounts}
use gra_project.Bench.Termination.{bench_finishes}
use gra_project.Bench.Answers.{
  replies_of, correct_res_fails, speeds, failures, scans, last_speed, collect_sums,
}

abbrev host : Bytes
host = text "10.0.0.1"

-- A port is read as far as its digits go.
port_number : atoi (text " 9527x") ≡ 9527
unfolding atoi
port_number = refl

negative_number : atoi (text "-1") ≡ 4294967295
unfolding atoi
negative_number = refl

build_request_header_example :
    (t : Settings) × (build_request (address host (text "9527") ++ (b'/' ∷ [])) defaults ≡ ready t)
    × (t.host ≡ host)
    × (t.port ≡ atoi (text "9527"))
    × (sent t
        ≡ big_endian 1
          ++ big_endian 2
          ++ (0 ∷ 0 ∷ 0 ∷ 8 ∷ [])
          ++ big_endian 3
          ++ big_endian 4
          ++ (1 ∷ 0 ∷ 1 ∷ 0 ∷ []))
build_request_header_example =
    build_request_header host (text "9527") [] defaults (omega arith) (omega arith) refl refl
      (record {
        service = omega arith;
        method = omega arith;
        client = omega arith;
        session = omega arith;
      })

-- One turn that is answered, one whose socket cannot be made, and the end of the time.
abbrev replies : List Reply
replies =
    done 0 ∷ done 0 ∷ replies_of 7 5 (replicate 16 b'a') (done 0 ∷ done 7 ∷ failed 24 ∷ done 1 ∷ [])

benchcore_accounts_example :
    let v = final (
      benchcore host 9527
        (replicate 20 1)
        30
        (record { vars = record { speed = 0; failed = 0 }; script = replies; trace = [] })) in
    (v.vars.speed + v.vars.failed ≤ turns v.trace)
    × (turns v.trace ≤ suc (v.vars.speed + v.vars.failed))
benchcore_accounts_example = benchcore_accounts host 9527 (replicate 20 1) 30 replies

abbrev begun : List Reply → World Counts
begun script = record { vars = record { speed = 2; failed = 1 }; script = script; trace = [] }

bench_finishes_example : ¬ (bench defaults (begun replies) ≡ halts unfinished (begun []))
bench_finishes_example = bench_finishes defaults (begun replies) (begun [])

correct_res_fails_example :
    (v : World Counts) × (bench_turn host 9527
        (replicate 20 1)
        (begun (replies_of 7 5 correct_res []))
      ≡ returns true v)
    × (v.vars.speed ≡ 2)
    × (v.vars.failed ≡ 1 + 1)
correct_res_fails_example =
    correct_res_fails host 9527 (replicate 20 1) 7 5 [] (begun (replies_of 7 5 correct_res [])) refl

abbrev two_reports : List (ℕ × ℕ)
two_reports = (10, 1) ∷ (12, 0) ∷ []

collect_sums_example :
    (v : World Counts) × (collect 1 2 (begun (scans two_reports []))
      ≡ returns (last_speed 2 two_reports) v)
    × (v.script ≡ [])
    × (v.vars.speed ≡ 2 + speeds two_reports)
    × (v.vars.failed ≡ 1 + failures two_reports)
collect_sums_example = collect_sums two_reports 1 2 [] (begun (scans two_reports [])) refl refl

-- The URL host:80/ on the test bench.
main_setup_fails_example : TestBench.main_setup [] (some (text "host:80/")) ≢ ready defaults
main_setup_fails_example = main_setup_fails [] (some (text "host:80/")) defaults
