-- ===== src/Bench/Answers.antt =====
-- test_bench/someip_bench/someip_bench.c: how an answer counts, and what the parent adds up.
use gra_project.Base.{
  ℕ, zero, suc, ◌+◌, ◌≡◌, refl, true, List, [], ◌∷◌, ◌++◌, arith, take, length, Bytes, Bool-cases,
  inl, inr, take-length,
}
use gra_project.Sys.{
  inet_addr, socket, connect, write, shutdown, read, close, timer_expired, scan, Reply, done, input,
  scanned, Trace, World, returns, syscall,
}
use gra_project.Algorithm.Serve.{correct_res}
use gra_project.Bench.Core.{
  Counts, someip_socket, connect_to, is_answer, close_answered, read_answer, half_close,
  send_request, attempt, count, bench_turn,
}
use gra_project.Bench.Parent.{add_counts, collect}

-- The replies to a request that is sent whole and answered by sixteen bytes.
abbrev pub replies_of : ℕ → ℕ → Bytes → List Reply → List Reply
replies_of address fd answer rest =
    done 0 ∷ done address ∷ done fd ∷ done 0 ∷ done 16 ∷ done 0 ∷ input answer ∷ done 0 ∷ rest

-- The calls that ask for them, newest first.
abbrev pub calls_of : Bytes → ℕ → Bytes → ℕ → ℕ → Bytes → Trace
calls_of host port req address fd answer =
    (close fd, done 0)
    ∷ (read fd 16, input answer)
    ∷ (shutdown fd, done 0)
    ∷ (write fd (take 16 req), done 16)
    ∷ (connect fd port address, done 0)
    ∷ (socket, done fd)
    ∷ (inet_addr host, done address)
    ∷ (timer_expired, done 0)
    ∷ []

-- A turn in which every call succeeds sends the first sixteen bytes of the request, closes the
-- socket, and counts the request by three bytes of the answer: as answered if they are `a`, as
-- failed if not.
pub bench_turn_counts :
    (host : Bytes) (port : ℕ) (req : Bytes) (address fd : ℕ) (answer : Bytes) (rest : List Reply)
    (w : World Counts)
    → length answer ≡ 16
    → w.script ≡ replies_of address fd answer rest
    → bench_turn host port req w
      ≡ returns true (record {
        vars = count (is_answer answer) w.vars;
        script = rest;
        trace = calls_of host port req address fd answer ++ w.trace;
      })
unfolding bench_turn attempt someip_socket connect_to send_request half_close read_answer
    close_answered syscall
bench_turn_counts host port req address fd answer rest w n e =
    elim (Bool-cases (is_answer answer)) [
      | inl good ↦ simp (e, take-length answer 16 (omega (arith, n)), n, good)
      | inr bad ↦ simp (e, take-length answer 16 (omega (arith, n)), n, bad)
    ]

-- The success message of the distributors, an `a` and fifteen zero bytes, is counted as a failure.
pub correct_res_fails :
    (host : Bytes) (port : ℕ) (req : Bytes) (address fd : ℕ) (rest : List Reply) (w : World Counts)
    → w.script ≡ replies_of address fd correct_res rest
    → (v : World Counts) × (bench_turn host port req w ≡ returns true v)
      × (v.vars.speed ≡ w.vars.speed)
      × (v.vars.failed ≡ w.vars.failed + 1)
unfolding is_answer count
correct_res_fails host port req address fd rest w e =
    (_, bench_turn_counts host port req address fd correct_res rest w refl e, refl, refl)

abbrev pub speeds : List (ℕ × ℕ) → ℕ
speeds [] = 0
speeds ((i, j) ∷ reports) = i + speeds reports

abbrev pub failures : List (ℕ × ℕ) → ℕ
failures [] = 0
failures ((i, j) ∷ reports) = j + failures reports

abbrev pub scans : List (ℕ × ℕ) → List Reply → List Reply
scans [] rest = rest
scans ((i, j) ∷ reports) rest = scanned i j ∷ scans reports rest

abbrev pub last_speed : ℕ → List (ℕ × ℕ) → ℕ
last_speed last [] = last
last_speed last ((i, j) ∷ reports) = last_speed i reports

-- When every client reports, the parent takes exactly their reports, its counts grow by the sums of
-- theirs, and its result, which becomes the exit status, is the speed of the client that reports last.
pub collect_sums :
    (reports : List (ℕ × ℕ)) (n last : ℕ) (rest : List Reply) (w : World Counts)
    → length reports ≡ suc n
    → w.script ≡ scans reports rest
    → (v : World Counts) × (collect n last w ≡ returns (last_speed last reports) v)
      × (v.script ≡ rest)
      × (v.vars.speed ≡ w.vars.speed + speeds reports)
      × (v.vars.failed ≡ w.vars.failed + failures reports)
unfolding collect add_counts syscall
collect_sums [] n last rest w h e = absurd (omega arith)
collect_sums ((i, j) ∷ []) zero last rest w h e = (
  record { vars = add_counts i j w.vars; script = rest; trace = (scan, scanned i j) ∷ w.trace },
  simp e,
  refl,
  omega arith,
  omega arith,
)
collect_sums ((i, j) ∷ reports) (suc n) last rest w h e =
    let u : World Counts = record {
      vars = add_counts i j w.vars;
      script = scans reports rest;
      trace = (scan, scanned i j) ∷ w.trace;
    } in
    let (v, run, script, speed, failed) = collect_sums reports n i rest u (omega arith) refl in
    (v, simp e run, script, omega (arith, speed), omega (arith, failed))
collect_sums ((i, j) ∷ q ∷ reports) zero last rest w h e = absurd (omega arith)
