-- ===== src/TestBench/Client.antt =====
-- test_bench/someip_bench/test_bench.c, `benchcore` and `bench`: a client that adds up the times of its
-- answers, and the parent that adds up the clients.
use gra_project.Base.{
  ℕ, ◌+◌, ◌-◌, ◌^◌, ◌%◌, Bool, true, false, Option, none, some, take, Bytes, if◌then◌else◌,
}
use gra_project.Sys.{
  shutdown, sigaction, alarm, timer_expired, clock, read, write, close, Outcome, ok, error, result,
  stored, exited, M, ◌>>=◌, ◌>>◌, pure, stop, modify, syscall, run_call,
}
use gra_project.Sys.Loop.{loop}
use gra_project.Bench.Core.{someip_socket, is_result, is_full, is_answer}

pub record Tally : Type 0 where
  pub speed : ℕ
  pub failed : ℕ
  pub diff : ℕ

-- The time in microseconds, as the 64 bits of `now`; 0 if the call fails.
abbrev pub time_of : Outcome → ℕ
time_of (ok t) = t % 2 ^ 64
time_of (error e) = 0

unfoldable pub now : M Tally ℕ
now = do r ← syscall clock; pure (time_of (result r))

-- `a - b` of 64 bits
unfoldable pub elapsed : ℕ → ℕ → ℕ
elapsed a b = (a + (2 ^ 64 - b)) % 2 ^ 64

-- `++failed; close(s); continue`: the caller counts.
unfoldable pub give_up : ℕ → M Tally (Option ℕ)
give_up fd = do run_call (close fd); pure none

-- `if (close(s)) {++failed; continue;}`
unfoldable pub close_answered : ℕ → ℕ → M Tally (Option ℕ)
close_answered fd inner_diff = do
  r ← syscall (close fd)
  pure (if is_result 0 (result r) then some inner_diff else none)

unfoldable pub read_answer : ℕ → ℕ → M Tally (Option ℕ)
read_answer fd start = do
  r ← syscall (read fd 16)
  if is_full (result r)
      then (do
        end ← now
        if is_answer (stored r) then close_answered fd (elapsed end start) else give_up fd)
      else give_up fd

unfoldable pub half_close : ℕ → ℕ → M Tally (Option ℕ)
half_close fd start = do
  r ← syscall (shutdown fd)
  if is_result 0 (result r) then read_answer fd start else give_up fd

unfoldable pub send_request : ℕ → Bytes → M Tally (Option ℕ)
send_request fd req = do
  r ← syscall (write fd (take 16 req))
  if is_result 16 (result r) then (do start ← now; half_close fd start) else give_up fd

-- The time of the answer, if the request was answered.
unfoldable pub attempt : Bytes → ℕ → Bytes → M Tally (Option ℕ)
attempt host port req = do
  s ← someip_socket host port
  elim s [ error e ↦ pure none | ok fd ↦ send_request fd req ]

unfoldable pub count : Option ℕ → Tally → Tally
count none c = record c { failed = c.failed + 1 }
count (some time) c = record c { speed = c.speed + 1; diff = (c.diff + time) % 2 ^ 64 }

-- `if (failed > 0) --failed`
unfoldable pub forgive : Tally → Tally
forgive c = record c { failed = c.failed - 1 }

unfoldable pub bench_turn : Bytes → ℕ → Bytes → M Tally Bool
bench_turn host port req = do
  flag ← syscall timer_expired
  if is_result 0 (result flag)
      then (do answered ← attempt host port req; modify (count answered); pure true)
      else (do modify forgive; pure false)

unfoldable pub benchcore : Bytes → ℕ → Bytes → ℕ → M Tally (Unit {0})
benchcore host port req benchtime = do
  modify (λ c. record { speed = 0; failed = 0; diff = 0 })
  r ← syscall sigaction
  if is_result 0 (result r) then pure tt else stop (exited 3)
  run_call (alarm benchtime)
  loop (bench_turn host port req)
