-- ===== src/Bench/Core.antt =====
-- test_bench/someip_bench/someip_bench.c, `someip_socket` and `benchcore`: the loop of one client.
use gra_project.Base.{
  ℕ, ◌+◌, ◌-◌, Bool, true, false, ◌&&◌, take, get_or, Bytes, leb, ◌==◌, if◌then◌else◌,
}
use gra_project.Sys.{
  socket, connect, inet_addr, gethostbyname, shutdown, sigaction, alarm, timer_expired, read, write,
  close, Outcome, ok, error, result, stored, exited, M, ◌>>=◌, ◌>>◌, pure, stop, modify, syscall,
  run_call,
}
use gra_project.Sys.Loop.{loop}

pub record Counts : Type 0 where
  pub speed : ℕ
  pub failed : ℕ

module _ {S : Type 0} where
  unfoldable pub connect_to : ℕ → ℕ → M S Outcome
  connect_to address port = do
    s ← syscall socket
    elim (result s) [
      | error e ↦ pure (error e)
      | ok sock ↦ do
        r ← syscall (connect sock port address)
        elim (result r) [ error e ↦ pure (error e) | ok n ↦ pure (ok sock) ]
    ]

  unfoldable pub someip_socket : Bytes → ℕ → M S Outcome
  someip_socket host port = do
    r ← syscall (inet_addr host)
    elim (result r) [
      | ok address ↦ connect_to address port
      | error e ↦ do
        hp ← syscall (gethostbyname host)
        elim (result hp) [ error e ↦ pure (error e) | ok address ↦ connect_to address port ]
    ]

-- `result == n`
abbrev pub is_result : ℕ → Outcome → Bool
is_result n (ok m) = m == n
is_result n (error e) = false

-- `read(...) >= 16`
abbrev pub is_full : Outcome → Bool
is_full (ok n) = leb 16 n
is_full (error e) = false

unfoldable pub is_answer : Bytes → Bool
is_answer buf = get_or buf 0 0 == b'a' && get_or buf 10 0 == b'a' && get_or buf 15 0 == b'a'

-- `++failed; close(s); continue`: the caller counts.
abbrev pub give_up : ℕ → M Counts Bool
give_up fd = do run_call (close fd); pure false

unfoldable pub close_answered : ℕ → M Counts Bool
close_answered fd = do r ← syscall (close fd); pure (is_result 0 (result r))

unfoldable pub read_answer : ℕ → M Counts Bool
read_answer fd = do
  r ← syscall (read fd 16)
  if is_full (result r) && is_answer (stored r) then close_answered fd else give_up fd

unfoldable pub half_close : ℕ → M Counts Bool
half_close fd = do
  r ← syscall (shutdown fd)
  if is_result 0 (result r) then read_answer fd else give_up fd

unfoldable pub send_request : ℕ → Bytes → M Counts Bool
send_request fd req = do
  r ← syscall (write fd (take 16 req))
  if is_result 16 (result r) then half_close fd else give_up fd

-- Whether the request was answered.
unfoldable pub attempt : Bytes → ℕ → Bytes → M Counts Bool
attempt host port req = do
  s ← someip_socket host port
  elim s [ error e ↦ pure false | ok fd ↦ send_request fd req ]

unfoldable pub count : Bool → Counts → Counts
count true c = record c { speed = c.speed + 1 }
count false c = record c { failed = c.failed + 1 }

-- `if (failed > 0) --failed`
unfoldable pub forgive : Counts → Counts
forgive c = record c { failed = c.failed - 1 }

unfoldable pub bench_turn : Bytes → ℕ → Bytes → M Counts Bool
bench_turn host port req = do
  flag ← syscall timer_expired
  if is_result 0 (result flag)
      then (do answered ← attempt host port req; modify (count answered); pure true)
      else (do modify forgive; pure false)

-- `if (call) exit(3)`
abbrev pub zero_or_quit : Outcome → M Counts (Unit {0})
zero_or_quit r = if is_result 0 r then pure tt else stop (exited 3)

unfoldable pub benchcore : Bytes → ℕ → Bytes → ℕ → M Counts (Unit {0})
benchcore host port req benchtime = do
  r ← syscall sigaction
  zero_or_quit (result r)
  run_call (alarm benchtime)
  loop (bench_turn host port req)
