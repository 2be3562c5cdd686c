-- ===== src/Eventfd.antt =====
-- eventfd_test/epollexclusive_exp.cc: ten threads that wait for one eventfd, each with its own epoll,
-- and `main`, which writes to it. What the threads print is what they have read.
pub mod Drains
pub mod Writes
use gra_project.Base.{
  ℕ, ◌+◌, ◌*◌, ◌/◌, ◌^◌, Bool, true, false, not, ◌==◌, List, ◌++◌, drop, set, Bytes, if◌then◌else◌,
}
use gra_project.Sys.{
  eventfd, epoll_create, epoll_add, epoll_wait, read, write, sleep, usleep, getchar, Outcome, ok,
  error, result, bits, delivered, Event, M, ◌>>=◌, ◌>>◌, pure, modify, syscall, run_call,
}
use gra_project.Sys.Loop.{loop, forever, for_each, for_range}
use gra_project.Wire.{int_bytes, int_at}
use gra_project.Algorithm.Serve.{has_input}

-- The global `epolls`, which nothing reads.
pub record Vars : Type 0 where
  pub epolls : List ℕ

-- EPOLLIN | EPOLLEXCLUSIVE
abbrev pub exclusive_event : ℕ
exclusive_event = 1 + 2 ^ 28

-- `tmp > 0`
abbrev pub gives : Outcome → Bool
gives (ok n) = not (n == 0)
gives (error e) = false

unfoldable pub read_turn : ℕ → M Vars Bool
read_turn fd = do r ← syscall (read fd 8); pure (gives (result r))

unfoldable pub on_event : Event → M Vars (Unit {0})
on_event event = if has_input event then loop (read_turn event.fd) else pure tt

unfoldable pub wait_turn : ℕ → M Vars (Unit {0})
wait_turn epollfd = do r ← syscall (epoll_wait epollfd 10); for_each (delivered r) on_event

-- The thread number `i`; no result is looked at.
unfoldable pub thread : ℕ → ℕ → M Vars (Unit {0})
thread evfd i = do
  r ← syscall (epoll_create 512)
  modify (λ s. record s { epolls = set s.epolls i (bits (result r)) })
  run_call (epoll_add (bits (result r)) evfd exclusive_event)
  forever (wait_turn (bits (result r)))

-- A `uint64_t` in memory, least significant byte first.
unfoldable pub long_bytes : ℕ → Bytes
long_bytes n = int_bytes n ++ int_bytes (n / 2 ^ 32)

unfoldable pub long_at : Bytes → ℕ
long_at m = int_at m + 2 ^ 32 * int_at (drop 4 m)

unfoldable pub write_number : ℕ → ℕ → M Vars (Unit {0})
write_number evfd i = do run_call (write evfd (long_bytes i)); run_call (usleep 100000)

-- `main`; the threads that it starts are runs of their own.
unfoldable pub main : M Vars (Unit {0})
main = do
  r ← syscall (eventfd 10)
  run_call (sleep 3)
  for_range 1000 0 (write_number (bits (result r)))
  run_call getchar
