-- ===== src/Bench/Parent.antt =====
-- test_bench/someip_bench/someip_bench.c, `bench`: the clients are forked, and the parent adds up
-- their counts.
use gra_project.Base.{Option, none, some, ℕ, zero, suc, ◌+◌, ◌-◌, ◌^◌, ltb, if◌then◌else◌}
use gra_project.Sys.{
  pipe, fork, fdopen, report, scan, sleep, close, Reply, scanned, Outcome, ok, error, result, M,
  ◌>>=◌, ◌>>◌, pure, get, modify, syscall, run_call,
}
use gra_project.Bench.{Settings}
use gra_project.Bench.Core.{Counts, someip_socket, is_result, benchcore}

-- `for (i = 0; i < clients; ++i)` with the pid of the last `fork`.
unfoldable pub fork_clients : ℕ → ℕ → M Counts Outcome
fork_clients zero pid = pure (ok pid)
fork_clients (suc n) pid = do
  r ← syscall fork
  elim (result r) [
    | error e ↦ do run_call (sleep 1); pure (error e)
    | ok zero ↦ do run_call (sleep 1); pure (ok 0)
    | ok (suc p) ↦ fork_clients n (suc p)
  ]

unfoldable pub add_counts : ℕ → ℕ → Counts → Counts
add_counts i j c = record { speed = c.speed + i; failed = c.failed + j }

-- `fscanf(f, "%d %d", &i, &j) >= 2`
abbrev pub counts_in : Reply → Option (ℕ × ℕ)
counts_in (scanned i j) = some (i, j)
counts_in _ = none

-- The loop of the parent while `n` clients are left after the next one; the result is `i`.
unfoldable pub collect : ℕ → ℕ → M Counts ℕ
unfolding add_counts
collect zero last = do
  r ← syscall scan
  elim (counts_in r) [ none ↦ pure last | some (i, j) ↦ do modify (add_counts i j); pure i ]
collect (suc n) last = do
  r ← syscall scan
  elim (counts_in r) [ none ↦ pure last | some (i, j) ↦ do modify (add_counts i j); collect n i ]

unfoldable pub run_client : Settings → M Counts ℕ
run_client set = do
  benchcore set.host set.port set.request set.benchtime
  r ← syscall fdopen
  elim (result r) [
    | error e ↦ pure 3
    | ok f ↦ do c ← get; run_call (report c.speed c.failed); run_call (close f); pure 0
  ]

unfoldable pub run_parent : ℕ → M Counts ℕ
run_parent clients = do
  r ← syscall fdopen
  elim (result r) [
    | error e ↦ pure 3
    | ok f ↦ do
      modify (λ c. record { speed = 0; failed = 0 })
      i ← collect (clients - 1) clients
      run_call (close f)
      pure i
  ]

-- `i < clients` fails at once for a negative number.
abbrev pub as_count : ℕ → ℕ
as_count n = if ltb n (2 ^ 31) then n else 0

-- Once the processes are there: the child has the pid 0, and -1 is a failed `fork`.
unfoldable pub play_role : Settings → Outcome → M Counts ℕ
play_role set (error e) = pure 3
play_role set (ok zero) = run_client set
play_role set (ok (suc pid)) = run_parent (as_count set.clients)

-- The exit status of the process that `bench` ends in, parent or child.
unfoldable pub bench : Settings → M Counts ℕ
bench set = do
  s ← someip_socket set.host set.port
  elim s [
    | error e ↦ pure 1
    | ok fd ↦ do
      run_call (close fd)
      r ← syscall pipe
      if is_result 0 (result r)
          then (do pid ← fork_clients (as_count set.clients) 0; play_role set pid)
          else pure 3
  ]
