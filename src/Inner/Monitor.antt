-- ===== src/Inner/Monitor.antt =====
-- servers/inner_server.cc, `mainThreadFunc`: the thread that reports the usages to the distributor.
-- Its state is the object `pm`; the thread of Procmon that changes it runs beside it.
use gra_project.Base.{true, ℕ, ◌++◌, Bytes, ◌==◌, if◌then◌else◌}
use gra_project.Sys.{
  accept, read, write, Outcome, ok, error, result, exited, M, ◌>>=◌, ◌>>◌, pure, stop, syscall,
  ok_or_exit,
}
use gra_project.Sys.Loop.{forever}
use gra_project.Net.{set_tcp_no_delay, get_listen_fd}
use gra_project.Numbers.{Numbers}
use gra_project.Algorithm.Monitor.{Usage}
use gra_project.Procmon.Ticks.{Vars, get_stat}

abbrev pub mon_port : ℕ
mon_port = 9529

-- `if (readn <= 0) exit(1)`
abbrev pub asked_or_exit : {S : Type 0} → Outcome → M S (Unit {0})
asked_or_exit (ok n) = if n == 0 then stop (exited 1) else pure tt
asked_or_exit (error e) = stop (exited 1)

-- `if (writen != 3 * sizeof(double)) exit(1)`
abbrev pub sent_or_exit : {S : Type 0} → Outcome → M S (Unit {0})
sent_or_exit (ok n) = if n == 24 then pure tt else stop (exited 1)
sent_or_exit (error e) = stop (exited 1)

module _ {N : Numbers} where
  unfoldable pub report_of : Usage N → Bytes
  report_of u = N.to_bytes u.cpu ++ (N.to_bytes u.memory ++ N.to_bytes u.io)

  -- A byte from the distributor.
  unfoldable pub await_request : ℕ → M (Vars N) (Unit {0})
  await_request mon_fd = do r ← syscall (read mon_fd 1); asked_or_exit (result r)

  unfoldable pub send_report : ℕ → Usage N → M (Vars N) (Unit {0})
  send_report mon_fd usage = do
    w ← syscall (write mon_fd (report_of usage))
    sent_or_exit (result w)

  unfoldable pub report_turn : ℕ → M (Vars N) (Unit {0})
  unfolding await_request send_report
  report_turn mon_fd = do await_request mon_fd; usage ← get_stat; send_report mon_fd usage

  unfoldable pub report_thread : M (Vars N) (Unit {0})
  report_thread = do
    mon_lfd ← get_listen_fd mon_port 1
    r ← syscall (accept mon_lfd)
    mon_fd ← ok_or_exit (result r)
    set_tcp_no_delay mon_fd true
    forever (report_turn mon_fd)
