-- ===== src/RoundRobin/Spec.antt =====
-- What servers/round_robin_distributor.cc promises: the same event loop over a queue of servers. The
-- server at the front gets the request and goes to the back.
use Prim.Native.Nat.{bit_and}
use gra_project.Base.{ℕ, Bool, true, not, List, [], ◌∷◌, ◌++◌, Bytes, ◌==◌, if◌then◌else◌}
use gra_project.Sys.{
  epoll_create, epoll_wait, read, write, Event, eagain, epollin, Outcome, ok, error, result, stored,
  delivered, M, ◌>>=◌, ◌>>◌, pure, get, modify, syscall, run_call, ok_or_abort, accept, stop,
  exited,
}
use gra_project.Sys.Loop.{loop, forever, for_each}
use gra_project.Net.{set_nonblock, set_tcp_no_delay, get_listen_fd, epoll_ctl_add, close_connect}
use gra_project.RoundRobin.{outer_port, max_event, bufsiz, default_event, correct_res, err_res}

-- The data descriptors, the next one first.
abbrev pub Queue : Type 0
Queue = List ℕ

abbrev pub front : Queue → ℕ
front [] = 0
front (fd ∷ queue) = fd

abbrev pub rotate : Queue → Queue
rotate [] = []
rotate (fd ∷ queue) = queue ++ (fd ∷ [])

unfoldable pub next_server : M Queue ℕ
next_server = do queue ← get; modify rotate; pure (front queue)

unfoldable pub answer : ℕ → ℕ → Outcome → M Queue (Unit {0})
answer fd n (ok k) = if k == n then run_call (write fd correct_res) else run_call (write fd err_res)
answer fd n (error e) = run_call (write fd err_res)

unfoldable pub pass_on : ℕ → ℕ → Bytes → M Queue (Unit {0})
pass_on fd n bytes = do
  server_fd ← next_server
  r ← syscall (write server_fd bytes)
  answer fd n (result r)

unfoldable pub handle : ℕ → ℕ → Bytes → Outcome → M Queue (Unit {0})
handle epoll_fd fd bytes (error e) = if e == eagain then pure tt else close_connect epoll_fd fd
handle epoll_fd fd bytes (ok n) = if n == 0 then close_connect epoll_fd fd else pass_on fd n bytes

unfoldable pub admit : ℕ → ℕ → M Queue Bool
admit epoll_fd listen_fd = do
  r ← syscall (accept listen_fd)
  elim (result r) [
    | error e ↦ if e == eagain then pure Bool.false else stop (exited 1)
    | ok fd ↦ do
      set_nonblock fd
      set_tcp_no_delay fd true
      epoll_ctl_add epoll_fd fd default_event
      pure true
  ]

unfoldable pub react : ℕ → ℕ → Event → M Queue (Unit {0})
react epoll_fd listen_fd event =
    if event.fd == listen_fd
    then loop (admit epoll_fd listen_fd)
    else if not (bit_and event.events epollin == 0)
    then (do r ← syscall (read event.fd bufsiz); handle epoll_fd event.fd (stored r) (result r))
    else pure tt

unfoldable pub turn : ℕ → ℕ → M Queue (Unit {0})
turn epoll_fd listen_fd = do
  r ← syscall (epoll_wait epoll_fd max_event)
  for_each (delivered r) (react epoll_fd listen_fd)

unfoldable pub serve : M Queue (Unit {0})
serve = do
  listen_fd ← get_listen_fd outer_port 512
  set_nonblock listen_fd
  r ← syscall (epoll_create 1024)
  epoll_fd ← ok_or_abort (result r)
  epoll_ctl_add epoll_fd listen_fd default_event
  forever (turn epoll_fd listen_fd)
