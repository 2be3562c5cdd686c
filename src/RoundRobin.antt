-- ===== src/RoundRobin.antt =====
-- servers/round_robin_distributor.cc: the start in `main`, and the event loop of its thread. It has
-- copies of the socket helpers of Net. No other thread changes `CurSelectedServerIndex`, and it is
-- never negative, so the wait on the condition variable does not happen.
pub mod Order
pub mod Spec
pub mod Refines
use Prim.Native.Nat.{bit_and}
use gra_project.Base.{
  ℕ, zero, suc, ◌+◌, Bool, true, false, not, List, [], ◌∷◌, replicate, get_or, set, Bytes, ◌==◌,
  leb, if◌then◌else◌,
}
use gra_project.Sys.{
  Call, accept, epoll_create, epoll_wait, read, write, Event, eagain, epollin, Reply, Outcome, ok,
  error, result, peer, stored, delivered, exited, M, ◌>>=◌, ◌>>◌, pure, stop, get, modify, syscall,
  run_call, ok_or_exit, ok_or_abort,
}
use gra_project.Sys.Loop.{loop, forever, for_each, for_range}
use gra_project.Net.{
  set_nonblock, set_tcp_no_delay, get_listen_fd, socket_connect, epoll_ctl_add, close_connect,
}

abbrev pub outer_port : ℕ
outer_port = 9527

abbrev pub inner_port : ℕ
inner_port = 9528

abbrev pub mon_port : ℕ
mon_port = 9529

abbrev pub max_event : ℕ
max_event = 65535

abbrev pub servers_num : ℕ
servers_num = 4

-- BUFSIZ of the C library
abbrev pub bufsiz : ℕ
bufsiz = 8192

abbrev pub default_event : ℕ
default_event = epollin

abbrev pub correct_res : Bytes
correct_res = b'a' ∷ replicate 15 0

abbrev pub err_res : Bytes
err_res = b'b' ∷ replicate 15 0

pub record Vars : Type 0 where
  pub servers_inner : List (ℕ × ℕ)  -- data fd, monitor fd
  pub cur_selected_server_index : ℕ

abbrev pub initial : Vars
initial = record { servers_inner = replicate servers_num (0, 0); cur_selected_server_index = 0 }

-- The turn of the loop in `main` that admits an inner server.
unfoldable pub admit_server : ℕ → ℕ → M Vars (Unit {0})
admit_server listen_fd i = do
  r ← syscall (accept listen_fd)
  fd ← ok_or_exit (result r)
  mon_fd ← socket_connect mon_port (peer r)
  set_tcp_no_delay mon_fd true
  set_tcp_no_delay fd true
  modify (λ s. record s { servers_inner = set s.servers_inner i (fd, mon_fd) })

unfoldable pub accept_one : ℕ → ℕ → M Vars Bool
accept_one epoll_fd listen_fd = do
  r ← syscall (accept listen_fd)
  elim (result r) [
    | error e ↦ if e == eagain then pure false else stop (exited 1)
    | ok fd ↦ do
      set_nonblock fd
      set_tcp_no_delay fd true
      epoll_ctl_add epoll_fd fd default_event
      pure true
  ]

-- `if (++CurSelectedServerIndex >= SERVERS_NUM) CurSelectedServerIndex = 0`
unfoldable pub next_index : ℕ → ℕ
next_index i = if leb servers_num (i + 1) then 0 else i + 1

unfoldable pub advance : Vars → Vars
unfolding next_index
advance s = record s { cur_selected_server_index = next_index s.cur_selected_server_index }

abbrev pub server_at : List (ℕ × ℕ) → ℕ → ℕ × ℕ
server_at servers i = get_or servers i (0, 0)

-- The server at the index, and the index moved on, under the lock.
unfoldable pub select_server : M Vars ℕ
unfolding advance
select_server = do
  s ← get
  modify advance
  pure (server_at s.servers_inner s.cur_selected_server_index).0

-- The answer to the client: whether the server took all `readn` bytes.
unfoldable pub answer_client : ℕ → ℕ → Outcome → M Vars (Unit {0})
answer_client fd readn (ok n) =
    if n == readn then run_call (write fd correct_res) else run_call (write fd err_res)
answer_client fd readn (error e) = run_call (write fd err_res)

unfoldable pub forward : ℕ → ℕ → Bytes → M Vars (Unit {0})
forward fd readn buf = do
  server_fd ← select_server
  w ← syscall (write server_fd buf)
  answer_client fd readn (result w)

-- What follows the read from a client; a read that would block is passed over.
unfoldable pub after_read : ℕ → ℕ → Bytes → Outcome → M Vars (Unit {0})
after_read epoll_fd fd buf (error e) = if e == eagain then pure tt else close_connect epoll_fd fd
after_read epoll_fd fd buf (ok n) = if n == 0 then close_connect epoll_fd fd else forward fd n buf

unfoldable pub on_client : ℕ → ℕ → M Vars (Unit {0})
on_client epoll_fd fd = do
  r ← syscall (read fd bufsiz)
  after_read epoll_fd fd (stored r) (result r)

unfoldable pub on_event : ℕ → ℕ → Event → M Vars (Unit {0})
on_event epoll_fd listen_fd event =
    if event.fd == listen_fd
    then loop (accept_one epoll_fd listen_fd)
    else if not (bit_and event.events epollin == 0)
    then on_client epoll_fd event.fd
    else pure tt

unfoldable pub serve_turn : ℕ → ℕ → M Vars (Unit {0})
serve_turn epoll_fd listen_fd = do
  r ← syscall (epoll_wait epoll_fd max_event)
  for_each (delivered r) (on_event epoll_fd listen_fd)

unfoldable pub thread_func : M Vars (Unit {0})
thread_func = do
  listen_fd ← get_listen_fd outer_port 512
  set_nonblock listen_fd
  r ← syscall (epoll_create 1024)
  epoll_fd ← ok_or_abort (result r)
  epoll_ctl_add epoll_fd listen_fd default_event
  forever (serve_turn epoll_fd listen_fd)

-- `main` up to the start of the thread.
unfoldable pub admit_servers : M Vars (Unit {0})
admit_servers = do
  listen_fd ← get_listen_fd inner_port servers_num
  for_range servers_num 0 (admit_server listen_fd)
