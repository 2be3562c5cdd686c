-- ===== src/Algorithm/Serve.antt =====
-- `threadFunc`: the event loop between the clients and the inner servers.
pub mod Honest
pub mod Replies
pub mod Safe
pub mod Silence
pub mod Requests
pub mod Termination
use Prim.Native.Nat.{bit_and}
use gra_project.Base.{
  ℕ, zero, suc, Bool, true, false, not, List, [], ◌∷◌, replicate, Bytes, ◌==◌, if◌then◌else◌,
  contains,
}
use gra_project.Sys.{
  Call, accept, epoll_create, epoll_wait, read, write, Event, eagain, epollin, Reply, Outcome, ok,
  error, result, stored, delivered, exited, M, ◌>>=◌, ◌>>◌, pure, stop, get, modify, assert,
  syscall, run_call, ok_or_abort,
}
use gra_project.Sys.Loop.{loop, forever, for_each}
use gra_project.Net.{set_nonblock, set_tcp_no_delay, get_listen_fd, epoll_ctl_add, close_connect}
use gra_project.Numbers.{Numbers}
use gra_project.Wire.{mess_len, normal_len, message, overwrite, int_at, is_positive}
use gra_project.Algorithm.{Vars, outer_port, max_event, default_event}
use gra_project.Algorithm.Choose.{get_cur_selected_server_fd}

abbrev pub correct_res : Bytes
correct_res = b'a' ∷ replicate 15 0

abbrev pub err_res : Bytes
err_res = b'b' ∷ replicate 15 0

-- `events & epollin`
abbrev pub has_input : Event → Bool
has_input event = not (bit_and event.events epollin == 0)

module _ {N : Numbers} where
  -- The turn of `while(1)` around `accept`; `false` is `break`.
  unfoldable pub accept_one : ℕ → ℕ → M (Vars N) Bool
  accept_one epoll_fd listen_fd = do
    r ← syscall (accept listen_fd)
    elim (result r) [
      | error e ↦ if e == eagain then pure false else stop (exited 1)
      | ok fd ↦ do
        set_nonblock fd
        set_tcp_no_delay fd true
        epoll_ctl_add epoll_fd fd default_event
        pure true
    ]

  -- A whole request: pass it on under the client's descriptor, or answer that this failed.
  unfoldable pub forward : ℕ → Bytes → M (Vars N) (Unit {0})
  forward fd buf = do
    modify (λ s. record s { mess = message fd buf })
    server_fd ← get_cur_selected_server_fd
    s ← get
    w ← syscall (write server_fd s.mess)
    elim (result w) [
      | ok n ↦ if n == mess_len then pure tt else run_call (write fd err_res)
      | error e ↦ run_call (write fd err_res)
    ]

  unfoldable pub on_client : ℕ → ℕ → M (Vars N) (Unit {0})
  on_client epoll_fd fd = do
    r ← syscall (read fd normal_len)
    elim (result r) [
      | error e ↦ if e == eagain then run_call (write fd err_res) else close_connect epoll_fd fd
      | ok n ↦
          if n == 0
          then close_connect epoll_fd fd
          else if n == normal_len
          then forward fd (stored r)
          else run_call (write fd err_res)
    ]

  unfoldable pub store_reply : Bytes → M (Vars N) (Unit {0})
  store_reply bytes = modify (λ s. record s { mess = overwrite bytes s.mess })

  unfoldable pub answer_client : ℕ → ℕ → M (Vars N) (Unit {0})
  answer_client client_fd n = do
    assert (is_positive client_fd)
    run_call (write client_fd (if n == mess_len then correct_res else err_res))

  unfoldable pub on_server : ℕ → M (Vars N) (Unit {0})
  on_server fd = do
    r ← syscall (read fd mess_len)
    store_reply (stored r)
    s ← get
    elim (result r) [
      | error e ↦ stop (exited 1)
      | ok n ↦ if n == 0 then stop (exited 1) else answer_client (int_at s.mess) n
    ]

  unfoldable pub on_event : ℕ → ℕ → Event → M (Vars N) (Unit {0})
  on_event epoll_fd listen_fd event =
      if event.fd == listen_fd
      then loop (accept_one epoll_fd listen_fd)
      else if has_input event
      then (do
        s ← get
        if not (contains s.server_fd_set event.fd)
            then on_client epoll_fd event.fd
            else on_server event.fd)
      else pure tt

  unfoldable pub serve_turn : ℕ → ℕ → M (Vars N) (Unit {0})
  serve_turn epoll_fd listen_fd = do
    r ← syscall (epoll_wait epoll_fd max_event)
    for_each (delivered r) (on_event epoll_fd listen_fd)

  unfoldable pub thread_func : M (Vars N) (Unit {0})
  thread_func = do
    modify (λ s. record s { mess = replicate 20 0 })
    listen_fd ← get_listen_fd outer_port 512
    set_nonblock listen_fd
    r ← syscall (epoll_create 1024)
    epoll_fd ← ok_or_abort (result r)
    epoll_ctl_add epoll_fd listen_fd default_event
    forever (serve_turn epoll_fd listen_fd)
