-- ===== src/Algorithm/Serve/Termination.antt =====
-- servers/algorithm_distributor.cc: rules for the loops of `threadFunc`.
use gra_project.Base.{ℕ, true, false, not, Bytes, arith, ◌==◌, contains}
use gra_project.Sys.{Call, Event, eagain, result, stored, delivered, World, ◌>>◌, pure, run_call}
use gra_project.Sys.Consumes.{
  Takes-if, Takes-Outcome, Takes, Takes-first, Takes-seq_first, Takes-weaken, Takes-loop,
  Takes-for_each, Takes-pure, Takes-exit, Takes-get, Takes-modify, Takes-ok_or_abort, Takes-syscall,
}
use gra_project.Sys.Endless.{Halts, Endless, Endless-bind, Endless-seq, Endless-forever}
use gra_project.Net.{set_nonblock, set_tcp_no_delay, epoll_ctl_add}
use gra_project.Net.Rules.{
  net_takes, Takes-call, Takes-set_nonblock, Takes-epoll_ctl_add, Takes-close_connect,
  Takes-get_listen_fd,
}
use gra_project.Numbers.{Numbers}
use gra_project.Wire.{mess_len, normal_len, int_at}
use gra_project.Algorithm.{Vars, outer_port, default_event}
use gra_project.Algorithm.Choose.{get_cur_selected_server_fd}
use gra_project.Algorithm.Serve.{
  has_input, accept_one, forward, on_client, store_reply, answer_client, on_server, on_event,
  serve_turn, thread_func,
}

module _ {N : Numbers} where
  Takes-added :
      (epoll_fd fd : ℕ)
      → Takes {S = Vars N} 0 (do
        set_nonblock fd
        set_tcp_no_delay fd true
        epoll_ctl_add epoll_fd fd default_event
        pure true)
  Takes-added epoll_fd fd = search net_takes

  Takes-accept_one : (epoll_fd listen_fd : ℕ) → Takes 1 (accept_one {N = N} epoll_fd listen_fd)
  unfolding accept_one
  Takes-accept_one epoll_fd listen_fd = Takes-first (Takes-syscall _) λ r.
      Takes-Outcome (result r) (Takes-added epoll_fd)
        (λ e. Takes-if (e == eagain) (Takes-pure false) (Takes-exit 0 1))

  Takes-get_cur_selected_server_fd : Takes {S = Vars N} 0 get_cur_selected_server_fd
  unfolding get_cur_selected_server_fd
  Takes-get_cur_selected_server_fd = search net_takes

  Takes-run_call : (c : Call) → Takes {S = Vars N} 0 (run_call c)
  Takes-run_call c = search net_takes

  Takes-forward : (fd : ℕ) (buf : Bytes) → Takes 0 (forward {N = N} fd buf)
  unfolding forward
  Takes-forward fd buf = Takes-seq_first (Takes-modify _) (
      Takes-first Takes-get_cur_selected_server_fd λ server_fd. Takes-first Takes-get λ s.
        Takes-first (Takes-call _) λ r.
          Takes-Outcome (result r)
            (λ n. Takes-if (n == mess_len) (Takes-pure tt) (Takes-run_call _))
            (λ e. Takes-run_call _))

  Takes-on_client : (epoll_fd fd : ℕ) → Takes 0 (on_client {N = N} epoll_fd fd)
  unfolding on_client
  Takes-on_client epoll_fd fd = Takes-first (Takes-call _) λ r.
      Takes-Outcome (result r)
        (λ n.
          Takes-if (n == 0) (Takes-close_connect epoll_fd fd)
            (Takes-if (n == normal_len) (Takes-forward fd (stored r)) (Takes-run_call _)))
        (λ e. Takes-if (e == eagain) (Takes-run_call _) (Takes-close_connect epoll_fd fd))

  Takes-answer_client : (client_fd n : ℕ) → Takes 0 (answer_client {N = N} client_fd n)
  unfolding answer_client
  Takes-answer_client client_fd n = search net_takes

  Takes-store_reply : (bytes : Bytes) → Takes 0 (store_reply {N = N} bytes)
  unfolding store_reply
  Takes-store_reply bytes = search net_takes

  Takes-on_server : (fd : ℕ) → Takes 0 (on_server {N = N} fd)
  unfolding on_server
  Takes-on_server fd = Takes-first (Takes-call _) λ r.
      Takes-seq_first (Takes-store_reply (stored r)) (
        Takes-first Takes-get λ s.
          Takes-Outcome (result r)
            (λ n. Takes-if (n == 0) (Takes-exit 0 1) (Takes-answer_client (int_at s.mess) n))
            (λ e. Takes-exit 0 1))

  Takes-on_event :
      (epoll_fd listen_fd : ℕ) (event : Event) → Takes 0 (on_event {N = N} epoll_fd listen_fd event)
  unfolding on_event
  Takes-on_event epoll_fd listen_fd event =
      Takes-if (event.fd == listen_fd)
        (Takes-weaken (Takes-loop (Takes-accept_one epoll_fd listen_fd)) (omega arith))
        (Takes-if (has_input event)
          (Takes-first Takes-get λ s.
            Takes-if (not (contains s.server_fd_set event.fd)) (Takes-on_client epoll_fd event.fd)
              (Takes-on_server event.fd))
          (Takes-pure tt))

  pub Takes-serve_turn : (epoll_fd listen_fd : ℕ) → Takes 1 (serve_turn {N = N} epoll_fd listen_fd)
  unfolding serve_turn
  Takes-serve_turn epoll_fd listen_fd =
      Takes-first (Takes-syscall _)
        λ r. Takes-for_each (delivered r) _ (Takes-on_event epoll_fd listen_fd)

  thread_func-Endless : Endless (thread_func {N = N})
  unfolding thread_func
  thread_func-Endless = Endless-seq (Takes-modify _) (
      Endless-bind (Takes-get_listen_fd outer_port 512) λ listen_fd.
        Endless-seq (Takes-set_nonblock listen_fd) (
          Endless-bind (Takes-call _) λ r. Endless-bind (Takes-ok_or_abort (result r)) λ epoll_fd.
            Endless-seq (Takes-epoll_ctl_add epoll_fd listen_fd default_event)
              (Endless-forever (Takes-serve_turn epoll_fd listen_fd))))

  pub thread_func-Halts : (w : World (Vars N)) → Halts (thread_func w)
  thread_func-Halts w = thread_func-Endless.at w
