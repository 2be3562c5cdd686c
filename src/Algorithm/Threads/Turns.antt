-- ===== src/Algorithm/Threads/Turns.antt =====
-- `threadFunc` of servers/algorithm_distributor.cc, by itself, as a row of turns.
use gra_project.Base.{ℕ, refl, Bool, true, not, replicate, Bytes, ◌==◌, if◌then◌else◌, contains}
use gra_project.Sys.{
  exited, Call, result, stored, delivered, Event, World, final, M, stop, modify, syscall, run_call,
}
use gra_project.Sys.Rows.{
  Row, Walks, Calls, walks, Walks-move, Walks-bind, Walks-seq, Walks-pure, Walks-stop, Walks-get,
  Walks-assert, Walks-if, Walks-outcome, Walks-loop, Walks-for_each, Walks-ok_or_abort,
  Walks-syscall, Walks-run_call, Walks-set_nonblock, Walks-set_tcp_no_delay, Walks-epoll_ctl_add,
  Walks-close_connect, Walks-get_listen_fd,
}
use gra_project.Net.{set_nonblock, set_tcp_no_delay, epoll_ctl_add, close_connect}
use gra_project.Numbers.{Numbers}
use gra_project.Wire.{overwrite, int_at}
use gra_project.Algorithm.{Vars, outer_port, default_event}
use gra_project.Algorithm.Choose.{get_cur_selected_server_fd}
use gra_project.Algorithm.Serve.{
  has_input, accept_one, forward, on_client, store_reply, answer_client, on_server, on_event,
  serve_turn, thread_func,
}
use gra_project.Algorithm.Threads.{Serves, call, store, choose}

module _ {N : Numbers} where
  pub Serves-calls : Calls (Serves {N = N})
  Serves-calls c r w v e = call c r e

  abbrev Served : {A : Type 0} → M (Vars N) A → Type 0
  Served = Walks Serves

  Served-store : (f : Vars N → Bytes) → Served (modify (λ s. record s { mess = f s }))
  Served-store f = Walks-move (λ v. store (f v.vars) refl)

  Served-choose : Served get_cur_selected_server_fd
  unfolding get_cur_selected_server_fd
  Served-choose = Walks-move (λ v. choose _ refl)

  Served-syscall : (c : Call) → Served (syscall c)
  Served-syscall c = Walks-syscall Serves-calls c

  Served-run_call : (c : Call) → Served (run_call c)
  Served-run_call c = Walks-run_call Serves-calls c

  Served-close_connect : (epoll_fd fd : ℕ) → Served (close_connect epoll_fd fd)
  Served-close_connect epoll_fd fd = Walks-close_connect Serves-calls epoll_fd fd

  Served-set_nonblock : (fd : ℕ) → Served (set_nonblock fd)
  Served-set_nonblock fd = Walks-set_nonblock Serves-calls fd

  Served-set_tcp_no_delay : (fd : ℕ) (on : Bool) → Served (set_tcp_no_delay fd on)
  Served-set_tcp_no_delay fd on = Walks-set_tcp_no_delay Serves-calls fd on

  Served-epoll_ctl_add : (epoll_fd fd event : ℕ) → Served (epoll_ctl_add epoll_fd fd event)
  Served-epoll_ctl_add epoll_fd fd event = Walks-epoll_ctl_add Serves-calls epoll_fd fd event

  ruleset serving_rules = (
    Walks-bind, Walks-seq, Walks-pure, Walks-stop, Walks-get, Walks-assert, Walks-if,
    Served-syscall, Served-run_call, Served-store, Served-choose, Served-set_nonblock,
    Served-set_tcp_no_delay, Served-epoll_ctl_add, Served-close_connect,
  )

  Served-accept_one : (epoll_fd listen_fd : ℕ) → Served (accept_one epoll_fd listen_fd)
  unfolding accept_one
  Served-accept_one epoll_fd listen_fd =
      Walks-bind (Served-syscall _)
        λ r. Walks-outcome (result r) (λ fd. search serving_rules) (λ e. search serving_rules)

  Served-forward : (fd : ℕ) (buf : Bytes) → Served (forward fd buf)
  unfolding forward
  Served-forward fd buf = Walks-seq (Served-store _) (
      Walks-bind Served-choose λ server_fd. Walks-bind Walks-get λ s.
        Walks-bind (Served-syscall _)
          λ r. Walks-outcome (result r) (λ n. search serving_rules) (λ e. search serving_rules))

  Served-on_client : (epoll_fd fd : ℕ) → Served (on_client epoll_fd fd)
  unfolding on_client
  Served-on_client epoll_fd fd = Walks-bind (Served-syscall _) λ r.
      Walks-outcome (result r) (λ n. search (serving_rules, Served-forward))
        (λ e. search serving_rules)

  Served-answer_client : (fd n : ℕ) → Served (answer_client fd n)
  unfolding answer_client
  Served-answer_client fd n = search serving_rules

  Served-on_server : (fd : ℕ) → Served (on_server fd)
  unfolding on_server store_reply
  Served-on_server fd = Walks-bind (Served-syscall _) λ r.
      Walks-seq (Served-store (λ s. overwrite (stored r) s.mess)) (
        Walks-bind Walks-get λ s.
          Walks-outcome (result r)
            {f = λ n. if n == 0 then stop (exited 1) else answer_client (int_at s.mess) n}
            (λ n. Walks-if (n == 0) (Walks-stop _) (Served-answer_client (int_at s.mess) n))
            (λ e. Walks-stop (exited 1)))

  Served-on_event :
      (epoll_fd listen_fd : ℕ) (event : Event) → Served (on_event epoll_fd listen_fd event)
  unfolding on_event
  Served-on_event epoll_fd listen_fd event =
      Walks-if (event.fd == listen_fd) (Walks-loop (Served-accept_one epoll_fd listen_fd)) (
        Walks-if (has_input event)
          (Walks-bind Walks-get λ s.
            Walks-if (not (contains s.server_fd_set event.fd)) (Served-on_client epoll_fd event.fd)
              (Served-on_server event.fd))
          (Walks-pure tt))

  Served-serve_turn : (epoll_fd listen_fd : ℕ) → Served (serve_turn epoll_fd listen_fd)
  unfolding serve_turn
  Served-serve_turn epoll_fd listen_fd = Walks-bind (Served-syscall _) λ r.
      Walks-for_each (delivered r) (on_event epoll_fd listen_fd)
        (Served-on_event epoll_fd listen_fd)

  Served-thread_func : Served thread_func
  unfolding thread_func
  Served-thread_func = Walks-seq (Served-store (λ s. replicate 20 0)) (
      Walks-bind (Walks-get_listen_fd Serves-calls outer_port 512) λ listen_fd.
        Walks-seq (Served-set_nonblock listen_fd) (
          Walks-bind (Served-syscall _) λ r. Walks-bind (Walks-ok_or_abort (result r)) λ epoll_fd.
            Walks-seq (Served-epoll_ctl_add epoll_fd listen_fd default_event)
              (Walks-loop (Walks-seq (Served-serve_turn epoll_fd listen_fd) (Walks-pure true)))))

  pub thread_func-Row : (w : World (Vars N)) → Row Serves w (final (thread_func w))
  thread_func-Row w = walks Served-thread_func w
