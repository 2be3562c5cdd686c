-- ===== src/Reuseport/Termination.antt =====
-- reuseport_test/server_reuseport.cc: rules for the termination of the workers and of `main`.
use Prim.Native.Nat.{bit_and}
use gra_project.Base.{
  ℕ, zero, suc, ◌≡◌, Option, none, some, List, [], ◌∷◌, arith, Bytes, true, not, ◌==◌,
}
use gra_project.Sys.{
  Call, Event, epollin, eagain, Outcome, ok, error, result, stored, delivered, unfinished, World,
  halts, M, syscall, ◌>>=◌, pure,
}
use gra_project.Sys.Consumes.{
  Takes-finishes, Takes, Takes-first, Takes-seq_first, Takes-pure, Takes-stop, Takes-exit,
  Takes-get, Takes-modify, Takes-syscall, Takes-weaken, Takes-loop, Takes-if, Takes-for_each,
  Takes-ok_or_exit, Takes-ok_or_abort,
}
use gra_project.Net.Rules.{
  Takes-call, Takes-zero_or_exit, Takes-set_nonblock, Takes-set_tcp_no_delay, Takes-set_reuse_addr,
  Takes-epoll_ctl_add,
}
use gra_project.Net.{set_reuse_port}
use gra_project.Reuseport.{
  Conn, Vars, default_event, found_or_undefined, load, delete, log_request, close_client,
  after_read, on_client, allocate, add_client, accept_client, on_event, serve_turn, open_listener,
  do_work, wait_one, after_fork, fork_workers, as_count, main,
}
use gra_project.Reuseport.Objects.{Allocator}

abbrev Ends : {A : Type 0} → M Vars A → Type 0
Ends m = Takes 0 m

Ends-run_call : (c : Call) → Ends (syscall c >>= (λ r. pure tt))
Ends-run_call c = Takes-first (Takes-call c) (λ r. Takes-pure tt)

Ends-close_client : (epoll_fd ptr fd : ℕ) → Ends (close_client epoll_fd ptr fd)
unfolding close_client
Ends-close_client epoll_fd ptr fd = Takes-first (Takes-call _) λ r.
    Takes-seq_first (Takes-zero_or_exit (result r))
      (Takes-seq_first (Takes-modify (delete ptr)) (Ends-run_call _))

Ends-after_read :
    (epoll_fd ptr fd : ℕ) (buf : Bytes) (r : Outcome) → Ends (after_read epoll_fd ptr fd buf r)
unfolding after_read
Ends-after_read epoll_fd ptr fd buf (error e) =
    Takes-if (e == eagain) (Takes-pure tt) (Ends-close_client epoll_fd ptr fd)
Ends-after_read epoll_fd ptr fd buf (ok n) =
    Takes-if (n == 0) (Ends-close_client epoll_fd ptr fd) (Takes-modify (log_request buf))

Ends-on_client : (epoll_fd ptr fd : ℕ) → Ends (on_client epoll_fd ptr fd)
unfolding on_client
Ends-on_client epoll_fd ptr fd =
    Takes-first (Takes-call _) λ r. Ends-after_read epoll_fd ptr fd (stored r) (result r)

Ends-found : (conn : Option Conn) → Ends (found_or_undefined conn)
unfolding found_or_undefined
Ends-found none = Takes-stop 0 _ (λ e. cc)
Ends-found (some conn) = Takes-pure conn

Ends-load : (ptr : ℕ) → Ends (load ptr)
unfolding load
Ends-load ptr = Takes-first Takes-get λ s. Ends-found _

Ends-set_reuse_port : (fd : ℕ) → Ends (set_reuse_port fd true)
unfolding set_reuse_port
Ends-set_reuse_port fd =
    Takes-first (Takes-call _) λ r. Takes-first (Takes-ok_or_exit (result r)) λ n. Takes-pure tt

Ends-open_listener : Ends open_listener
unfolding open_listener
Ends-open_listener = Takes-first (Takes-call _) λ s.
    Takes-first (Takes-ok_or_abort (result s)) λ listen_fd.
      Takes-seq_first (Takes-set_reuse_addr listen_fd true) (
        Takes-seq_first (Ends-set_reuse_port listen_fd) (
          Takes-first (Takes-call _) λ b. Takes-first (Takes-ok_or_abort (result b)) λ bound.
            Takes-first (Takes-call _) λ l.
              Takes-first (Takes-ok_or_abort (result l))
                λ listening. Takes-seq_first (Takes-set_nonblock listen_fd) (Takes-pure listen_fd)))

Ends-as_count : (n : Option ℕ) → Ends (as_count n)
Ends-as_count none = Takes-stop 0 _ (λ e. cc)
Ends-as_count (some n) = Takes-pure _

Takes-wait_one : Takes 1 wait_one
unfolding wait_one
Takes-wait_one = Takes-first (Takes-syscall _) λ r. Takes-pure _

module _ (allocator : Allocator) where
  Ends-add_client : (epoll_fd : ℕ) (r : Outcome) → Ends (add_client allocator epoll_fd r)
  unfolding add_client
  Ends-add_client epoll_fd (error e) = Takes-pure tt
  Ends-add_client epoll_fd (ok fd) = Takes-seq_first (Takes-modify (allocate allocator fd)) (
      Takes-seq_first (Takes-set_nonblock fd) (
        Takes-seq_first (Takes-set_tcp_no_delay fd _)
          (Takes-epoll_ctl_add epoll_fd fd default_event)))

  Ends-accept_client : (epoll_fd listen_fd : ℕ) → Ends (accept_client allocator epoll_fd listen_fd)
  unfolding accept_client
  Ends-accept_client epoll_fd listen_fd =
      Takes-first (Takes-call _) λ r. Ends-add_client epoll_fd (result r)

  Ends-on_event :
      (epoll_fd listen_fd : ℕ) (event : Event) → Ends (on_event allocator epoll_fd listen_fd event)
  unfolding on_event
  Ends-on_event epoll_fd listen_fd event = Takes-first (Ends-load event.fd) λ conn.
      Takes-if (conn.conn_fd == listen_fd) (Ends-accept_client epoll_fd listen_fd) (
        Takes-if (not (bit_and event.events epollin == 0))
          (Ends-on_client epoll_fd event.fd conn.conn_fd) (Takes-pure tt))

  Takes-serve_turn : (epoll_fd listen_fd : ℕ) → Takes 1 (serve_turn allocator epoll_fd listen_fd)
  unfolding serve_turn
  Takes-serve_turn epoll_fd listen_fd =
      Takes-first (Takes-syscall _)
        λ r. Takes-for_each (delivered r) _ (Ends-on_event epoll_fd listen_fd)

  Ends-do_work : (fork_index : ℕ) → Ends (do_work allocator fork_index)
  unfolding do_work
  Ends-do_work fork_index = Takes-first (Takes-call _) λ o.
      Takes-first (Takes-ok_or_abort (result o)) λ out. Takes-first Ends-open_listener λ listen_fd.
        Takes-first (Takes-call _) λ r. Takes-first (Takes-ok_or_abort (result r)) λ epoll_fd.
          Takes-seq_first (Takes-modify (allocate allocator listen_fd)) (
            Takes-seq_first (Takes-epoll_ctl_add epoll_fd listen_fd default_event) (
              Takes-weaken
                (Takes-loop
                  (Takes-seq_first (Takes-serve_turn epoll_fd listen_fd) (Takes-pure true)))
                (omega arith)))

  Ends-after_fork : (i : ℕ) (r : Outcome) → Ends (after_fork allocator i r)
  unfolding after_fork
  Ends-after_fork i (error e) = Takes-exit 0 1
  Ends-after_fork i (ok zero) = Ends-do_work i
  Ends-after_fork i (ok (suc pid)) = Takes-pure tt

  Ends-fork_workers : (n i : ℕ) → Ends (fork_workers allocator n i)
  unfolding fork_workers
  Ends-fork_workers zero i = Takes-pure tt
  Ends-fork_workers (suc n) i =
      Takes-first (Takes-call _)
        λ r. Takes-seq_first (Ends-after_fork i (result r)) (Ends-fork_workers n (suc i))

  Ends-main : (args : List Bytes) → Ends (main allocator args)
  unfolding main
  Ends-main [] = Takes-exit 0 1
  Ends-main (arg ∷ args) = Takes-first (Ends-as_count _) λ fork_n.
      Takes-seq_first (Ends-fork_workers fork_n 0)
        (Takes-weaken (Takes-loop Takes-wait_one) (omega arith))

  -- Whatever the arguments and the replies, no run of the program, of the parent or of a worker, ends
  -- for want of fuel: the fuel of the event loop and of the wait for the workers is enough.
  pub main_finishes :
      (args : List Bytes) (w v : World Vars) → ¬ (main allocator args w ≡ halts unfinished v)
  main_finishes args w v = Takes-finishes (Ends-main args) w v
