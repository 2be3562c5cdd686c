-- ===== src/Reuseport/Log.antt =====
-- reuseport_test/server_reuseport.cc: the counter and the lines of a worker.
use Prim.Native.Nat.{bit_and}
use gra_project.Base.{
  ℕ, suc, ◌+◌, ◌%◌, ◌^◌, ◌≡◌, Option, none, some, List, [], ◌∷◌, ◌++◌, arith, Bytes, length,
  length-append, ◌==◌, not, true,
}
use gra_project.Sys.{
  Event, epollin, eagain, Reply, Outcome, ok, error, result, stored, delivered, Halt, Run, returns,
  halts, final, M,
}
use gra_project.Sys.Hoare.{Post}
use gra_project.Sys.Steady.{
  On, Covers, Steady, Steady-bind, Steady-seq, Steady-pure, Steady-get, Steady-modify, Steady-if,
  Steady-syscall, Steady-run_call, Steady-zero_or_exit, Steady-set_nonblock,
  Steady-set_tcp_no_delay, Steady-epoll_ctl_add, Steady-ok_or_abort, Steady-set_reuse_addr,
  Steady-set_reuse_port, Steady-loop, Steady-for_each,
}
use gra_project.Reuseport.{
  Conn, Vars, initial, default_event, found_or_undefined, load, delete, log_request, close_client,
  after_read, on_client, allocate, add_client, accept_client, on_event, serve_turn, open_listener,
  do_work,
}
use gra_project.Reuseport.Objects.{Allocator}

-- The lines are numbered in their order, from `k + 1` on, as a `uint64_t` counts.
abbrev pub AreNumbered : ℕ → List (ℕ × Bytes) → Type 0
AreNumbered k [] = Unit
AreNumbered k ((n, bytes) ∷ lines) = (n ≡ suc k % 2 ^ 64) × AreNumbered (suc k) lines

-- The lines are numbered from 1 on, and the counter is the number of lines.
abbrev pub IsCounted : Vars → Type 0
IsCounted s = AreNumbered 0 s.out × (s.counter ≡ length s.out % 2 ^ 64)

AreNumbered-append :
    (lines : List (ℕ × Bytes)) (k n : ℕ) (bytes : Bytes)
    → AreNumbered k lines
    → n ≡ suc (k + length lines) % 2 ^ 64
    → AreNumbered k (lines ++ ((n, bytes) ∷ []))
AreNumbered-append [] k n bytes h e = (omega arith, tt)
AreNumbered-append ((m, b) ∷ lines) k n bytes h e =
    (h.0, AreNumbered-append lines (suc k) n bytes h.1 (omega arith))

IsCounted-log_request : (buf : Bytes) (s : Vars) → IsCounted s → IsCounted (log_request buf s)
unfolding log_request
IsCounted-log_request buf s h = (
  AreNumbered-append s.out 0 ((s.counter + 1) % 2 ^ 64) buf h.0 (omega (arith, h.1)),
  omega (arith, h.1, length-append s.out (((s.counter + 1) % 2 ^ 64, buf) ∷ [])),
)

abbrev Counted : Halt → Vars → Type 0
Counted h s = IsCounted s

counted : Covers IsCounted Counted
counted h s n p = p

abbrev Keep : {A : Type 0} → M Vars A → Type 0
Keep m = Steady IsCounted Counted m

Keep-close_client : (epoll_fd ptr fd : ℕ) → Keep (close_client epoll_fd ptr fd)
unfolding close_client delete
Keep-close_client epoll_fd ptr fd = Steady-bind (Steady-syscall counted _) λ r.
    Steady-seq (Steady-zero_or_exit counted (result r))
      (Steady-seq (Steady-modify (delete ptr) (λ s h. h)) (Steady-run_call counted _))

Keep-after_read :
    (epoll_fd ptr fd : ℕ) (buf : Bytes) (r : Outcome) → Keep (after_read epoll_fd ptr fd buf r)
unfolding after_read
Keep-after_read epoll_fd ptr fd buf (error e) =
    Steady-if (e == eagain) (Steady-pure tt) (Keep-close_client epoll_fd ptr fd)
Keep-after_read epoll_fd ptr fd buf (ok n) =
    Steady-if (n == 0) (Keep-close_client epoll_fd ptr fd)
      (Steady-modify (log_request buf) (IsCounted-log_request buf))

Keep-on_client : (epoll_fd ptr fd : ℕ) → Keep (on_client epoll_fd ptr fd)
unfolding on_client
Keep-on_client epoll_fd ptr fd =
    Steady-bind (Steady-syscall counted _)
      λ r. Keep-after_read epoll_fd ptr fd (stored r) (result r)

Keep-found : (conn : Option Conn) → Keep (found_or_undefined conn)
unfolding found_or_undefined
Keep-found none = record { hoare = record { at = λ w p. p } }
Keep-found (some conn) = Steady-pure conn

Keep-load : (ptr : ℕ) → Keep (load ptr)
unfolding load
Keep-load ptr = Steady-bind Steady-get λ s. Keep-found _

Keep-open_listener : Keep open_listener
unfolding open_listener
Keep-open_listener = Steady-bind (Steady-syscall counted _) λ s.
    Steady-bind (Steady-ok_or_abort counted (result s)) λ listen_fd.
      Steady-seq (Steady-set_reuse_addr counted listen_fd true) (
        Steady-seq (Steady-set_reuse_port counted listen_fd true) (
          Steady-bind (Steady-syscall counted _) λ b.
            Steady-bind (Steady-ok_or_abort counted (result b)) λ bound.
              Steady-bind (Steady-syscall counted _) λ l.
                Steady-bind (Steady-ok_or_abort counted (result l)) λ listening.
                  Steady-seq (Steady-set_nonblock counted listen_fd) (Steady-pure listen_fd)))

module _ (allocator : Allocator) where
  Keep-allocate : (fd : ℕ) (s : Vars) → IsCounted s → IsCounted (allocate allocator fd s)
  unfolding allocate
  Keep-allocate fd s h = h

  Keep-add_client : (epoll_fd : ℕ) (r : Outcome) → Keep (add_client allocator epoll_fd r)
  unfolding add_client
  Keep-add_client epoll_fd (error e) = Steady-pure tt
  Keep-add_client epoll_fd (ok fd) =
      Steady-seq (Steady-modify (allocate allocator fd) (Keep-allocate fd)) (
        Steady-seq (Steady-set_nonblock counted fd) (
          Steady-seq (Steady-set_tcp_no_delay counted fd _)
            (Steady-epoll_ctl_add counted epoll_fd fd default_event)))

  Keep-accept_client : (epoll_fd listen_fd : ℕ) → Keep (accept_client allocator epoll_fd listen_fd)
  unfolding accept_client
  Keep-accept_client epoll_fd listen_fd =
      Steady-bind (Steady-syscall counted _) λ r. Keep-add_client epoll_fd (result r)

  Keep-on_event :
      (epoll_fd listen_fd : ℕ) (event : Event) → Keep (on_event allocator epoll_fd listen_fd event)
  unfolding on_event
  Keep-on_event epoll_fd listen_fd event = Steady-bind (Keep-load event.fd) λ conn.
      Steady-if (conn.conn_fd == listen_fd) (Keep-accept_client epoll_fd listen_fd) (
        Steady-if (not (bit_and event.events epollin == 0))
          (Keep-on_client epoll_fd event.fd conn.conn_fd) (Steady-pure tt))

  Keep-serve_turn : (epoll_fd listen_fd : ℕ) → Keep (serve_turn allocator epoll_fd listen_fd)
  unfolding serve_turn
  Keep-serve_turn epoll_fd listen_fd =
      Steady-bind (Steady-syscall counted _)
        λ r. Steady-for_each counted (delivered r) _ (Keep-on_event epoll_fd listen_fd)

  Keep-do_work : (fork_index : ℕ) → Keep (do_work allocator fork_index)
  unfolding do_work
  Keep-do_work fork_index = Steady-bind (Steady-syscall counted _) λ o.
      Steady-bind (Steady-ok_or_abort counted (result o)) λ out.
        Steady-bind Keep-open_listener λ listen_fd. Steady-bind (Steady-syscall counted _) λ r.
          Steady-bind (Steady-ok_or_abort counted (result r)) λ epoll_fd.
            Steady-seq (Steady-modify (allocate allocator listen_fd) (Keep-allocate listen_fd)) (
              Steady-seq (Steady-epoll_ctl_add counted epoll_fd listen_fd default_event) (
                Steady-loop counted
                  (Steady-seq (Keep-serve_turn epoll_fd listen_fd) (Steady-pure true))))

  Post-final :
      (r : Run Vars (Unit {0}))
      → Post (λ _. On IsCounted) (λ h w. IsCounted w.vars) r
      → IsCounted (final r).vars
  Post-final (returns a w) p = p
  Post-final (halts h w) p = p

  -- Wherever the run of a worker ends, the lines of its file are numbered 1, 2, 3 and so on, modulo
  -- 2 ^ 64, and the counter is the number of lines.
  pub do_work_numbers :
      (fork_index : ℕ) (script : List Reply)
      → let v =
          final (
            do_work allocator fork_index
              (record { vars = initial; script = script; trace = [] })) in
        AreNumbered 0 v.vars.out × (v.vars.counter ≡ length v.vars.out % 2 ^ 64)
  do_work_numbers fork_index script =
      Post-final _ ((Keep-do_work fork_index).hoare.at _ (tt, omega arith))
