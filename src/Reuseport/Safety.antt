-- ===== src/Reuseport/Safety.antt =====
-- reuseport_test/server_reuseport.cc: the objects that events point to.
use Prim.Native.Nat.{bit_and}
use gra_project.Base.{
  ℕ, ◌≡◌, sym, ap, subst, ◌≢◌, ◌≤◌, not, some, List, [], ◌∷◌, map, All, Bytes, length, take-length,
  ◌==◌, if◌then◌else◌,
}
use gra_project.Sys.{
  Event, epollin, eagain, Reply, ready, Outcome, ok, error, result, stored, Halt, undefined,
  epoll_wait, World, Run, returns, halts, M, and_then, pure, syscall,
}
use gra_project.Sys.Loop.{for_each}
use gra_project.Sys.Hoare.{Post, Hoare, Hoare-seq, Hoare-pure}
use gra_project.Sys.Steady.{
  On, Covers, Steady, Steady-bind, Steady-seq, Steady-pure, Steady-modify, Steady-if,
  Steady-syscall, Steady-run_call, Steady-zero_or_exit, Steady-set_nonblock,
  Steady-set_tcp_no_delay, Steady-epoll_ctl_add,
}
use gra_project.Reuseport.{
  Conn, conn_of, Vars, max_event, default_event, found_or_undefined, load, delete, log_request,
  close_client, after_read, on_client, allocate, add_client, accept_client, on_event, serve_turn,
}
use gra_project.Reuseport.Objects.{Allocator, lookup, IsLive, IsLive-remove, IsLive-insert}

-- Every one of the addresses has an object.
abbrev pub Live : List ℕ → Vars → Type 0
Live ptrs s = All (IsLive s.heap) ptrs

abbrev Fine : Halt → Vars → Type 0
Fine h s = h ≢ undefined

fine : (P : Vars → Type 0) → Covers P Fine
fine P h s n p = n

abbrev Keep : {A : Type 0} → List ℕ → M Vars A → Type 0
Keep ptrs m = Steady (Live ptrs) Fine m

Live-log_request :
    (ptrs : List ℕ) (buf : Bytes) (s : Vars) → Live ptrs s → Live ptrs (log_request buf s)
unfolding log_request
Live-log_request ptrs buf s h = h

All-IsLive-remove :
    (ptrs : List ℕ) (ptr : ℕ) (s : Vars)
    → All (λ q. ptr ≢ q) ptrs
    → Live ptrs s
    → Live ptrs (delete ptr s)
unfolding delete
All-IsLive-remove [] ptr s n h = tt
All-IsLive-remove (q ∷ ptrs) ptr s n h =
    (IsLive-remove s.heap ptr q n.0 h.0, All-IsLive-remove ptrs ptr s n.1 h.1)

Keep-close_client :
    (ptrs : List ℕ) (epoll_fd ptr fd : ℕ)
    → All (λ q. ptr ≢ q) ptrs
    → Keep ptrs (close_client epoll_fd ptr fd)
unfolding close_client
Keep-close_client ptrs epoll_fd ptr fd n = Steady-bind (Steady-syscall (fine _) _) λ r.
    Steady-seq (Steady-zero_or_exit (fine _) (result r)) (
      Steady-seq (Steady-modify (delete ptr) (λ s. All-IsLive-remove ptrs ptr s n))
        (Steady-run_call (fine _) _))

Keep-after_read :
    (ptrs : List ℕ) (epoll_fd ptr fd : ℕ) (buf : Bytes) (r : Outcome)
    → All (λ q. ptr ≢ q) ptrs
    → Keep ptrs (after_read epoll_fd ptr fd buf r)
unfolding after_read
Keep-after_read ptrs epoll_fd ptr fd buf (error e) n =
    Steady-if (e == eagain) (Steady-pure tt) (Keep-close_client ptrs epoll_fd ptr fd n)
Keep-after_read ptrs epoll_fd ptr fd buf (ok k) n =
    Steady-if (k == 0) (Keep-close_client ptrs epoll_fd ptr fd n)
      (Steady-modify (log_request buf) (Live-log_request ptrs buf))

Keep-on_client :
    (ptrs : List ℕ) (epoll_fd ptr fd : ℕ)
    → All (λ q. ptr ≢ q) ptrs
    → Keep ptrs (on_client epoll_fd ptr fd)
unfolding on_client
Keep-on_client ptrs epoll_fd ptr fd n =
    Steady-bind (Steady-syscall (fine _) _)
      λ r. Keep-after_read ptrs epoll_fd ptr fd (stored r) (result r) n

load_lem :
    (ptr : ℕ) (conn : Conn) (w : World Vars)
    → lookup w.vars.heap ptr ≡ some conn
    → load ptr w ≡ returns conn w
unfolding load found_or_undefined
load_lem ptr conn w e = simp e

module _ (allocator : Allocator) where
  Live-allocate :
      (ptrs : List ℕ) (fd : ℕ) (s : Vars) → Live ptrs s → Live ptrs (allocate allocator fd s)
  unfolding allocate
  Live-allocate [] fd s h = tt
  Live-allocate (q ∷ ptrs) fd s h = (
    IsLive-insert s.heap (allocator.fresh s.heap) (conn_of fd) q (allocator.free s.heap) h.0,
    Live-allocate ptrs fd s h.1,
  )

  Keep-add_client :
      (ptrs : List ℕ) (epoll_fd : ℕ) (r : Outcome) → Keep ptrs (add_client allocator epoll_fd r)
  unfolding add_client
  Keep-add_client ptrs epoll_fd (error e) = Steady-pure tt
  Keep-add_client ptrs epoll_fd (ok fd) =
      Steady-seq (Steady-modify (allocate allocator fd) (Live-allocate ptrs fd)) (
        Steady-seq (Steady-set_nonblock (fine _) fd) (
          Steady-seq (Steady-set_tcp_no_delay (fine _) fd _)
            (Steady-epoll_ctl_add (fine _) epoll_fd fd default_event)))

  Keep-accept_client :
      (ptrs : List ℕ) (epoll_fd listen_fd : ℕ)
      → Keep ptrs (accept_client allocator epoll_fd listen_fd)
  unfolding accept_client
  Keep-accept_client ptrs epoll_fd listen_fd =
      Steady-bind (Steady-syscall (fine _) _) λ r. Keep-add_client ptrs epoll_fd (result r)

  -- What follows the load.
  abbrev after_load : ℕ → ℕ → Event → Conn → M Vars (Unit {0})
  after_load epoll_fd listen_fd event conn =
      if conn.conn_fd == listen_fd
      then accept_client allocator epoll_fd listen_fd
      else if not (bit_and event.events epollin == 0)
      then on_client epoll_fd event.fd conn.conn_fd
      else pure tt

  Keep-after_load :
      (ptrs : List ℕ) (epoll_fd listen_fd : ℕ) (event : Event) (conn : Conn)
      → All (λ q. event.fd ≢ q) ptrs
      → Keep ptrs (after_load epoll_fd listen_fd event conn)
  Keep-after_load ptrs epoll_fd listen_fd event conn n =
      Steady-if (conn.conn_fd == listen_fd) (Keep-accept_client ptrs epoll_fd listen_fd) (
        Steady-if (not (bit_and event.events epollin == 0))
          (Keep-on_client ptrs epoll_fd event.fd conn.conn_fd n) (Steady-pure tt))

  -- An event uses its object, and leaves those of the other events alone.
  on_event_lem :
      (ptrs : List ℕ) (epoll_fd listen_fd : ℕ) (event : Event)
      → All (λ q. event.fd ≢ q) ptrs
      → Hoare
          (On (Live (event.fd ∷ ptrs)))
          (on_event allocator epoll_fd listen_fd event)
          (λ _. On (Live ptrs))
          (λ h w. h ≢ undefined)
  unfolding on_event
  on_event_lem ptrs epoll_fd listen_fd event n = record {
    at = λ w p.
        subst (Post (λ _. On (Live ptrs)) (λ h v. h ≢ undefined))
          (sym (
            ap (λ r. and_then r (after_load epoll_fd listen_fd event))
              (load_lem event.fd p.0.0 w p.0.1)))
          ((Keep-after_load ptrs epoll_fd listen_fd event p.0.0 n).hoare.at w p.1);
  }

  abbrev pub pointers : List Event → List ℕ
  pointers = map (λ (e : Event). e.fd)

  -- No pointer comes twice.
  abbrev pub AreDistinct : List ℕ → Type 0
  AreDistinct [] = Unit
  AreDistinct (p ∷ ptrs) = All (λ q. p ≢ q) ptrs × AreDistinct ptrs

  events_lem :
      (events : List Event) (epoll_fd listen_fd : ℕ)
      → AreDistinct (pointers events)
      → Hoare
          (On (Live (pointers events)))
          (for_each events (on_event allocator epoll_fd listen_fd))
          (λ _. On (Live []))
          (λ h w. h ≢ undefined)
  unfolding for_each
  events_lem [] epoll_fd listen_fd d = Hoare-pure tt (λ w p. tt)
  events_lem (e ∷ events) epoll_fd listen_fd d =
      Hoare-seq (on_event_lem (pointers events) epoll_fd listen_fd e d.0)
        (events_lem events epoll_fd listen_fd d.1)

  Post-undefined :
      (r : Run Vars (Unit {0})) (v : World Vars)
      → Post (λ _. On (Live [])) (λ h w. h ≢ undefined) r
      → ¬ (r ≡ halts undefined v)
  Post-undefined (returns a w) v p e = cc
  Post-undefined (halts h w) v p e = p cc

  -- When `epoll_wait` delivers at most one event for each registered pointer, whose objects are
  -- there, no event of the turn reads an object that is not there, whatever the other calls reply: a
  -- connection that an event closes is no other event's.
  pub serve_turn_safe :
      (epoll_fd listen_fd : ℕ) (events : List Event) (rest : List Reply) (w v : World Vars)
      → length events ≤ max_event
      → AreDistinct (pointers events)
      → Live (pointers events) w.vars
      → w.script ≡ ready events ∷ rest
      → ¬ (serve_turn allocator epoll_fd listen_fd w ≡ halts undefined v)
  unfolding serve_turn syscall
  serve_turn_safe epoll_fd listen_fd events rest w v fits d live e h =
      let u : World Vars = record w {
        script = rest;
        trace = (epoll_wait epoll_fd max_event, ready events) ∷ w.trace;
      } in
      Post-undefined (for_each events (on_event allocator epoll_fd listen_fd) u) v
        ((events_lem events epoll_fd listen_fd d).at u live)
        (simp (e, take-length events 65535 fits) at h)
