-- ===== src/RoundRobin/Refines.antt =====
-- servers/round_robin_distributor.cc: the array with its index as the queue of the specification.
use Prim.Native.Nat.{bit_and}
use gra_project.Base.{
  ℕ, zero, suc, ◌<◌, ◌≡◌, refl, true, false, not, List, [], ◌∷◌, ◌++◌, map, arith, take, drop,
  length, Bytes, ◌==◌,
}
use gra_project.Sys.{
  Event, eagain, epollin, Outcome, ok, error, result, stored, delivered, World, M, pure, modify,
  ◌>>◌,
}
use gra_project.Sys.Simulates.{
  map_world, map_run, Simulates, Simulates-bind, Simulates-seq, Simulates-pure, Simulates-eq,
  Simulates-stop, Simulates-get, Simulates-modify, Simulates-syscall, Simulates-run_call,
  Simulates-if, Simulates-Outcome, Simulates-loop, Simulates-for_each, Simulates-ok_or_abort,
  Simulates-set_nonblock, Simulates-set_tcp_no_delay, Simulates-epoll_ctl_add,
  Simulates-close_connect, Simulates-get_listen_fd,
}
use gra_project.RoundRobin.{
  Vars, servers_num, outer_port, default_event, next_index, advance, server_at, select_server,
  answer_client, forward, after_read, on_client, accept_one, on_event, serve_turn, thread_func,
}
use gra_project.RoundRobin.Spec.{
  Queue, front, rotate, next_server, answer, pass_on, handle, admit, react, turn, serve,
}

-- The descriptors from the index on, and then those before it.
abbrev pub queue_of : Vars → Queue
queue_of s =
    map (λ (p : ℕ × ℕ). p.0)
      (drop s.cur_selected_server_index s.servers_inner
        ++ take s.cur_selected_server_index s.servers_inner)

pub record IsReady (s : Vars) : Type 0 where
  pub full : length s.servers_inner ≡ servers_num
  pub inside : s.cur_selected_server_index < servers_num

next_index-bound : (i : ℕ) → next_index i < servers_num
unfolding next_index
next_index-bound i = ground arith

advance-IsReady : (s : Vars) → IsReady s → IsReady (advance s)
unfolding advance
advance-IsReady s h = record {
  full = h.full;
  inside = next_index-bound s.cur_selected_server_index;
}

abbrev at_index : List (ℕ × ℕ) → ℕ → Vars
at_index servers i = record { servers_inner = servers; cur_selected_server_index = i }

rotate-queue :
    (servers : List (ℕ × ℕ)) (i : ℕ)
    → IsReady (at_index servers i)
    → rotate (queue_of (at_index servers i)) ≡ queue_of (advance (at_index servers i))
unfolding advance next_index
rotate-queue (a ∷ b ∷ c ∷ d ∷ []) zero h = refl
rotate-queue (a ∷ b ∷ c ∷ d ∷ []) (suc zero) h = refl
rotate-queue (a ∷ b ∷ c ∷ d ∷ []) (suc (suc zero)) h = refl
rotate-queue (a ∷ b ∷ c ∷ d ∷ []) (suc (suc (suc zero))) h = refl
rotate-queue (a ∷ b ∷ c ∷ d ∷ []) (suc (suc (suc (suc i)))) h = absurd (omega (arith, h.inside))
rotate-queue _ i h = absurd (omega (arith, h.full))

front-queue :
    (servers : List (ℕ × ℕ)) (i : ℕ)
    → IsReady (at_index servers i)
    → front (queue_of (at_index servers i)) ≡ (server_at servers i).0
front-queue (a ∷ b ∷ c ∷ d ∷ []) zero h = refl
front-queue (a ∷ b ∷ c ∷ d ∷ []) (suc zero) h = refl
front-queue (a ∷ b ∷ c ∷ d ∷ []) (suc (suc zero)) h = refl
front-queue (a ∷ b ∷ c ∷ d ∷ []) (suc (suc (suc zero))) h = refl
front-queue (a ∷ b ∷ c ∷ d ∷ []) (suc (suc (suc (suc i)))) h = absurd (omega (arith, h.inside))
front-queue _ i h = absurd (omega (arith, h.full))

abbrev Refines : {A : Type 0} → M Vars A → M Queue A → Type 0
Refines m n = Simulates IsReady queue_of m n

Refines-select_server : Refines select_server next_server
unfolding select_server next_server
Refines-select_server =
    Simulates-get
      (λ s. modify advance >> pure (server_at s.servers_inner s.cur_selected_server_index).0)
      (λ queue. modify rotate >> pure (front queue))
      λ s p.
        Simulates-seq
          (Simulates-modify advance rotate (λ s p.
            (rotate-queue s.servers_inner s.cur_selected_server_index p, advance-IsReady s p)))
          (Simulates-eq (server_at s.servers_inner s.cur_selected_server_index).0
            (front (queue_of s)) (front-queue s.servers_inner s.cur_selected_server_index p))

Refines-answer_client : (fd n : ℕ) (r : Outcome) → Refines (answer_client fd n r) (answer fd n r)
unfolding answer_client answer
Refines-answer_client fd n (ok k) =
    Simulates-if (k == n) (Simulates-run_call _) (Simulates-run_call _)
Refines-answer_client fd n (error e) = Simulates-run_call _

Refines-forward : (fd n : ℕ) (bytes : Bytes) → Refines (forward fd n bytes) (pass_on fd n bytes)
unfolding forward pass_on
Refines-forward fd n bytes =
    Simulates-bind Refines-select_server
      λ server_fd. Simulates-bind (Simulates-syscall _) λ r. Refines-answer_client fd n (result r)

Refines-after_read :
    (epoll_fd fd : ℕ) (bytes : Bytes) (r : Outcome)
    → Refines (after_read epoll_fd fd bytes r) (handle epoll_fd fd bytes r)
unfolding after_read handle
Refines-after_read epoll_fd fd bytes (error e) =
    Simulates-if (e == eagain) (Simulates-pure tt) (Simulates-close_connect epoll_fd fd)
Refines-after_read epoll_fd fd bytes (ok n) =
    Simulates-if (n == 0) (Simulates-close_connect epoll_fd fd) (Refines-forward fd n bytes)

Refines-accept_one :
    (epoll_fd listen_fd : ℕ) → Refines (accept_one epoll_fd listen_fd) (admit epoll_fd listen_fd)
unfolding accept_one admit
Refines-accept_one epoll_fd listen_fd = Simulates-bind (Simulates-syscall _) λ r.
    Simulates-Outcome (result r)
      (λ fd. Simulates-seq (Simulates-set_nonblock fd) (
        Simulates-seq (Simulates-set_tcp_no_delay fd true) (
          Simulates-seq (Simulates-epoll_ctl_add epoll_fd fd default_event) (Simulates-pure true))))
      (λ e. Simulates-if (e == eagain) (Simulates-pure false) (Simulates-stop _))

Refines-on_event :
    (epoll_fd listen_fd : ℕ) (event : Event)
    → Refines (on_event epoll_fd listen_fd event) (react epoll_fd listen_fd event)
unfolding on_event react on_client
Refines-on_event epoll_fd listen_fd event =
    Simulates-if (event.fd == listen_fd) (Simulates-loop (Refines-accept_one epoll_fd listen_fd)) (
      Simulates-if (not (bit_and event.events epollin == 0))
        (Simulates-bind (Simulates-syscall _)
          λ r. Refines-after_read epoll_fd event.fd (stored r) (result r))
        (Simulates-pure tt))

Refines-serve_turn :
    (epoll_fd listen_fd : ℕ) → Refines (serve_turn epoll_fd listen_fd) (turn epoll_fd listen_fd)
unfolding serve_turn turn
Refines-serve_turn epoll_fd listen_fd =
    Simulates-bind (Simulates-syscall _)
      λ r. Simulates-for_each (delivered r) (Refines-on_event epoll_fd listen_fd)

Refines-thread_func : Refines thread_func serve
unfolding thread_func serve
Refines-thread_func = Simulates-bind (Simulates-get_listen_fd outer_port 512) λ listen_fd.
    Simulates-seq (Simulates-set_nonblock listen_fd) (
      Simulates-bind (Simulates-syscall _) λ r.
        Simulates-bind (Simulates-ok_or_abort (result r)) λ epoll_fd.
          Simulates-seq (Simulates-epoll_ctl_add epoll_fd listen_fd default_event) (
            Simulates-loop
              (Simulates-seq (Refines-serve_turn epoll_fd listen_fd) (Simulates-pure true))))

-- Once the four servers are there and the index is one of theirs, `threadFunc` does, whatever the
-- kernel replies, exactly the calls of the specification that serves from the queue of the servers
-- from the index on, and ends as it does, with the queue that its own array and index stand for.
pub thread_func-refines :
    (w : World Vars)
    → IsReady w.vars
    → serve (map_world queue_of w) ≡ map_run queue_of (thread_func w)
thread_func-refines w h = Refines-thread_func.at w h
