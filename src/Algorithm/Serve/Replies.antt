-- ===== src/Algorithm/Serve/Replies.antt =====
-- servers/algorithm_distributor.cc: the handlers of `threadFunc` in honest runs.
use mathlib.Core.Bool.{false≢true}
use gra_project.Base.{
  ℕ, ◌≡◌, refl, sym, ap, ◌∙◌, true, false, not, List, [], ◌∷◌, arith, All, contains, ◌==◌, Bytes,
  if◌then◌else◌, Bool-cases, ◌⊎◌, inl, inr, length, ◌≢◌,
}
use gra_project.Sys.{
  read, epoll_create, epoll_wait, write, Event, eagain, Reply, Outcome, ok, error, result,
  delivered, stored, World, M, ◌>>=◌, ◌>>◌, stop, exited, syscall, run_call, ok_or_abort,
}
use gra_project.Sys.Loop.{forever}
use gra_project.Sys.Keeps.{
  Keeps-bind, Keeps-seq, Keeps-pure, Keeps-stop, Keeps-assert, Keeps-ok_or_abort, Keeps-loop,
  Keeps-for_each,
}
use gra_project.Net.{set_nonblock, epoll_ctl_add, close_connect}
use gra_project.Numbers.{Numbers}
use gra_project.Wire.{mess_len, normal_len, message, int_at}
use gra_project.Algorithm.{Vars, max_event, default_event}
use gra_project.Algorithm.Choose.{get_cur_selected_server_fd}
use gra_project.Algorithm.Serve.{
  err_res, has_input, forward, on_client, store_reply, answer_client, on_server, on_event,
  serve_turn,
}
use gra_project.Algorithm.Serve.Honest.{Outside, Knows-syscall, Knows-get, Knows-modify}
use gra_project.Algorithm.Serve.Requests.{after_write, chosen, requested}
use gra_project.Algorithm.Serve.Safe.{
  Safe, quiet-Allowed, message-NotReply, stored-ne, Safe-if, Safe-call, Safe-err_res,
  Safe-set_nonblock, Safe-epoll_ctl_add, Safe-close_connect, Safe-accept_one,
}

module _ {servers : List ℕ} {N : Numbers} where
  Safe-after_write : (K : Type 0) (fd : ℕ) (i : Outcome) → Safe servers N K (after_write fd i)
  Safe-after_write K fd (ok n) = Safe-if (n == mess_len) (Keeps-pure _ tt) (Safe-err_res K fd)
  Safe-after_write K fd (error e) = Safe-err_res K fd

  -- What reaches a server is longer than `correct_res`.
  Safe-forward :
      (K : Type 0) (fd : ℕ) (buf : Bytes) → length buf ≢ 12 → Safe servers N K (forward fd buf)
  unfolding forward get_cur_selected_server_fd
  Safe-forward K fd buf h = record {
    at = λ w p.
        (sends w).at (moved w) ((Knows-modify servers K (requested fd buf) (λ s. refl)).at w p);
  }
    where
      moved : World (Vars N) → World (Vars N)
      moved w = record w { vars = requested fd buf w.vars }

      sends :
          (w : World (Vars N))
          → Safe servers N K
              (syscall (write (chosen w.vars) (message fd buf)) >>= λ r. after_write fd (result r))
      sends w =
          Knows-syscall servers K _ _ (λ _. (message-NotReply (chosen w.vars) fd buf h, tt))
            λ r. Safe-after_write _ fd (result r)

  Safe-read :
      (K : Type 0) (epoll_fd fd : ℕ) (r : Reply) (i : Outcome)
      → result r ≡ i
      → Safe servers N K (elim i [
        | error e ↦ if e == eagain then run_call (write fd err_res) else close_connect epoll_fd fd
        | ok n ↦
            if n == 0
            then close_connect epoll_fd fd
            else if n == normal_len
            then forward fd (stored r)
            else run_call (write fd err_res)
      ])
  Safe-read K epoll_fd fd r (error e) h =
      Safe-if (e == eagain) (Safe-err_res K fd) (Safe-close_connect K epoll_fd fd)
  Safe-read K epoll_fd fd r (ok n) h =
      Safe-if (n == 0) (Safe-close_connect K epoll_fd fd) (whole (Bool-cases (n == normal_len)))
    where
      whole :
          ((n == normal_len) ≡ true) ⊎ ((n == normal_len) ≡ false)
          → Safe servers N K
              (if n == normal_len then forward fd (stored r) else run_call (write fd err_res))
      whole (inl e) = rw e (Safe-forward K fd (stored r) (stored-ne r (ground arith)))
      whole (inr e) = rw e (Safe-err_res K fd)

  Safe-on_client : (K : Type 0) (epoll_fd fd : ℕ) → Safe servers N K (on_client epoll_fd fd)
  unfolding on_client
  Safe-on_client K epoll_fd fd =
      Knows-syscall servers K _ _ (λ _. quiet-Allowed servers (read fd normal_len) refl)
        λ r. Safe-read _ epoll_fd fd r (result r) refl

  -- With nothing to assume, any answer is safe.
  Safe-answer_client :
      (K : Type 0) (client_fd n : ℕ) → (K → ⊥) → Safe servers N K (answer_client client_fd n)
  unfolding answer_client
  Safe-answer_client K client_fd n never =
      Keeps-seq _ (Keeps-assert _ _) (Safe-call K _ (λ k. absurd (never k)))

  Safe-on_server : (K : Type 0) (fd : ℕ) → (K → ⊥) → Safe servers N K (on_server fd)
  unfolding on_server store_reply
  Safe-on_server K fd never =
      Knows-syscall servers K _ _ (λ k. absurd (never k))
        λ r.
          Keeps-seq _ (Knows-modify servers _ _ (λ s. refl))
            (Knows-get servers _ _ λ s. answered (result r) (int_at s.mess) (λ k. never k.0.0))
    where
      answered :
          {L : Type 0} (i : Outcome) (client_fd : ℕ)
          → (L → ⊥)
          → Safe servers N L (elim i [
            | error e ↦ stop (exited 1)
            | ok n ↦ if n == 0 then stop (exited 1) else answer_client client_fd n
          ])
      answered (error e) client_fd g = Keeps-stop _ (exited 1)
      answered (ok n) client_fd g =
          Safe-if (n == 0) (Keeps-stop _ (exited 1)) (Safe-answer_client _ client_fd n g)

  -- An event of a descriptor that is no server's never leads to `on_server`.
  Safe-on_event :
      (K : Type 0) (epoll_fd listen_fd : ℕ) (event : Event)
      → (K → Outside servers event.fd)
      → Safe servers N K (on_event epoll_fd listen_fd event)
  unfolding on_event
  Safe-on_event K epoll_fd listen_fd event out =
      Safe-if (event.fd == listen_fd) (Keeps-loop _ _ (Safe-accept_one K epoll_fd listen_fd)) (
        Safe-if (has_input event)
          (Knows-get servers K _
            λ s. client_or_server s (Bool-cases (contains s.server_fd_set event.fd)))
          (Keeps-pure _ tt))
    where
      client_or_server :
          (s : Vars N)
          → (contains s.server_fd_set event.fd ≡ true) ⊎ (contains s.server_fd_set event.fd ≡ false)
          → Safe servers N (K × (s.server_fd_set ≡ servers)) (
              if not (contains s.server_fd_set event.fd)
              then on_client epoll_fd event.fd
              else on_server event.fd)
      client_or_server s (inl e) = rw e (
          Safe-on_server _ event.fd
            (λ k. false≢true (sym (out k.0) ∙ ap (λ xs. contains xs event.fd) (sym k.1) ∙ e)))
      client_or_server s (inr e) = rw e (Safe-on_client _ epoll_fd event.fd)

Safe-events :
    (servers : List ℕ) (N : Numbers) (K : Type 0) (epoll_fd listen_fd : ℕ) (events : List Event)
    → (K → All (λ (e : Event). Outside servers e.fd) events)
    → All (λ e. Safe servers N K (on_event epoll_fd listen_fd e)) events
Safe-events servers N K epoll_fd listen_fd [] out = tt
Safe-events servers N K epoll_fd listen_fd (e ∷ events) out = (
  Safe-on_event K epoll_fd listen_fd e (λ k. (out k).0),
  Safe-events servers N K epoll_fd listen_fd events (λ k. (out k).1),
)

-- The rest of `threadFunc`, once the listening socket is made.
abbrev pub served : {N : Numbers} → ℕ → M (Vars N) (Unit {0})
served {N} listen_fd = do
  set_nonblock listen_fd
  r ← syscall (epoll_create 1024)
  epoll_fd ← ok_or_abort (result r)
  epoll_ctl_add epoll_fd listen_fd default_event
  forever (serve_turn {N = N} epoll_fd listen_fd)

module _ {servers : List ℕ} {N : Numbers} where
  Safe-serve_turn :
      (K : Type 0) (epoll_fd listen_fd : ℕ) → Safe servers N K (serve_turn epoll_fd listen_fd)
  unfolding serve_turn
  Safe-serve_turn K epoll_fd listen_fd =
      Knows-syscall servers K _ _ (λ _. quiet-Allowed servers (epoll_wait epoll_fd max_event) refl)
        λ r.
          Keeps-for_each _ (delivered r) _
            (Safe-events servers N _ epoll_fd listen_fd (delivered r) (λ k. k.1))

  pub Safe-served :
      (K : Type 0) (listen_fd : ℕ)
      → (K → Outside servers listen_fd)
      → Safe servers N K (served listen_fd)
  Safe-served K listen_fd out = Keeps-seq _ (Safe-set_nonblock K listen_fd) (
      Knows-syscall servers K _ _ (λ _. quiet-Allowed servers (epoll_create 1024) refl)
        λ r. Keeps-bind _ (Keeps-ok_or_abort _ (result r)) λ epoll_fd.
          Keeps-seq _ (Safe-epoll_ctl_add _ epoll_fd listen_fd (λ k. out k.0)) (
            Keeps-loop _ _
              (Keeps-seq _ (Safe-serve_turn _ epoll_fd listen_fd) (Keeps-pure _ true))))
