-- ===== src/Algorithm/Serve/Silence.antt =====
-- servers/algorithm_distributor.cc: `threadFunc` in honest runs.
use gra_project.Base.{ℕ, ◌≡◌, refl, true, List, []}
use gra_project.Sys.{
  Call, socket, bind, listen, fit, Outcome, ok, error, result, World, Run, returns, halts, Halt, M,
  and_then, ◌>>=◌, syscall, final, ok_or_abort,
}
use gra_project.Sys.Hoare.{Post, Hoare, Hoare-bind, Hoare-seq, Hoare-syscall}
use gra_project.Sys.Keeps.{Keeps-seq, Keeps-ok_or_abort, Keeps-syscall}
use gra_project.Net.{get_listen_fd}
use gra_project.Numbers.{Numbers}
use gra_project.Algorithm.{Vars, outer_port}
use gra_project.Algorithm.Serve.{thread_func}
use gra_project.Algorithm.Serve.Honest.{
  NoReplies, Outside, Fresh, Learnt, IsHonest, Knows, Knows-weaken, Knows-call, Knows-modify,
}
use gra_project.Algorithm.Serve.Safe.{Safe, is_quiet, quiet-Allowed, Safe-set_reuse_addr}
use gra_project.Algorithm.Serve.Replies.{Safe-served}

-- Halts forget what was learnt on the way.
abbrev Ends : (servers : List ℕ) (N : Numbers) → Type 0 → Halt → World (Vars N) → Type 0
Ends servers N K h w = Knows servers {N = N} K w

module _ {servers : List ℕ} {N : Numbers} where
  Safe-syscall : (K : Type 0) (c : Call) → is_quiet c ≡ true → Safe servers N K (syscall c)
  Safe-syscall K c q = Keeps-syscall _ λ w r rest p.
      Knows-weaken servers K (Learnt servers c (fit c r)) _
        (Knows-call servers K c (fit c r) rest w (λ _. quiet-Allowed servers c q) p)

  Safe-Hoare :
      {A : Type 0} (K L : Type 0) (m : M (Vars N) A)
      → Safe servers N (K × L) m
      → Hoare (Knows servers (K × L)) m (λ _. Knows servers (K × L)) (Ends servers N K)
  Safe-Hoare {A} K L m safe = record { at = λ w p. split (m w) (safe.at w p) }
    where
      split :
          (r : Run (Vars N) A)
          → Knows servers (K × L) (final r)
          → Post (λ _. Knows servers (K × L)) (Ends servers N K) r
      split (returns a w) p = p
      split (halts h w) p = λ honest. ((p honest).0, (p honest).1.0)

  new_socket :
      (K : Type 0)
      → Hoare
          (Knows servers {N = N} K)
          (syscall socket)
          (λ r. Knows servers (K × Fresh servers (result r)))
          (Ends servers N K)
  new_socket K =
      Hoare-syscall socket (λ w p e. p)
        (λ w r rest p e.
          Knows-call servers K socket r rest w (λ _. quiet-Allowed servers socket refl) p)

  ok_or_abort-Fresh :
      (K : Type 0) (i : Outcome)
      → Hoare
          (Knows servers {N = N} (K × Fresh servers i))
          (ok_or_abort i)
          (λ fd. Knows servers (K × Outside servers fd))
          (Ends servers N K)
  ok_or_abort-Fresh K (ok fd) = record { at = λ w p. p }
  ok_or_abort-Fresh K (error e) = record { at = λ w p honest. ((p honest).0, (p honest).1.0) }

  checked :
      (K L : Type 0) (c : Call)
      → is_quiet c ≡ true
      → {B : Type 0} (m : M (Vars N) B) (Q : B → World (Vars N) → Type 0)
      → Hoare (Knows servers (K × L)) m Q (Ends servers N K)
      → Hoare
          (Knows servers (K × L))
          (syscall c >>= λ r. ok_or_abort (result r) >>= λ _. m)
          Q
          (Ends servers N K)
  checked K L c q m Q h =
      Hoare-bind {R = λ _. Knows servers (K × L)}
        (Safe-Hoare K L (syscall c) (Safe-syscall (K × L) c q))
        λ r.
          Hoare-bind {R = λ _. Knows servers (K × L)}
            (Safe-Hoare K L (ok_or_abort (result r)) (Keeps-ok_or_abort _ (result r))) (λ _. h)

  get_listen_fd-Outside :
      (K : Type 0) (port backlog : ℕ)
      → Hoare
          (Knows servers {N = N} K)
          (get_listen_fd port backlog)
          (λ fd. Knows servers (K × Outside servers fd))
          (Ends servers N K)
  unfolding get_listen_fd
  get_listen_fd-Outside K port backlog =
      Hoare-bind {R = λ r. Knows servers (K × Fresh servers (result r))} (new_socket K) λ s.
        Hoare-bind (ok_or_abort-Fresh K (result s)) λ fd.
          Hoare-seq (Safe-Hoare K _ _ (Safe-set_reuse_addr _ fd)) (
            checked K _ (bind fd port) refl _ _
              (checked K _ (listen fd backlog) refl _ _ (record { at = λ w p. p })))

  -- What a first part finds out of its result serves the rest.
  Safe-bind :
      {A : Type 0} (K : Type 0) (L : ℕ → Type 0) (m : M (Vars N) ℕ) (f : ℕ → M (Vars N) A)
      → Hoare (Knows servers K) m (λ fd. Knows servers (K × L fd)) (Ends servers N K)
      → ((fd : ℕ) → Safe servers N (K × L fd) (f fd))
      → Safe servers N K (m >>= f)
  Safe-bind K L m f h g = record { at = λ w p. split (m w) (h.at w p) }
    where
      split :
          (r : Run (Vars N) ℕ)
          → Post (λ fd. Knows servers (K × L fd)) (Ends servers N K) r
          → Knows servers K (final (and_then r f))
      split (returns fd w) p = Knows-weaken servers K (L fd) _ ((g fd).at w p)
      split (halts h w) p = p

  Safe-thread_func : Safe servers N (Unit {0}) thread_func
  unfolding thread_func
  Safe-thread_func = Keeps-seq _ (Knows-modify servers _ _ (λ s. refl)) (
      Safe-bind (Unit {0}) _ _ _ (get_listen_fd-Outside (Unit {0}) outer_port 512)
        (λ fd. Safe-served _ fd (λ k. k.1)))

  -- In a run of `threadFunc` in which the kernel returns no open descriptor of an inner server as a
  -- new one, and delivers only events of descriptors that were added, no client is ever answered by
  -- `correct_res`.
  pub thread_func-NoReplies :
      (w : World (Vars N))
      → w.trace ≡ []
      → w.vars.server_fd_set ≡ servers
      → IsHonest servers (final (thread_func w)).trace
      → NoReplies (final (thread_func w)).trace
  thread_func-NoReplies w t s honest = ((Safe-thread_func.at w start) honest).0.no_replies
    where
      start : Knows servers (Unit {0}) w
      start _ = (record { no_replies = rw t tt; known = s; outside = rw t tt }, tt)
