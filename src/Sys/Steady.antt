-- ===== src/Sys/Steady.antt =====
-- Predicates on the variables that a program keeps: `P` while it runs and when it returns, `E` when it
-- halts. Calls do not touch variables, so the rules ask nothing of them.
use gra_project.Base.{
  ◌≡◌, subst, ℕ, zero, suc, ◌≢◌, Bool, true, false, List, [], ◌∷◌, if◌then◌else◌,
}
use gra_project.Sys.{
  result, Call, Outcome, ok, error, Halt, undefined, exited, aborted, waiting, unfinished, World,
  Run, returns, halts, M, ◌>>=◌, ◌>>◌, pure, stop, get, modify, syscall, ok_or_exit, ok_or_abort,
}
use gra_project.Sys.Loop.{loop, for_each, for_range}
use gra_project.Sys.Hoare.{Post, Hoare, Hoare-bind, Hoare-seq, Hoare-syscall, Hoare-loop}
use gra_project.Net.{
  zero_or_exit, set_nonblock, set_tcp_no_delay, set_reuse_port, set_reuse_addr, epoll_ctl_add,
  get_listen_fd, socket_connect,
}

abbrev pub On : {S : Type 0} → (S → Type 0) → World S → Type 0
On P w = P w.vars

-- Every halt but an undefined step ends in `E`.
abbrev pub Covers : {S : Type 0} → (S → Type 0) → (Halt → S → Type 0) → Type 0
Covers {S} P E = (h : Halt) (s : S) → h ≢ undefined → P s → E h s

pub record Steady {S A : Type 0} (P : S → Type 0) (E : Halt → S → Type 0) (m : M S A) : Type 0 where
  pub hoare : Hoare (On P) m (λ _. On P) (λ h w. E h w.vars)

-- What a return of a steady program says.
pub Steady-returns :
    {S A : Type 0} {P : S → Type 0} {E : Halt → S → Type 0} {m : M S A}
    → Steady P E m
    → {a : A} {w v : World S} → m w ≡ returns a v
    → P w.vars
    → P v.vars
Steady-returns {P} {E} h {w} e p = subst (Post (λ _. On P) (λ h v. E h v.vars)) e (h.hoare.at w p)

module _ {S : Type 0} {P : S → Type 0} {E : Halt → S → Type 0} where
  pub Steady-bind :
      {A B : Type 0} {m : M S A} {f : A → M S B}
      → Steady P E m
      → ((a : A) → Steady P E (f a))
      → Steady P E (m >>= f)
  Steady-bind h k = record { hoare = Hoare-bind h.hoare (λ a. (k a).hoare) }

  pub Steady-seq :
      {B : Type 0} {m : M S (Unit {0})} {g : M S B}
      → Steady P E m
      → Steady P E g
      → Steady P E (m >> g)
  Steady-seq h k = record { hoare = Hoare-seq h.hoare k.hoare }

  pub Steady-pure : {A : Type 0} (a : A) → Steady P E (pure a)
  Steady-pure a = record { hoare = record { at = λ w p. p } }

  pub Steady-get : Steady P E get
  Steady-get = record { hoare = record { at = λ w p. p } }

  pub Steady-modify : (f : S → S) → ((s : S) → P s → P (f s)) → Steady P E (modify f)
  Steady-modify f h = record { hoare = record { at = λ w p. h w.vars p } }

  pub Steady-if :
      {A : Type 0} (b : Bool) {m n : M S A}
      → Steady P E m
      → Steady P E n
      → Steady P E (if b then m else n)
  Steady-if true h k = h
  Steady-if false h k = k

module _ {S : Type 0} {P : S → Type 0} {E : Halt → S → Type 0} (covers : Covers P E) where
  pub Steady-stop : {A : Type 0} (h : Halt) → h ≢ undefined → Steady {A = A} P E (stop h)
  Steady-stop h n = record { hoare = record { at = λ w p. covers h w.vars n p } }

  pub Steady-exit : {A : Type 0} (n : ℕ) → Steady {A = A} P E (stop (exited n))
  Steady-exit n = Steady-stop (exited n) (λ e. cc)

  pub Steady-syscall : (c : Call) → Steady P E (syscall c)
  Steady-syscall c = record {
    hoare = Hoare-syscall c (λ w p e. covers waiting w.vars (λ e. cc) p) (λ w r rest p e. p);
  }

  pub Steady-ok_or_exit : (i : Outcome) → Steady P E (ok_or_exit i)
  Steady-ok_or_exit (ok n) = Steady-pure n
  Steady-ok_or_exit (error e) = Steady-exit 1

  pub Steady-ok_or_abort : (i : Outcome) → Steady P E (ok_or_abort i)
  Steady-ok_or_abort (ok n) = Steady-pure n
  Steady-ok_or_abort (error e) = Steady-stop aborted (λ e. cc)

  pub Steady-zero_or_exit : (i : Outcome) → Steady P E (zero_or_exit i)
  Steady-zero_or_exit (ok zero) = Steady-pure tt
  Steady-zero_or_exit (ok (suc n)) = Steady-exit 1
  Steady-zero_or_exit (error e) = Steady-exit 1

  pub Steady-loop : {body : M S Bool} → Steady P E body → Steady P E (loop body)
  Steady-loop {body} h = record {
    hoare = Hoare-loop body (λ w p. covers unfinished w.vars (λ e. cc) p) (Hoare-both body h.hoare);
  }
    where
      both : (more : Bool) (w : World S) → P w.vars → if more then On P w else On P w
      both true w p = p
      both false w p = p

      post :
          (r : Run S Bool)
          → Post (λ _. On P) (λ h w. E h w.vars) r
          → Post (λ more. if more then On P else On P) (λ h w. E h w.vars) r
      post (returns true w) p = p
      post (returns false w) p = p
      post (halts h w) e = e

      Hoare-both :
          (body : M S Bool)
          → Hoare (On P) body (λ _. On P) (λ h w. E h w.vars)
          → Hoare (On P) body (λ more. if more then On P else On P) (λ h w. E h w.vars)
      Hoare-both body k = record { at = λ w p. post (body w) (k.at w p) }

  pub Steady-for_each :
      {A : Type 0} (xs : List A) (body : A → M S (Unit {0}))
      → ((a : A) → Steady P E (body a))
      → Steady P E (for_each xs body)
  unfolding for_each
  Steady-for_each [] body h = Steady-pure tt
  Steady-for_each (a ∷ xs) body h = Steady-seq (h a) (Steady-for_each xs body h)

  -- A call whose result is dropped.
  pub Steady-run_call : (c : Call) → Steady P E (syscall c >>= (λ r. pure tt))
  Steady-run_call c = Steady-bind (Steady-syscall c) (λ r. Steady-pure tt)

  pub Steady-set_nonblock : (fd : ℕ) → Steady P E (set_nonblock fd)
  unfolding set_nonblock
  Steady-set_nonblock fd = Steady-bind (Steady-syscall _) (λ r. Steady-run_call _)

  pub Steady-set_tcp_no_delay : (fd : ℕ) (on : Bool) → Steady P E (set_tcp_no_delay fd on)
  unfolding set_tcp_no_delay
  Steady-set_tcp_no_delay fd on =
      Steady-bind (Steady-syscall _)
        λ r. Steady-bind (Steady-ok_or_exit (result r)) (λ n. Steady-pure tt)

  pub Steady-set_reuse_port : (fd : ℕ) (on : Bool) → Steady P E (set_reuse_port fd on)
  unfolding set_reuse_port
  Steady-set_reuse_port fd on =
      Steady-bind (Steady-syscall _)
        λ r. Steady-bind (Steady-ok_or_exit (result r)) (λ n. Steady-pure tt)

  pub Steady-set_reuse_addr : (fd : ℕ) (on : Bool) → Steady P E (set_reuse_addr fd on)
  unfolding set_reuse_addr
  Steady-set_reuse_addr fd on =
      Steady-bind (Steady-syscall _)
        λ r. Steady-bind (Steady-ok_or_exit (result r)) (λ n. Steady-pure tt)

  pub Steady-epoll_ctl_add : (epoll_fd fd event : ℕ) → Steady P E (epoll_ctl_add epoll_fd fd event)
  unfolding epoll_ctl_add
  Steady-epoll_ctl_add epoll_fd fd event =
      Steady-bind (Steady-syscall _) (λ r. Steady-zero_or_exit (result r))

  pub Steady-get_listen_fd : (port backlog : ℕ) → Steady P E (get_listen_fd port backlog)
  unfolding get_listen_fd
  Steady-get_listen_fd port backlog = Steady-bind (Steady-syscall _) λ s.
      Steady-bind (Steady-ok_or_abort (result s)) λ fd. Steady-seq (Steady-set_reuse_addr fd true) (
        Steady-bind (Steady-syscall _) λ b. Steady-bind (Steady-ok_or_abort (result b)) λ bound.
          Steady-bind (Steady-syscall _)
            λ l. Steady-bind (Steady-ok_or_abort (result l)) λ listening. Steady-pure fd)

  pub Steady-socket_connect : (port address : ℕ) → Steady P E (socket_connect port address)
  unfolding socket_connect
  Steady-socket_connect port address = Steady-bind (Steady-syscall _) λ s.
      Steady-bind (Steady-ok_or_exit (result s)) λ fd.
        Steady-bind (Steady-syscall _)
          λ r. Steady-seq (Steady-zero_or_exit (result r)) (Steady-pure fd)

  pub Steady-for_range :
      (n i : ℕ) (body : ℕ → M S (Unit {0}))
      → ((i : ℕ) → Steady P E (body i))
      → Steady P E (for_range n i body)
  unfolding for_range
  Steady-for_range zero i body h = Steady-pure tt
  Steady-for_range (suc n) i body h = Steady-seq (h i) (Steady-for_range n (suc i) body h)
