-- ===== src/Algorithm/Serve/Safe.antt =====
-- servers/algorithm_distributor.cc: the helpers and the accept loop, in honest runs.
use gra_project.Base.{
  ℕ, ◌≡◌, refl, ◌≢◌, Bool, true, false, List, arith, length, ◌==◌, Bytes, if◌then◌else◌,
}
use gra_project.Sys.{
  Call, accept, epoll_add, epoll_del, fcntl_getfd, setsockopt, write, eagain, Reply, Outcome, ok,
  error, result, stored, input, M, ◌>>◌, pure, run_call, stop, exited, tcp_nodelay, reuse_addr,
}
use gra_project.Sys.Keeps.{Keeps, Keeps-bind, Keeps-seq, Keeps-pure, Keeps-stop, Keeps-ok_or_exit}
use gra_project.Net.{
  zero_or_exit, set_nonblock, set_tcp_no_delay, set_reuse_addr, epoll_ctl_add, close_connect,
}
use gra_project.Numbers.{Numbers}
use gra_project.Wire.{normal_len, message, length-message}
use gra_project.Algorithm.{Vars, default_event}
use gra_project.Algorithm.Serve.{err_res, accept_one}
use gra_project.Algorithm.Serve.Honest.{NotReply, Outside, Fresh, Allowed, Knows, Knows-syscall}

-- A call that is neither a write nor an addition to an epoll set.
abbrev pub is_quiet : Call → Bool
is_quiet (write fd bytes) = false
is_quiet (epoll_add epoll_fd fd events) = false
is_quiet _ = true

pub quiet-Allowed : (servers : List ℕ) (c : Call) → is_quiet c ≡ true → Allowed servers c
quiet-Allowed servers (write fd bytes) h = cc
quiet-Allowed servers (epoll_add epoll_fd fd events) h = cc
quiet-Allowed servers _ h = ((λ fd e. cc), tt)

pub err_res-NotReply : (fd : ℕ) → NotReply (write fd err_res)
err_res-NotReply fd fd' e = ground arith

-- A buffer that is not twelve bytes long makes a message that is not sixteen bytes long.
pub message-NotReply :
    (server fd : ℕ) (buf : Bytes) → length buf ≢ 12 → NotReply (write server (message fd buf))
message-NotReply server fd buf h fd' e = h (ground (arith, length-message fd buf))

-- A reply of sixteen bytes stored that many, or none.
pub stored-ne : (r : Reply) → result r ≡ ok normal_len → length (stored r) ≢ 12
stored-ne (input bytes) h e = ground arith
stored-ne _ h e = ground arith

-- In every honest run from a clean world, the program leaves the world clean.
abbrev pub Safe : (servers : List ℕ) (N : Numbers) (K : Type 0) {A : Type 0} → M (Vars N) A → Type 0
Safe servers N K = Keeps (Knows servers {N = N} K)

module _ {servers : List ℕ} {N : Numbers} where
  pub Safe-if :
      {K A : Type 0} {m n : M (Vars N) A} (b : Bool)
      → Safe servers N K m
      → Safe servers N K n
      → Safe servers N K (if b then m else n)
  Safe-if true h g = h
  Safe-if false h g = g

  pub Safe-call : (K : Type 0) (c : Call) → (K → Allowed servers c) → Safe servers N K (run_call c)
  Safe-call K c allow = Knows-syscall servers K c _ allow (λ r. Keeps-pure _ tt)

  pub Safe-quiet : (K : Type 0) (c : Call) → is_quiet c ≡ true → Safe servers N K (run_call c)
  Safe-quiet K c q = Safe-call K c (λ _. quiet-Allowed servers c q)

  pub Safe-err_res : (K : Type 0) (fd : ℕ) → Safe servers N K (run_call (write fd err_res))
  Safe-err_res K fd = Safe-call K _ (λ _. (err_res-NotReply fd, tt))

  pub Safe-zero_or_exit : (K : Type 0) (i : Outcome) → Safe servers N K (zero_or_exit i)
  Safe-zero_or_exit K (ok ℕ.zero) = Keeps-pure _ tt
  Safe-zero_or_exit K (ok (ℕ.suc n)) = Keeps-stop _ _
  Safe-zero_or_exit K (error e) = Keeps-stop _ _

  pub Safe-set_nonblock : (K : Type 0) (fd : ℕ) → Safe servers N K (set_nonblock fd)
  unfolding set_nonblock
  Safe-set_nonblock K fd =
      Knows-syscall servers K _ _ (λ _. quiet-Allowed servers (fcntl_getfd fd) refl)
        λ r. Safe-quiet _ _ refl

  Safe-set_tcp_no_delay : (K : Type 0) (fd : ℕ) → Safe servers N K (set_tcp_no_delay fd true)
  unfolding set_tcp_no_delay
  Safe-set_tcp_no_delay K fd =
      Knows-syscall servers K _ _ (λ _. quiet-Allowed servers (setsockopt fd tcp_nodelay 1) refl)
        λ r. Keeps-bind _ (Keeps-ok_or_exit _ (result r)) (λ n. Keeps-pure _ tt)

  pub Safe-set_reuse_addr : (K : Type 0) (fd : ℕ) → Safe servers N K (set_reuse_addr fd true)
  unfolding set_reuse_addr
  Safe-set_reuse_addr K fd =
      Knows-syscall servers K _ _ (λ _. quiet-Allowed servers (setsockopt fd reuse_addr 1) refl)
        λ r. Keeps-bind _ (Keeps-ok_or_exit _ (result r)) (λ n. Keeps-pure _ tt)

  pub Safe-epoll_ctl_add :
      (K : Type 0) (epoll_fd fd : ℕ)
      → (K → Outside servers fd)
      → Safe servers N K (epoll_ctl_add epoll_fd fd default_event)
  unfolding epoll_ctl_add
  Safe-epoll_ctl_add K epoll_fd fd out =
      Knows-syscall servers K _ _ (λ k. ((λ f e. cc), (out k, tt)))
        λ r. Safe-zero_or_exit _ (result r)

  pub Safe-close_connect :
      (K : Type 0) (epoll_fd fd : ℕ) → Safe servers N K (close_connect epoll_fd fd)
  unfolding close_connect
  Safe-close_connect K epoll_fd fd =
      Knows-syscall servers K _ _ (λ _. quiet-Allowed servers (epoll_del epoll_fd fd) refl)
        λ r. Keeps-seq _ (Safe-zero_or_exit _ (result r)) (Safe-quiet _ _ refl)

  Safe-added :
      (K : Type 0) (epoll_fd fd : ℕ)
      → (K → Outside servers fd)
      → Safe servers N K (do
        set_nonblock fd
        set_tcp_no_delay fd true
        epoll_ctl_add epoll_fd fd default_event
        pure true)
  Safe-added K epoll_fd fd out = Keeps-seq _ (Safe-set_nonblock K fd) (
      Keeps-seq _ (Safe-set_tcp_no_delay K fd)
        (Keeps-seq _ (Safe-epoll_ctl_add K epoll_fd fd out) (Keeps-pure _ true)))

  -- A descriptor that `accept` returns is none of the servers'.
  pub Safe-accept_one :
      (K : Type 0) (epoll_fd listen_fd : ℕ) → Safe servers N K (accept_one epoll_fd listen_fd)
  unfolding accept_one
  Safe-accept_one K epoll_fd listen_fd =
      Knows-syscall servers K _ _ (λ _. quiet-Allowed servers (accept listen_fd) refl)
        λ r. accepted_or_not (result r)
    where
      accepted_or_not :
          (i : Outcome)
          → Safe servers N (K × Fresh servers i) (elim i [
            | error e ↦ if e == eagain then pure false else stop (exited 1)
            | ok fd ↦ do
              set_nonblock fd
              set_tcp_no_delay fd true
              epoll_ctl_add epoll_fd fd default_event
              pure true
          ])
      accepted_or_not (ok fd) = Safe-added _ epoll_fd fd (λ k. k.1)
      accepted_or_not (error e) =
          Safe-if (e == eagain) (Keeps-pure _ false) (Keeps-stop _ (exited 1))
