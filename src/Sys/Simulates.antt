-- ===== src/Sys/Simulates.antt =====
-- One program by another, over an abstraction `φ` of the variables: from states in `P`, which is kept,
-- the run of the second is the run of the first seen through `φ`, with the same calls.
use gra_project.Base.{
  ℕ, zero, suc, ◌≡◌, refl, ap, ◌∙◌, Bool, true, false, if◌then◌else◌, List, [], ◌∷◌, length,
}
use gra_project.Sys.{
  Call, Reply, Outcome, ok, error, Halt, World, Run, returns, halts, M, and_then, ◌>>=◌, ◌>>◌, pure,
  stop, get, modify, answer, syscall, ok_or_exit, ok_or_abort, result,
}
use gra_project.Sys.Loop.{repeat, loop, for_each}
use gra_project.Net.{
  zero_or_exit, set_nonblock, set_tcp_no_delay, set_reuse_addr, get_listen_fd, epoll_ctl_add,
  close_connect,
}

abbrev pub map_world : {S T : Type 0} → (S → T) → World S → World T
map_world φ w = record { vars = φ w.vars; script = w.script; trace = w.trace }

abbrev pub map_run : {S T A : Type 0} → (S → T) → Run S A → Run T A
map_run φ (returns a w) = returns a (map_world φ w)
map_run φ (halts h w) = halts h (map_world φ w)

-- A return leaves the variables in `P`.
abbrev pub Kept : {S A : Type 0} → (S → Type 0) → Run S A → Type 0
Kept P (returns a w) = P w.vars
Kept P (halts h w) = Unit

pub record Simulates {S T A : Type 0} (P : S → Type 0) (φ : S → T) (m : M S A) (n : M T A)
    : Type 0 where
  pub at : (w : World S) → P w.vars → n (map_world φ w) ≡ map_run φ (m w)
  pub kept : (w : World S) → P w.vars → Kept P (m w)

at-answer :
    {S T : Type 0} (φ : S → T) (c : Call) (w : World S) (script : List Reply)
    → answer c (map_world φ w) script ≡ map_run φ (answer c w script)
at-answer φ c w [] = refl
at-answer φ c w (r ∷ rest) = refl

Kept-answer :
    {S : Type 0} (P : S → Type 0) (c : Call) (w : World S) (script : List Reply)
    → P w.vars
    → Kept P (answer c w script)
Kept-answer P c w [] p = tt
Kept-answer P c w (r ∷ rest) p = p

module _ {S T : Type 0} {P : S → Type 0} {φ : S → T} where
  map_run-and_then :
      {A B : Type 0} (r : Run S A) (f : A → M S B) (g : A → M T B)
      → Kept P r
      → ((a : A) → Simulates P φ (f a) (g a))
      → and_then (map_run φ r) g ≡ map_run φ (and_then r f)
  map_run-and_then (returns a w) f g p h = (h a).at w p
  map_run-and_then (halts e w) f g p h = refl

  Kept-and_then :
      {A B : Type 0} (r : Run S A) (f : A → M S B) (g : A → M T B)
      → Kept P r
      → ((a : A) → Simulates P φ (f a) (g a))
      → Kept P (and_then r f)
  Kept-and_then (returns a w) f g p h = (h a).kept w p
  Kept-and_then (halts e w) f g p h = tt

  pub Simulates-bind :
      {A B : Type 0} {m : M S A} {n : M T A} {f : A → M S B} {g : A → M T B}
      → Simulates P φ m n
      → ((a : A) → Simulates P φ (f a) (g a))
      → Simulates P φ (m >>= f) (n >>= g)
  Simulates-bind {m} {n} {f} {g} h k = record {
    at = λ w p. ap (λ r. and_then r g) (h.at w p) ∙ map_run-and_then (m w) f g (h.kept w p) k;
    kept = λ w p. Kept-and_then (m w) f g (h.kept w p) k;
  }

  pub Simulates-seq :
      {B : Type 0} {m : M S (Unit {0})} {n : M T (Unit {0})} {f : M S B} {g : M T B}
      → Simulates P φ m n
      → Simulates P φ f g
      → Simulates P φ (m >> f) (n >> g)
  Simulates-seq {m} {n} {f} {g} h k = record {
    at = λ w p.
        ap (λ r. and_then r (λ _. g)) (h.at w p)
        ∙ map_run-and_then (m w) (λ _. f) (λ _. g) (h.kept w p) (λ _. k);
    kept = λ w p. Kept-and_then (m w) (λ _. f) (λ _. g) (h.kept w p) (λ _. k);
  }

  pub Simulates-pure : {A : Type 0} (a : A) → Simulates P φ (pure a) (pure a)
  Simulates-pure a = record { at = λ w p. refl; kept = λ w p. p }

  pub Simulates-eq : {A : Type 0} (a b : A) → b ≡ a → Simulates P φ (pure a) (pure b)
  Simulates-eq a b e = record { at = λ w p. ap (λ x. returns x (map_world φ w)) e; kept = λ w p. p }

  pub Simulates-stop : {A : Type 0} (h : Halt) → Simulates {A = A} P φ (stop h) (stop h)
  Simulates-stop h = record { at = λ w p. refl; kept = λ w p. tt }

  pub Simulates-get :
      {A : Type 0} (f : S → M S A) (g : T → M T A)
      → ((s : S) → P s → Simulates P φ (f s) (g (φ s)))
      → Simulates P φ (get >>= f) (get >>= g)
  Simulates-get f g h = record {
    at = λ w p. (h w.vars p).at w p;
    kept = λ w p. (h w.vars p).kept w p;
  }

  pub Simulates-modify :
      (f : S → S) (g : T → T)
      → ((s : S) → P s → (g (φ s) ≡ φ (f s)) × P (f s))
      → Simulates P φ (modify f) (modify g)
  Simulates-modify f g h = record {
    at = λ w p.
        ap (λ t. returns tt (record { vars = t; script = w.script; trace = w.trace }))
          (h w.vars p).0;
    kept = λ w p. (h w.vars p).1;
  }

  pub Simulates-syscall : (c : Call) → Simulates P φ (syscall c) (syscall c)
  unfolding syscall
  Simulates-syscall c = record {
    at = λ w p. at-answer φ c w w.script;
    kept = λ w p. Kept-answer P c w w.script p;
  }

  pub Simulates-run_call :
      (c : Call) → Simulates P φ (syscall c >>= (λ r. pure tt)) (syscall c >>= (λ r. pure tt))
  Simulates-run_call c = Simulates-bind (Simulates-syscall c) (λ r. Simulates-pure tt)

  pub Simulates-if :
      {A : Type 0} (b : Bool) {f f' : M S A} {g g' : M T A}
      → Simulates P φ f g
      → Simulates P φ f' g'
      → Simulates P φ (if b then f else f') (if b then g else g')
  Simulates-if true h k = h
  Simulates-if false h k = k

  pub Simulates-Outcome :
      {A : Type 0} (r : Outcome) {f f' : ℕ → M S A} {g g' : ℕ → M T A}
      → ((n : ℕ) → Simulates P φ (f n) (g n))
      → ((e : ℕ) → Simulates P φ (f' e) (g' e))
      → Simulates P φ
          (elim r [ ok n ↦ f n | error e ↦ f' e ])
          (elim r [ ok n ↦ g n | error e ↦ g' e ])
  Simulates-Outcome (ok n) h k = h n
  Simulates-Outcome (error e) h k = k e

  Simulates-repeat :
      (fuel : ℕ) {m : M S Bool} {n : M T Bool}
      → Simulates P φ m n
      → Simulates P φ (repeat fuel m) (repeat fuel n)
  unfolding repeat
  Simulates-repeat zero h = Simulates-stop _
  Simulates-repeat (suc fuel) {m} {n} h = Simulates-bind h λ more.
      elim more
        as (λ b.
          Simulates {A = Unit {0}} P φ (elim b [ true ↦ repeat fuel m | false ↦ pure tt ])
            (elim b [ true ↦ repeat fuel n | false ↦ pure tt ])) [
              | true ↦ Simulates-repeat fuel h
              | false ↦ Simulates-pure tt
            ]

  pub Simulates-loop :
      {m : M S Bool} {n : M T Bool} → Simulates P φ m n → Simulates P φ (loop m) (loop n)
  unfolding loop
  Simulates-loop h = record {
    at = λ w p. (Simulates-repeat (suc (length w.script)) h).at w p;
    kept = λ w p. (Simulates-repeat (suc (length w.script)) h).kept w p;
  }

  pub Simulates-for_each :
      {A : Type 0} (xs : List A) {f : A → M S (Unit {0})} {g : A → M T (Unit {0})}
      → ((a : A) → Simulates P φ (f a) (g a))
      → Simulates P φ (for_each xs f) (for_each xs g)
  unfolding for_each
  Simulates-for_each [] h = Simulates-pure tt
  Simulates-for_each (a ∷ xs) h = Simulates-seq (h a) (Simulates-for_each xs h)

  pub Simulates-ok_or_exit : (i : Outcome) → Simulates P φ (ok_or_exit i) (ok_or_exit i)
  Simulates-ok_or_exit (ok n) = Simulates-pure n
  Simulates-ok_or_exit (error e) = Simulates-stop _

  pub Simulates-ok_or_abort : (i : Outcome) → Simulates P φ (ok_or_abort i) (ok_or_abort i)
  Simulates-ok_or_abort (ok n) = Simulates-pure n
  Simulates-ok_or_abort (error e) = Simulates-stop _

  pub Simulates-zero_or_exit : (i : Outcome) → Simulates P φ (zero_or_exit i) (zero_or_exit i)
  Simulates-zero_or_exit (ok zero) = Simulates-pure tt
  Simulates-zero_or_exit (ok (suc n)) = Simulates-stop _
  Simulates-zero_or_exit (error e) = Simulates-stop _

  pub Simulates-set_nonblock : (fd : ℕ) → Simulates P φ (set_nonblock fd) (set_nonblock fd)
  unfolding set_nonblock
  Simulates-set_nonblock fd = Simulates-bind (Simulates-syscall _) (λ r. Simulates-run_call _)

  pub Simulates-set_tcp_no_delay :
      (fd : ℕ) (on : Bool) → Simulates P φ (set_tcp_no_delay fd on) (set_tcp_no_delay fd on)
  unfolding set_tcp_no_delay
  Simulates-set_tcp_no_delay fd on =
      Simulates-bind (Simulates-syscall _)
        λ r. Simulates-bind (Simulates-ok_or_exit (result r)) (λ n. Simulates-pure tt)

  pub Simulates-set_reuse_addr :
      (fd : ℕ) (on : Bool) → Simulates P φ (set_reuse_addr fd on) (set_reuse_addr fd on)
  unfolding set_reuse_addr
  Simulates-set_reuse_addr fd on =
      Simulates-bind (Simulates-syscall _)
        λ r. Simulates-bind (Simulates-ok_or_exit (result r)) (λ n. Simulates-pure tt)

  pub Simulates-epoll_ctl_add :
      (epoll_fd fd event : ℕ)
      → Simulates P φ (epoll_ctl_add epoll_fd fd event) (epoll_ctl_add epoll_fd fd event)
  unfolding epoll_ctl_add
  Simulates-epoll_ctl_add epoll_fd fd event =
      Simulates-bind (Simulates-syscall _) (λ r. Simulates-zero_or_exit (result r))

  pub Simulates-close_connect :
      (epoll_fd fd : ℕ) → Simulates P φ (close_connect epoll_fd fd) (close_connect epoll_fd fd)
  unfolding close_connect
  Simulates-close_connect epoll_fd fd =
      Simulates-bind (Simulates-syscall _)
        λ r. Simulates-seq (Simulates-zero_or_exit (result r)) (Simulates-run_call _)

  pub Simulates-get_listen_fd :
      (port backlog : ℕ) → Simulates P φ (get_listen_fd port backlog) (get_listen_fd port backlog)
  unfolding get_listen_fd
  Simulates-get_listen_fd port backlog = Simulates-bind (Simulates-syscall _) λ s.
      Simulates-bind (Simulates-ok_or_abort (result s)) λ listen_fd.
        Simulates-seq (Simulates-set_reuse_addr listen_fd true) (
          Simulates-bind (Simulates-syscall _) λ b.
            Simulates-bind (Simulates-ok_or_abort (result b)) λ bound.
              Simulates-bind (Simulates-syscall _) λ l.
                Simulates-bind (Simulates-ok_or_abort (result l))
                  λ listening. Simulates-pure listen_fd)
