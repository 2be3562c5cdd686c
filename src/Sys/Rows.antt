-- ===== src/Sys/Rows.antt =====
-- Programs as rows of moves: what a run does, cut into the pieces between which other threads can do
-- theirs.
use gra_project.Base.{
  ℕ, zero, suc, ◌≡◌, ◌≢◌, refl, sym, ◌∙◌, ap, Bool, true, false, List, [], ◌∷◌, if◌then◌else◌,
}
use gra_project.Sys.{
  Call, Opt, Reply, Outcome, ok, error, result, World, Run, returns, halts, and_then, Halt, final,
  M, fit, answer, ◌>>=◌, ◌>>◌, pure, stop, get, assert, syscall, run_call, ok_or_exit, ok_or_abort,
}
use gra_project.Sys.Keeps.{
  Keeps, Keeps-bind, Keeps-seq, Keeps-pure, Keeps-stop, Keeps-get, Keeps-assert, Keeps-ok_or_exit,
  Keeps-ok_or_abort, Keeps-loop,
}
use gra_project.Sys.Loop.{loop, for_each}
use gra_project.Net.{
  zero_or_exit, set_nonblock, set_option, set_reuse_addr, set_tcp_no_delay, epoll_ctl_add,
  close_connect, get_listen_fd,
}

-- A sequence returns where both parts do.
pub record Parts {S A B : Type 0} (m : M S A) (f : A → M S B) (w : World S) (b : B) (v : World S)
    : Type 0 where
  pub between : World S
  pub value : A
  pub first : m w ≡ returns value between
  pub second : f value between ≡ returns b v

halts≢returns : {S B : Type 0} {h : Halt} {w v : World S} {b : B} → halts h w ≢ returns b v
halts≢returns e = cc

module _ {S A B : Type 0} where
  pub split_run :
      (m : M S A) (f : A → M S B) (w : World S) {b : B} {v : World S}
      → (m >>= f) w ≡ returns b v
      → Parts m f w b v
  split_run m f w {b} {v} e = split (m w) refl
    where
      split : (r : Run S A) → m w ≡ r → Parts m f w b v
      split (returns a u) d = record {
        between = u;
        value = a;
        first = d;
        second = sym (ap (λ r. and_then r f) d) ∙ e;
      }
      split (halts h u) d = absurd (halts≢returns (sym (ap (λ r. and_then r f) d) ∙ e))

pub data Row {S : Type 0} (Move : World S → World S → Type 0) (w : World S) : World S → Type 0 where
  none : Row Move w w
  more : {v u : World S} → Row Move w v → Move v u → Row Move w u

-- Wherever a run of the program ends, a row of moves leads there.
pub record Walks {S A : Type 0} (Move : World S → World S → Type 0) (m : M S A) : Type 0 where
  pub keeps : (w : World S) → Keeps (Row Move w) m

-- Every call is a move.
abbrev pub Calls : {S : Type 0} → (World S → World S → Type 0) → Type 0
Calls {S} Move = (c : Call) (r : Reply) (w v : World S) → syscall c w ≡ returns r v → Move w v

pub walks :
    {S A : Type 0} {Move : World S → World S → Type 0} {m : M S A}
    → Walks Move m
    → (w : World S) → Row Move w (final (m w))
walks h w = (h.keeps w).at w none

-- One move.
pub Walks-move :
    {S A : Type 0} {Move : World S → World S → Type 0} {m : M S A}
    → ((w : World S) → Move w (final (m w)))
    → Walks Move m
Walks-move h = record { keeps = λ w. record { at = λ v t. more t (h v) } }

module _ {S : Type 0} {Move : World S → World S → Type 0} where
  pub Walks-bind :
      {A B : Type 0} {m : M S A} {f : A → M S B}
      → Walks Move m
      → ((a : A) → Walks Move (f a))
      → Walks Move (m >>= f)
  Walks-bind h k = record { keeps = λ w. Keeps-bind _ (h.keeps w) (λ a. (k a).keeps w) }

  pub Walks-seq :
      {B : Type 0} {m : M S (Unit {0})} {k : M S B}
      → Walks Move m
      → Walks Move k
      → Walks Move (m >> k)
  Walks-seq h k = record { keeps = λ w. Keeps-seq _ (h.keeps w) (k.keeps w) }

  pub Walks-pure : {A : Type 0} (a : A) → Walks Move (pure a)
  Walks-pure a = record { keeps = λ w. Keeps-pure _ a }

  pub Walks-stop : {A : Type 0} (h : Halt) → Walks {A = A} Move (stop h)
  Walks-stop h = record { keeps = λ w. Keeps-stop _ h }

  pub Walks-get : Walks Move get
  Walks-get = record { keeps = λ w. Keeps-get _ }

  pub Walks-assert : (b : Bool) → Walks Move (assert b)
  Walks-assert b = record { keeps = λ w. Keeps-assert _ b }

  pub Walks-ok_or_exit : (i : Outcome) → Walks Move (ok_or_exit i)
  Walks-ok_or_exit i = record { keeps = λ w. Keeps-ok_or_exit _ i }

  pub Walks-ok_or_abort : (i : Outcome) → Walks Move (ok_or_abort i)
  Walks-ok_or_abort i = record { keeps = λ w. Keeps-ok_or_abort _ i }

  pub Walks-zero_or_exit : (i : Outcome) → Walks Move (zero_or_exit i)
  Walks-zero_or_exit (ok zero) = Walks-pure tt
  Walks-zero_or_exit (ok (suc n)) = Walks-stop _
  Walks-zero_or_exit (error e) = Walks-stop _

  pub Walks-if :
      {A : Type 0} (b : Bool) {m n : M S A}
      → Walks Move m
      → Walks Move n
      → Walks Move (if b then m else n)
  Walks-if true h k = h
  Walks-if false h k = k

  pub Walks-outcome :
      {A : Type 0} (i : Outcome) {f g : ℕ → M S A}
      → ((n : ℕ) → Walks Move (f n))
      → ((e : ℕ) → Walks Move (g e))
      → Walks Move (elim i [ ok n ↦ f n | error e ↦ g e ])
  Walks-outcome (ok n) h k = h n
  Walks-outcome (error e) h k = k e

  pub Walks-loop : {body : M S Bool} → Walks Move body → Walks Move (loop body)
  Walks-loop {body} h = record { keeps = λ w. Keeps-loop _ body (h.keeps w) }

  pub Walks-for_each :
      {A : Type 0} (xs : List A) (body : A → M S (Unit {0}))
      → ((a : A) → Walks Move (body a))
      → Walks Move (for_each xs body)
  unfolding for_each
  Walks-for_each [] body h = Walks-pure tt
  Walks-for_each (a ∷ xs) body h = Walks-seq (h a) (Walks-for_each xs body h)

module _ {S : Type 0} {Move : World S → World S → Type 0} (calls : Calls Move) where
  answer-Row :
      (w : World S) (c : Call) (v : World S) (script : List Reply)
      → v.script ≡ script
      → Row Move w v
      → Row Move w (final (answer c v script))
  unfolding syscall
  answer-Row w c v [] e t = t
  answer-Row w c v (r ∷ rest) e t = more t (calls c (fit c r) v _ (ap (answer c v) e))

  pub Walks-syscall : (c : Call) → Walks Move (syscall c)
  unfolding syscall
  Walks-syscall c = record { keeps = λ w. record { at = λ v t. answer-Row w c v v.script refl t } }

  pub Walks-run_call : (c : Call) → Walks Move (run_call c)
  Walks-run_call c = Walks-bind (Walks-syscall c) (λ r. Walks-pure tt)

  -- The helpers of Net.
  pub Walks-set_nonblock : (fd : ℕ) → Walks Move (set_nonblock fd)
  unfolding set_nonblock
  Walks-set_nonblock fd = Walks-bind (Walks-syscall _) (λ r. Walks-run_call _)

  Walks-set_option : (option : Opt) (fd : ℕ) (on : Bool) → Walks Move (set_option option fd on)
  unfolding set_option
  Walks-set_option option fd on =
      Walks-bind (Walks-syscall _)
        λ r. Walks-bind (Walks-ok_or_exit (result r)) (λ n. Walks-pure tt)

  pub Walks-set_tcp_no_delay : (fd : ℕ) (on : Bool) → Walks Move (set_tcp_no_delay fd on)
  unfolding set_tcp_no_delay
  Walks-set_tcp_no_delay fd on = Walks-set_option _ fd on

  pub Walks-epoll_ctl_add : (epoll_fd fd event : ℕ) → Walks Move (epoll_ctl_add epoll_fd fd event)
  unfolding epoll_ctl_add
  Walks-epoll_ctl_add epoll_fd fd event =
      Walks-bind (Walks-syscall _) (λ r. Walks-zero_or_exit (result r))

  pub Walks-close_connect : (epoll_fd fd : ℕ) → Walks Move (close_connect epoll_fd fd)
  unfolding close_connect
  Walks-close_connect epoll_fd fd =
      Walks-bind (Walks-syscall _) λ r. Walks-seq (Walks-zero_or_exit (result r)) (Walks-run_call _)

  pub Walks-get_listen_fd : (port backlog : ℕ) → Walks Move (get_listen_fd port backlog)
  unfolding get_listen_fd set_reuse_addr
  Walks-get_listen_fd port backlog = Walks-bind (Walks-syscall _) λ s.
      Walks-bind (Walks-ok_or_abort (result s)) λ fd. Walks-seq (Walks-set_option _ fd true) (
        Walks-bind (Walks-syscall _) λ b. Walks-bind (Walks-ok_or_abort (result b)) λ bound.
          Walks-bind (Walks-syscall _)
            λ l. Walks-bind (Walks-ok_or_abort (result l)) λ listening. Walks-pure fd)
