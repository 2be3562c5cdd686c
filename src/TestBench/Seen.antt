-- ===== src/TestBench/Seen.antt =====
-- test_bench/someip_bench/test_bench.c: what the calls of a client show of its answers and their times.
use gra_project.Base.{
  ℕ, suc, ◌+◌, ◌%◌, ◌^◌, ◌≡◌, subst, sym, Bool, true, false, ◌&&◌, Option, none, some, [], ◌∷◌,
}
use gra_project.Sys.{Call, read, close, clock, Reply, result, stored, Trace, World, M, syscall, fit}
use gra_project.Sys.Hoare.{Hoare, Hoare-syscall}
use gra_project.Bench.Core.{is_result, is_full, is_answer}
use gra_project.TestBench.Client.{Tally, time_of, elapsed}

-- What one who watches the calls of a client knows: the last two looks at the clock, whether a right
-- answer has been read and not closed since, how many were closed well, and the sum of their times.
pub record Watch : Type 0 where
  pub before : ℕ
  pub last : ℕ
  pub right : Bool
  pub answered : ℕ
  pub sum : ℕ

abbrev pub nothing : Watch
nothing = record { before = 0; last = 0; right = false; answered = 0; sum = 0 }

abbrev pub credit : Bool → Watch → Watch
credit true w = record w {
  right = false;
  answered = suc w.answered;
  sum = (w.sum + elapsed w.last w.before) % 2 ^ 64;
}
credit false w = record w { right = false }

abbrev pub see : Call → Reply → Watch → Watch
see clock r w = record w { before = w.last; last = time_of (result r) }
see (read fd n) r w = record w { right = is_full (result r) && is_answer (stored r) }
see (close fd) r w = credit (w.right && is_result 0 (result r)) w
see _ r w = w

abbrev pub watch : Trace → Watch
watch [] = nothing
watch ((c, r) ∷ trace) = see c r (watch trace)

-- What is true wherever a run ends.
pub record Fair (s : Tally) (k : Watch) : Type 0 where
  pub speed : s.speed ≡ k.answered
  pub diff : s.diff ≡ k.sum

-- Whether a right answer has been read and not closed.
pub record Waits (b : Bool) (s : Tally) (k : Watch) : Type 0 where
  pub fair : Fair s k
  pub right : k.right ≡ b

-- When the clock was last looked at, and below, the time before as well.
pub record Started (b : Bool) (start : ℕ) (s : Tally) (k : Watch) : Type 0 where
  pub waits : Waits b s k
  pub last : k.last ≡ start

pub record Timed (b : Bool) (start end : ℕ) (s : Tally) (k : Watch) : Type 0 where
  pub waits : Waits b s k
  pub before : k.before ≡ start
  pub last : k.last ≡ end

-- An answer is closed, and not counted yet.
pub record Due (time : ℕ) (s : Tally) (k : Watch) : Type 0 where
  pub speed : suc s.speed ≡ k.answered
  pub diff : (s.diff + time) % 2 ^ 64 ≡ k.sum
  pub right : k.right ≡ false

abbrev pub Owes : Option ℕ → Tally → Watch → Type 0
Owes none = Waits false
Owes (some time) = Due time

abbrev pub On : (Tally → Watch → Type 0) → World Tally → Type 0
On K w = K w.vars (watch w.trace)

-- A program from `K` that ends in `L`, and in a fair world when it waits.
abbrev pub Goes :
    {A : Type 0} → (Tally → Watch → Type 0) → M Tally A → (A → Tally → Watch → Type 0) → Type 0
Goes K m L = Hoare (On K) m (λ a. On (L a)) (λ h. On Fair)

-- Whoever knows `K` knows that the world is fair.
abbrev pub Knows : (Tally → Watch → Type 0) → Type 0
Knows K = (s : Tally) (k : Watch) → K s k → Fair s k

pub Waits-Fair : (b : Bool) → Knows (Waits b)
Waits-Fair b s k p = p.fair

-- A call with what it shows.
pub Goes-syscall :
    (K : Tally → Watch → Type 0) (L : Reply → Tally → Watch → Type 0) (c : Call)
    → Knows K
    → ((r : Reply) (s : Tally) (k : Watch) → K s k → L (fit c r) s (see c (fit c r) k))
    → Goes K (syscall c) L
Goes-syscall K L c known h =
    Hoare-syscall c (λ w p e. known w.vars (watch w.trace) p)
      (λ w r rest p e. h r w.vars (watch w.trace) p)

-- A call that shows nothing.
pub Goes-quiet :
    (K : Tally → Watch → Type 0) (c : Call)
    → Knows K
    → ((r : Reply) (k : Watch) → see c r k ≡ k)
    → Goes K (syscall c) (λ r. K)
Goes-quiet K c known q =
    Goes-syscall K (λ r. K) c known (λ r s k p. subst (K s) (sym (q (fit c r) k)) p)
