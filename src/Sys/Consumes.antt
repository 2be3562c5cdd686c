-- ===== src/Sys/Consumes.antt =====
-- How many replies a program takes, and why no loop uses up its fuel.
use gra_project.Base.{
  ◌≡◌, if◌then◌else◌, ℕ, zero, suc, ◌+◌, ◌≤◌, ◌<◌, ◌≢◌, Bool, true, false, List, [], ◌∷◌, arith,
  length,
}
use gra_project.Sys.{
  Call, Reply, Outcome, ok, error, Halt, exited, unfinished, World, Run, returns, halts, M,
  and_then, ◌>>=◌, ◌>>◌, pure, stop, get, modify, assert, answer, syscall, ok_or_exit, ok_or_abort,
}
use gra_project.Sys.Loop.{repeat, loop, for_each, for_range}

-- A run that began with `n` replies at hand leaves at most `n - k`, and does not run out of fuel.
abbrev pub Leaves : {S A : Type 0} → ℕ → ℕ → Run S A → Type 0
Leaves k n (returns a w) = k + length w.script ≤ n
Leaves k n (halts h w) = h ≢ unfinished

-- The program takes at least `k` replies before it returns.
pub record Takes {S A : Type 0} (k : ℕ) (m : M S A) : Type 0 where
  pub at : (w : World S) → Leaves k (length w.script) (m w)

module _ {S : Type 0} where
  Leaves-and_then :
      {A B : Type 0} (j k n : ℕ) (r : Run S A) (f : A → M S B)
      → Leaves j n r
      → ((a : A) → Takes k (f a))
      → Leaves (j + k) n (and_then r f)
  Leaves-and_then j k n (returns a w) f h t = Leaves-mono (f a w) ((t a).at w)
    where
      Leaves-mono : {B : Type 0} (r : Run S B) → Leaves k (length w.script) r → Leaves (j + k) n r
      Leaves-mono (returns b v) l = omega arith
      Leaves-mono (halts e v) l = l
  Leaves-and_then j k n (halts e w) f h t = h

  pub Takes-bind :
      {A B : Type 0} {m : M S A} {f : A → M S B} (j k : ℕ)
      → Takes j m
      → ((a : A) → Takes k (f a))
      → Takes (j + k) (m >>= f)
  Takes-bind {m} {f} j k h t = record {
    at = λ w. Leaves-and_then j k (length w.script) (m w) f (h.at w) t;
  }

  pub Takes-seq :
      {B : Type 0} {m : M S (Unit {0})} {g : M S B} (j k : ℕ)
      → Takes j m
      → Takes k g
      → Takes (j + k) (m >> g)
  Takes-seq {m} {g} j k h t = record {
    at = λ w. Leaves-and_then j k (length w.script) (m w) (λ _. g) (h.at w) (λ _. t);
  }

  Leaves-weaken : {A : Type 0} {j k : ℕ} (n : ℕ) (r : Run S A) → k ≤ j → Leaves j n r → Leaves k n r
  Leaves-weaken n (returns a w) h l = omega arith
  Leaves-weaken n (halts e w) h l = l

  pub Takes-weaken : {A : Type 0} {m : M S A} {j k : ℕ} → Takes j m → k ≤ j → Takes k m
  Takes-weaken {m} t h = record { at = λ w. Leaves-weaken (length w.script) (m w) h (t.at w) }

  -- A first step that takes nothing less than the whole needs.
  pub Takes-first :
      {A B : Type 0} {m : M S A} {f : A → M S B} {k : ℕ}
      → Takes k m
      → ((a : A) → Takes 0 (f a))
      → Takes k (m >>= f)
  Takes-first {k} h t = Takes-weaken (Takes-bind k 0 h t) (omega arith)

  pub Takes-later :
      {A B : Type 0} {m : M S A} {f : A → M S B} {k : ℕ}
      → Takes 0 m
      → ((a : A) → Takes k (f a))
      → Takes k (m >>= f)
  Takes-later {k} h t = Takes-weaken (Takes-bind 0 k h t) (omega arith)

  pub Takes-seq_first :
      {B : Type 0} {m : M S (Unit {0})} {g : M S B} {k : ℕ}
      → Takes k m
      → Takes 0 g
      → Takes k (m >> g)
  Takes-seq_first {k} h t = Takes-weaken (Takes-seq k 0 h t) (omega arith)

  pub Takes-seq_later :
      {B : Type 0} {m : M S (Unit {0})} {g : M S B} {k : ℕ}
      → Takes 0 m
      → Takes k g
      → Takes k (m >> g)
  Takes-seq_later {k} h t = Takes-weaken (Takes-seq 0 k h t) (omega arith)

  pub Takes-pure : {A : Type 0} (a : A) → Takes 0 (pure {S = S} a)
  Takes-pure a = record { at = λ w. omega arith }

  pub Takes-stop :
      {A : Type 0} (k : ℕ) (h : Halt) → h ≢ unfinished → Takes {S = S} {A = A} k (stop h)
  Takes-stop k h e = record { at = λ w. e }

  pub Takes-exit : {A : Type 0} (k n : ℕ) → Takes {S = S} {A = A} k (stop (exited n))
  Takes-exit k n = Takes-stop k _ (λ e. cc)

  pub Takes-get : Takes {S = S} 0 get
  Takes-get = record { at = λ w. omega arith }

  pub Takes-modify : (f : S → S) → Takes {S = S} 0 (modify f)
  Takes-modify f = record { at = λ w. omega arith }

  pub Takes-assert : (b : Bool) → Takes {S = S} 0 (assert b)
  Takes-assert true = Takes-pure tt
  Takes-assert false = Takes-stop 0 _ (λ e. cc)

  pub Takes-ok_or_exit : (i : Outcome) → Takes {S = S} 0 (ok_or_exit i)
  Takes-ok_or_exit (ok n) = Takes-pure n
  Takes-ok_or_exit (error e) = Takes-exit 0 1

  pub Takes-ok_or_abort : (i : Outcome) → Takes {S = S} 0 (ok_or_abort i)
  Takes-ok_or_abort (ok n) = Takes-pure n
  Takes-ok_or_abort (error e) = Takes-stop 0 _ (λ e. cc)

  Leaves-answer :
      (c : Call) (w : World S) (script : List Reply) → Leaves 1 (length script) (answer c w script)
  Leaves-answer c w [] = λ e. cc
  Leaves-answer c w (r ∷ rest) = omega arith

  -- A call takes one reply.
  pub Takes-syscall : (c : Call) → Takes {S = S} 1 (syscall c)
  unfolding syscall
  Takes-syscall c = record { at = λ w. Leaves-answer c w w.script }

  Leaves-repeat :
      (fuel : ℕ) (body : M S Bool) (w : World S)
      → Takes 1 body
      → length w.script < fuel
      → Leaves 1 (length w.script) (repeat fuel body w)
  unfolding repeat
  Leaves-repeat zero body w t h = absurd (omega arith)
  Leaves-repeat (suc fuel) body w t h =
      turn (body w) (t.at w) (λ v l. Leaves-repeat fuel body v t l)
    where
      turn :
          (r : Run S Bool)
          → Leaves 1 (length w.script) r
          → ((v : World S)
              → length v.script < fuel
              → Leaves 1 (length v.script) (repeat fuel body v))
          → Leaves 1
              (length w.script)
              (and_then r (λ more. elim more [ true ↦ repeat fuel body | false ↦ pure tt ]))
      turn (returns true v) l rest =
          Leaves-trans (repeat fuel body v) (omega arith) (rest v (omega arith))
        where
          Leaves-trans :
              (r : Run S (Unit {0}))
              → length v.script < length w.script
              → Leaves 1 (length v.script) r
              → Leaves 1 (length w.script) r
          Leaves-trans (returns b u) h l = omega arith
          Leaves-trans (halts e u) h l = l
      turn (returns false v) l rest = l
      turn (halts e v) l rest = l

  -- A loop whose body makes a call in every turn ends, or halts, with fuel left.
  pub Takes-loop : {body : M S Bool} → Takes 1 body → Takes 1 (loop body)
  unfolding loop
  Takes-loop {body} t = record {
    at = λ w. Leaves-repeat (suc (length w.script)) body w t (omega arith);
  }

  pub Takes-for_each :
      {A : Type 0} (xs : List A) (body : A → M S (Unit {0}))
      → ((a : A) → Takes 0 (body a))
      → Takes 0 (for_each xs body)
  unfolding for_each
  Takes-for_each [] body h = Takes-pure tt
  Takes-for_each (a ∷ xs) body h = Takes-seq_first (h a) (Takes-for_each xs body h)

  pub Takes-for_range :
      (n i : ℕ) (body : ℕ → M S (Unit {0}))
      → ((i : ℕ) → Takes 0 (body i))
      → Takes 0 (for_range n i body)
  unfolding for_range
  Takes-for_range zero i body h = Takes-pure tt
  Takes-for_range (suc n) i body h = Takes-seq_first (h i) (Takes-for_range n (suc i) body h)

-- Both branches of a test.
pub Takes-if :
    {S A : Type 0} {k : ℕ} {m n : M S A} (b : Bool)
    → Takes k m
    → Takes k n
    → Takes k (if b then m else n)
Takes-if true h g = h
Takes-if false h g = g

-- Both outcomes of a call.
pub Takes-Outcome :
    {S A : Type 0} {k : ℕ} {m n : ℕ → M S A} (i : Outcome)
    → ((x : ℕ) → Takes k (m x))
    → ((x : ℕ) → Takes k (n x))
    → Takes k (elim i [ ok x ↦ m x | error x ↦ n x ])
Takes-Outcome (ok x) h g = h x
Takes-Outcome (error x) h g = g x

-- As `Leaves 0`, and at least one reply less where the body of a loop says to go on.
abbrev pub LeavesMore : {S : Type 0} → ℕ → Run S Bool → Type 0
LeavesMore n (returns true w) = 1 + length w.script ≤ n
LeavesMore n (returns false w) = length w.script ≤ n
LeavesMore n (halts h w) = h ≢ unfinished

-- The body of a loop that takes a reply in each turn but the last.
pub record Advances {S : Type 0} (body : M S Bool) : Type 0 where
  pub at : (w : World S) → LeavesMore (length w.script) (body w)

module _ {S : Type 0} where
  Leaves→LeavesMore : (n : ℕ) (r : Run S Bool) → Leaves 1 n r → LeavesMore n r
  Leaves→LeavesMore n (returns true w) l = l
  Leaves→LeavesMore n (returns false w) l = omega arith
  Leaves→LeavesMore n (halts h w) l = l

  pub Advances-Takes : {body : M S Bool} → Takes 1 body → Advances body
  Advances-Takes {body} t = record {
    at = λ w. Leaves→LeavesMore (length w.script) (body w) (t.at w);
  }

  pub Advances-last : Advances (pure {S = S} false)
  Advances-last = record { at = λ w. omega arith }

  pub Advances-get : {f : S → M S Bool} → ((s : S) → Advances (f s)) → Advances (get >>= f)
  Advances-get h = record { at = λ w. (h w.vars).at w }

  pub Advances-if :
      (b : Bool) {m n : M S Bool} → Advances m → Advances n → Advances (if b then m else n)
  Advances-if true h g = h
  Advances-if false h g = g

  LeavesMore-repeat :
      (fuel : ℕ) (body : M S Bool) (w : World S)
      → Advances body
      → length w.script < fuel
      → Leaves 0 (length w.script) (repeat fuel body w)
  unfolding repeat
  LeavesMore-repeat zero body w t h = absurd (omega arith)
  LeavesMore-repeat (suc fuel) body w t h =
      turn (body w) (t.at w) (λ v l. LeavesMore-repeat fuel body v t l)
    where
      turn :
          (r : Run S Bool)
          → LeavesMore (length w.script) r
          → ((v : World S)
              → length v.script < fuel
              → Leaves 0 (length v.script) (repeat fuel body v))
          → Leaves 0
              (length w.script)
              (and_then r (λ more. elim more [ true ↦ repeat fuel body | false ↦ pure tt ]))
      turn (returns true v) l rest = trans (repeat fuel body v) (rest v (omega arith))
        where
          trans :
              (r : Run S (Unit {0})) → Leaves 0 (length v.script) r → Leaves 0 (length w.script) r
          trans (returns b u) k = omega arith
          trans (halts e u) k = k
      turn (returns false v) l rest = omega arith
      turn (halts e v) l rest = l

  pub Takes-loop-Advances : {body : M S Bool} → Advances body → Takes 0 (loop body)
  unfolding loop
  Takes-loop-Advances {body} t = record {
    at = λ w. LeavesMore-repeat (suc (length w.script)) body w t (omega arith);
  }

Leaves-unfinished :
    {S A : Type 0} (k n : ℕ) (r : Run S A) (v : World S) → Leaves k n r → ¬ (r ≡ halts unfinished v)
Leaves-unfinished k n (returns a w) v l e = cc
Leaves-unfinished k n (halts h w) v l e = l cc

-- A program that takes replies never runs out of fuel.
pub Takes-finishes :
    {S A : Type 0} {m : M S A} {k : ℕ} → Takes k m → (w v : World S) → ¬ (m w ≡ halts unfinished v)
Takes-finishes {m} {k} t w v = Leaves-unfinished k (length w.script) (m w) v (t.at w)
