-- ===== src/Load/Bounds.antt =====
-- procmon/load_test.cc: how much the writes ask for, against the size of the buffer.
use gra_project.Base.{
  ℕ, suc, ◌^◌, ◌%◌, ◌∙◌, ◌++◌, map, length, ◌+◌, ◌≡◌, ◌<◌, ◌≤◌, refl, sym, subst, ap, Bool, true,
  false, not, ◌&&◌, if◌then◌else◌, List, [], ◌∷◌, arith,
}
use gra_project.Sys.{
  Call, write_same, open_file, ok_or_exit, lseek, usleep, Reply, failed, Outcome, ok, error, result,
  written, Trace, World, Run, and_then, returns, halts, final, M, ◌>>=◌, ◌>>◌, pure, get, modify,
  syscall,
}
use gra_project.Sys.Loop.{for_range}
use gra_project.Sys.Hoare.{
  Post, Hoare, Hoare-bind, Hoare-seq, Hoare-syscall, Hoare-modify, Hoare-pure, Hoare-loop,
  Hoare-stop,
}
use gra_project.Load.{len, Vars, is_positive, left_after, write_turn, write_round, main}

-- Whether the call is a write that fails.
abbrev is_failure : Call → Reply → Bool
is_failure (write_same fd count) r = elim (result r) [ ok n ↦ false | error e ↦ true ]
is_failure _ r = false

-- No write has failed.
abbrev pub healthy : Trace → Bool
healthy [] = true
healthy ((c, r) ∷ trace) = not (is_failure c r) && healthy trace

-- A write, after nothing but good writes, asks for a part of the buffer.
abbrev IsPart : Call → Bool → Type 0
IsPart (write_same fd count) true = (0 < count) × (count ≤ len)
IsPart _ _ = Unit

abbrev pub InBuffer : Trace → Type 0
InBuffer [] = Unit
InBuffer ((c, r) ∷ trace) = IsPart c (healthy trace) × InBuffer trace

abbrev On : World Vars → Type 0
On w = InBuffer w.trace

-- Within a round.
abbrev Within : World Vars → Type 0
Within w = On w × (healthy w.trace ≡ true → w.vars.left ≤ len)

-- A call that is no write.
abbrev IsOther : Call → Type 0
IsOther c = (b : Bool) → IsPart c b

On-call :
    {A : Type 0} {f : Reply → M Vars A} (c : Call)
    → IsOther c
    → ((r : Reply) → Hoare On (f r) (λ _. On) (λ h. On))
    → Hoare On (syscall c >>= f) (λ _. On) (λ h. On)
On-call c o h =
    Hoare-bind {R = λ _. On}
      (Hoare-syscall c (λ w p e. p) (λ w r rest p e. (o (healthy w.trace), p))) h

is_positive-lt : (l : ℕ) → is_positive l ≡ true → 0 < l
is_positive-lt l e = ground arith

-- What a write leaves of a part of the buffer.
left_after-le :
    (l : ℕ) (o : Outcome)
    → l ≤ len
    → elim o [ ok n ↦ false | error e ↦ true ] ≡ false
    → left_after (result (written l o)) l ≤ len
unfolding left_after
left_after-le l (ok n) h e = grind arith
left_after-le l (error x) h e = cc

-- A write of a part of the buffer, or after a failure.
write_step :
    (fd l : ℕ) (r : Reply) (trace : Trace)
    → is_positive l ≡ true
    → InBuffer trace
    → (healthy trace ≡ true → l ≤ len)
    → InBuffer ((write_same fd l, written l (result r)) ∷ trace)
      × (healthy ((write_same fd l, written l (result r)) ∷ trace) ≡ true
          → left_after (result (written l (result r))) l ≤ len)
write_step fd l r trace q h k = step (healthy trace) refl (result r)
  where
    step :
        (b : Bool)
        → healthy trace ≡ b
        → (o : Outcome)
        → (IsPart (write_same fd l) (healthy trace) × InBuffer trace)
          × (not (is_failure (write_same fd l) (written l o)) && healthy trace ≡ true
              → left_after (result (written l o)) l ≤ len)
    step true e (ok n) =
        rw e (((is_positive-lt l q, k e), h), λ g. left_after-le l (ok n) (k e) refl)
    step true e (error x) = rw e (((is_positive-lt l q, k e), h), λ g. cc)
    step false e (ok n) = rw e ((tt, h), λ g. cc)
    step false e (error x) = rw e ((tt, h), λ g. cc)

Within-write_turn :
    (fd : ℕ) → Hoare Within (write_turn fd) (λ more. if more then Within else On) (λ h. On)
unfolding write_turn
Within-write_turn fd =
    Hoare-bind {R = λ s w. (s ≡ w.vars) × Within w} {m = get} (record { at = λ w p. (refl, p) })
      λ s. choose s (is_positive s.left) refl
  where
    choose :
        (s : Vars) (b : Bool)
        → is_positive s.left ≡ b
        → Hoare
            (λ w. (s ≡ w.vars) × Within w)
            (if b
              then (do
                r ← syscall (write_same fd s.left)
                modify (λ s. record s { left = left_after (result r) s.left })
                pure true)
              else pure false)
            (λ more. if more then Within else On)
            (λ h. On)
    choose s true q =
        Hoare-bind
          {R = λ r w. On w × (healthy w.trace ≡ true → left_after (result r) w.vars.left ≤ len)}
          (Hoare-syscall (write_same fd s.left) (λ w p e. p.1.0)
            (λ w r rest p e.
              let same : w.vars.left ≡ s.left = sym (ap (λ v. v.left) p.0) in
              rw same (
                write_step fd s.left r w.trace q p.1.0
                  (subst (λ l. healthy w.trace ≡ true → l ≤ len) same p.1.1))))
          λ r. Hoare-seq {R = Within} (Hoare-modify _ (λ w p. p)) (Hoare-pure true (λ w p. p))
    choose s false q = Hoare-pure false (λ w p. p.1.0)

On-write_round : (fd : ℕ) → Hoare On (write_round fd) (λ _. On) (λ h. On)
unfolding write_round
On-write_round fd = Hoare-seq {R = Within} (Hoare-modify _ (λ w p. (p, λ h. omega arith))) (
    Hoare-seq {R = On} (Hoare-loop (write_turn fd) (λ w p. p.0) (Within-write_turn fd)) (
      Hoare-seq {R = On} (On-call (lseek fd 0) (λ b. tt) (λ r. Hoare-pure tt (λ w p. p)))
        (On-call (usleep 10000) (λ b. tt) (λ r. Hoare-pure tt (λ w p. p)))))

On-ok_or_exit : (o : Outcome) → Hoare On (ok_or_exit o) (λ _. On) (λ h. On)
On-ok_or_exit (ok n) = Hoare-pure n (λ w p. p)
On-ok_or_exit (error e) = Hoare-stop _ (λ w p. p)

On-main : Hoare On main (λ _. On) (λ h. On)
unfolding main
On-main =
    On-call (open_file _) (λ b. tt)
      λ r. Hoare-bind {R = λ _. On} (On-ok_or_exit (result r)) λ fd.
        Hoare-loop {P = On} {Q = On} _ (λ w p. p)
          (Hoare-seq {R = On} (On-write_round fd) (Hoare-pure true (λ w p. p)))

On-final : (r : Run Vars (Unit {0})) → Post (λ _. On) (λ h. On) r → On (final r)
On-final (returns a w) p = p
On-final (halts h w) p = p

-- Whatever the kernel replies, each write before which no write has failed asks for at
-- least one byte, and for no more than the buffer has.
pub main-InBuffer : (w : World Vars) → w.trace ≡ [] → InBuffer (final (main w)).trace
main-InBuffer w e = On-final (main w) (On-main.at w (rw e tt))

-- A number of turns of the loop that writes.
abbrev pub turns : ℕ → ℕ → M Vars (Unit {0})
turns fd n = for_range n 0 (λ i. write_turn fd >>= (λ more. pure tt))

lt-is_positive : (l : ℕ) → 0 < l → l < 2 ^ 63 → is_positive l ≡ true
lt-is_positive l h k = ground arith

write_turn_lem :
    (fd l : ℕ) (r : Reply) (rest : List Reply) (w : World Vars)
    → 0 < l
    → l < 2 ^ 63
    → w.vars.left ≡ l
    → w.script ≡ r ∷ rest
    → write_turn fd w
      ≡ returns true (record {
        vars = record { left = left_after (result (written l (result r))) l };
        script = rest;
        trace = (write_same fd l, written l (result r)) ∷ w.trace;
      })
unfolding write_turn syscall
write_turn_lem fd l r rest w h k e q = simp (e, q, lt-is_positive l h k)

fails_lem :
    (fd l i : ℕ) (es : List ℕ) (rest : List Reply) (w : World Vars)
    → 0 < l
    → l + length es < 2 ^ 63
    → w.vars.left ≡ l
    → w.script ≡ map failed es ++ rest
    → (v : World Vars) × (for_range (length es) i (λ i. write_turn fd >>= (λ more. pure tt)) w
        ≡ returns tt v)
      × (v.vars.left ≡ l + length es)
      × (v.script ≡ rest)
unfolding for_range left_after
fails_lem fd l i [] rest w h k e q = (w, refl, e ∙ omega arith, q)
fails_lem fd l i (x ∷ es) rest w h k e q =
    let u : World Vars = record {
      vars = record { left = (l + 1) % 2 ^ 64 };
      script = map failed es ++ rest;
      trace = (write_same fd l, failed x) ∷ w.trace;
    } in
    let t = write_turn_lem fd l (failed x) (map failed es ++ rest) w h (omega (arith, k)) e q in
    let (v, s, left, script) =
      fails_lem fd (l + 1) (suc i) es rest u (omega arith) (omega (arith, k)) (omega (arith, k))
        refl in
    (
      v,
      ap
            (λ r.
              and_then (and_then r (λ more. pure tt))
                (λ _. for_range (length es) (suc i) (λ i. write_turn fd >>= (λ more. pure tt))))
            t
          ∙ s,
      left ∙ omega arith,
      script,
    )

-- When writes fail from the start of a round on, any number of them in a row that keeps `l` below
-- 2^63, the next write asks for as many bytes more than the buffer has as writes have failed.
pub failed_writes_overrun :
    (fd : ℕ) (es : List ℕ) (r : Reply) (rest : List Reply) (w : World Vars)
    → len + length es < 2 ^ 63
    → w.vars.left ≡ len
    → w.script ≡ map failed es ++ (r ∷ rest)
    → let asked = len + length es in
      (v : World Vars) × (turns fd (length es) w ≡ returns tt v)
      × (write_turn fd v
          ≡ returns true (record {
            vars = record { left = left_after (result (written asked (result r))) asked };
            script = rest;
            trace = (write_same fd asked, written asked (result r)) ∷ v.trace;
          }))
failed_writes_overrun fd es r rest w k e q =
    let (v, s, left, script) = fails_lem fd len 0 es (r ∷ rest) w (omega arith) k e q in
    (v, s, write_turn_lem fd (len + length es) r rest v (omega arith) k left script)
