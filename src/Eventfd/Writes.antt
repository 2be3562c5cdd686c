-- ===== src/Eventfd/Writes.antt =====
-- eventfd_test/epollexclusive_exp.cc: the numbers that `main` writes.
use gra_project.Base.{
  ℕ, zero, suc, ◌+◌, ◌*◌, ◌^◌, ◌≡◌, ◌<◌, ◌≤◌, refl, sym, ap, ◌∙◌, List, [], ◌∷◌, length, arith,
}
use gra_project.Sys.{
  Call, Reply, eventfd, sleep, usleep, getchar, write, fit, Trace, World, returns, result, bits, M,
  and_then, ◌>>=◌, ◌>>◌, pure, answer, syscall, run_call,
}
use gra_project.Sys.Loop.{for_range}
use gra_project.Wire.{int_bytes, int_at}
use gra_project.Eventfd.{Vars, long_bytes, long_at, write_number, main}

long_at-long_bytes : (n : ℕ) → n < 2 ^ 64 → long_at (long_bytes n) ≡ n
unfolding long_at long_bytes int_bytes int_at
long_at-long_bytes n h = omega arith

-- The numbers written, newest first.
abbrev pub numbers : Trace → List ℕ
numbers [] = []
numbers ((write fd bytes, r) ∷ trace) = long_at bytes ∷ numbers trace
numbers (_ ∷ trace) = numbers trace

-- n - 1, n - 2, ..., 0
abbrev pub count_down : ℕ → List ℕ
count_down zero = []
count_down (suc n) = n ∷ count_down n

-- A call that finds a reply.
record Called {A : Type 0} (c : Call) (f : Reply → M Vars A) (w : World Vars) : Type 0 where
  reply : Reply
  behind : World Vars
  same : (syscall c >>= f) w ≡ f reply behind
  left : suc (length behind.script) ≡ length w.script
  trace : behind.trace ≡ (c, reply) ∷ w.trace

call_lem :
    {A : Type 0} (c : Call) (f : Reply → M Vars A) (w : World Vars)
    → 0 < length w.script
    → Called c f w
unfolding syscall
call_lem c f w h = take w.script refl
  where
    take : (script : List Reply) → w.script ≡ script → Called c f w
    take [] e = absurd (omega (arith, h, ap length e))
    take (r ∷ rest) e = record {
      reply = fit c r;
      behind = record { vars = w.vars; script = rest; trace = (c, fit c r) ∷ w.trace };
      same = ap (λ s. and_then (answer c w s) f) e;
      left = sym (ap length e);
      trace = refl;
    }

write_number_lem :
    (evfd i : ℕ) (w : World Vars)
    → i < 2 ^ 64
    → 2 ≤ length w.script
    → (v : World Vars) × (write_number evfd i w ≡ returns tt v)
      × (2 + length v.script ≡ length w.script)
      × (numbers v.trace ≡ i ∷ numbers w.trace)
unfolding write_number
write_number_lem evfd i w l h =
    let a = call_lem (write evfd (long_bytes i)) (λ r. pure tt) w (omega (arith, h)) in
    let b = call_lem (usleep 100000) (λ r. pure tt) a.behind (omega (arith, h, a.left)) in
    (
      b.behind,
      ap (λ r. and_then r (λ _. run_call (usleep 100000))) a.same ∙ b.same,
      omega (arith, a.left, b.left),
      ap numbers b.trace
          ∙ ap numbers a.trace
          ∙ ap (λ n. n ∷ numbers w.trace) (long_at-long_bytes i l),
    )

numbers_lem :
    (evfd n i : ℕ) (w : World Vars)
    → i + n < 2 ^ 64
    → 2 * n ≤ length w.script
    → numbers w.trace ≡ count_down i
    → (v : World Vars) × (for_range n i (write_number evfd) w ≡ returns tt v)
      × (2 * n + length v.script ≡ length w.script)
      × (numbers v.trace ≡ count_down (i + n))
unfolding for_range
numbers_lem evfd zero i w l h e = (w, refl, omega arith, e ∙ ap count_down (omega arith))
numbers_lem evfd (suc n) i w l h e =
    let (u, s, left, t) = write_number_lem evfd i w (omega (arith, l)) (omega (arith, h)) in
    let (v, s', left', t') =
      numbers_lem evfd n (suc i) u (omega (arith, l)) (omega (arith, h, left))
        (t ∙ ap (λ ns. i ∷ ns) e) in
    (
      v,
      ap (λ r. and_then r (λ _. for_range n (suc i) (write_number evfd))) s ∙ s',
      omega (arith, left, left'),
      t' ∙ ap count_down (omega arith),
    )

-- With 2003 replies at hand, whatever they are, `main` returns; the numbers that it has written are 0
-- to 999, in this order.
pub main_writes :
    (w : World Vars)
    → w.trace ≡ []
    → 2003 ≤ length w.script
    → (v : World Vars) × (main w ≡ returns tt v)
      × (2003 + length v.script ≡ length w.script)
      × (numbers v.trace ≡ count_down 1000)
unfolding main
main_writes w e h =
    let a =
      call_lem (eventfd 10)
        (λ r.
          run_call (sleep 3)
          >> (for_range 1000 0 (write_number (bits (result r))) >> run_call getchar))
        w (omega (arith, h)) in
    let evfd = bits (result a.reply) in
    let b = call_lem (sleep 3) (λ r. pure tt) a.behind (omega (arith, h, a.left)) in
    let (v, s, left, t) =
      numbers_lem evfd 1000 0 b.behind (omega arith) (omega (arith, h, a.left, b.left))
        (ap numbers b.trace ∙ ap numbers a.trace ∙ ap numbers e) in
    let c = call_lem getchar (λ r. pure tt) v (omega (arith, h, a.left, b.left, left)) in
    (
      c.behind,
      a.same
          ∙ ap (λ r. and_then r (λ _. for_range 1000 0 (write_number evfd) >> run_call getchar))
              b.same
          ∙ ap (λ r. and_then r (λ _. run_call getchar)) s
          ∙ c.same,
      omega (arith, a.left, b.left, left, c.left),
      ap numbers c.trace ∙ t,
    )
