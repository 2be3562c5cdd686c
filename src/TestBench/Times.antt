-- ===== src/TestBench/Times.antt =====
-- test_bench/someip_bench/test_bench.c: the times of a client against the calls that it made.
use gra_project.Base.{
  ℕ, suc, ◌≡◌, refl, subst, sym, ap, Bool, true, false, ◌&&◌, Option, none, some, List, [], arith,
  Bytes, if◌then◌else◌,
}
use gra_project.Sys.{
  Call, inet_addr, gethostbyname, socket, connect, write, shutdown, read, close, timer_expired,
  sigaction, alarm, clock, Reply, result, stored, World, Run, returns, halts, final, M, ◌>>=◌, pure,
  exited, syscall,
}
use gra_project.Sys.Hoare.{
  Hoare, Post, Hoare-bind, Hoare-seq, Hoare-modify, Hoare-pure, Hoare-stop, Hoare-weaken,
  Hoare-loop, Hoare-if, Hoare-Outcome,
}
use gra_project.Bench.Core.{someip_socket, connect_to, is_result, is_full, is_answer}
use gra_project.TestBench.Client.{
  Tally, time_of, now, elapsed, give_up, close_answered, read_answer, half_close, send_request,
  attempt, count, forgive, bench_turn, benchcore,
}
use gra_project.TestBench.Seen.{
  Watch, credit, see, watch, Fair, Waits, Started, Timed, Due, Owes, On, Goes, Waits-Fair,
  Goes-syscall, Goes-quiet,
}

Goes-now : (b : Bool) → Goes (Waits b) now (Started b)
unfolding now
Goes-now b =
    Hoare-bind
      (Goes-syscall (Waits b) (λ r. Started b (time_of (result r))) clock (Waits-Fair b)
        (λ r s k p. record {
          waits = record {
            fair = record { speed = p.fair.speed; diff = p.fair.diff };
            right = p.right;
          };
          last = refl;
        }))
      (λ r. Hoare-pure (time_of (result r)) (λ w p. p))

Goes-later : (b : Bool) (start : ℕ) → Goes (Started b start) now (Timed b start)
unfolding now
Goes-later b start =
    Hoare-bind
      (Goes-syscall (Started b start) (λ r. Timed b start (time_of (result r))) clock
        (λ s k p. p.waits.fair)
        (λ r s k p. record {
          waits = record {
            fair = record { speed = p.waits.fair.speed; diff = p.waits.fair.diff };
            right = p.waits.right;
          };
          before = p.last;
          last = refl;
        }))
      (λ r. Hoare-pure (time_of (result r)) (λ w p. p))

-- A close while no right answer is open.
credit-Waits :
    (x : Bool) (s : Tally) (k : Watch) → Waits false s k → Waits false s (credit (k.right && x) k)
credit-Waits x s k p =
    subst (λ b. Waits false s (credit (b && x) k)) (sym p.right)
      (record { fair = record { speed = p.fair.speed; diff = p.fair.diff }; right = refl })

Goes-give_up : (fd : ℕ) → Goes (Waits false) (give_up fd) Owes
unfolding give_up
Goes-give_up fd =
    Hoare-seq {R = On (Waits false)}
      (Hoare-bind {R = λ r. On (Waits false)}
        (Goes-syscall (Waits false) (λ r. Waits false) (close fd) (Waits-Fair false)
          (λ r. credit-Waits (is_result 0 (result r))))
        (λ r. Hoare-pure tt (λ w p. p)))
      (Hoare-pure none (λ w p. p))

credit-Due :
    (start end : ℕ) (x : Bool) (s : Tally) (k : Watch)
    → Timed true start end s k
    → Owes (if x then some (elapsed end start) else none) s (credit (k.right && x) k)
credit-Due start end true s k p =
    subst (λ b. Due (elapsed end start) s (credit (b && true) k)) (sym p.waits.right)
      (record {
        speed = ap suc p.waits.fair.speed;
        diff = rw (p.last, p.before, p.waits.fair.diff) refl;
        right = refl;
      })
credit-Due start end false s k p =
    subst (λ b. Waits false s (credit (b && false) k)) (sym p.waits.right)
      (record {
        fair = record { speed = p.waits.fair.speed; diff = p.waits.fair.diff };
        right = refl;
      })

Goes-close_answered :
    (fd start end : ℕ) → Goes (Timed true start end) (close_answered fd (elapsed end start)) Owes
unfolding close_answered
Goes-close_answered fd start end =
    Hoare-bind
      (Goes-syscall (Timed true start end)
        (λ r. Owes (if is_result 0 (result r) then some (elapsed end start) else none)) (close fd)
        (λ s k p. p.waits.fair) (λ r. credit-Due start end (is_result 0 (result r))))
      (λ r. Hoare-pure _ (λ w p. p))

-- What a look at the clock says does not matter to one who gives up.
Goes-give_up_started : (fd start : ℕ) → Goes (Started false start) (give_up fd) Owes
Goes-give_up_started fd start = Hoare-weaken (On (Waits false)) (λ w p. p.waits) (Goes-give_up fd)

after_read :
    (f a : Bool) (fd start : ℕ)
    → Goes
        (Started (f && a) start)
        (if f
          then (do end ← now; if a then close_answered fd (elapsed end start) else give_up fd)
          else give_up fd)
        Owes
after_read true true fd start = Hoare-bind (Goes-later true start) (Goes-close_answered fd start)
after_read true false fd start =
    Hoare-bind (Goes-later false start)
      λ end. Hoare-weaken (On (Waits false)) (λ w p. p.waits) (Goes-give_up fd)
after_read false a fd start = Goes-give_up_started fd start

Goes-read_answer : (fd start : ℕ) → Goes (Started false start) (read_answer fd start) Owes
unfolding read_answer
Goes-read_answer fd start =
    Hoare-bind
      (Goes-syscall (Started false start)
        (λ r. Started (is_full (result r) && is_answer (stored r)) start) (read fd 16)
        (λ s k p. p.waits.fair)
        (λ r s k p. record {
          waits = record {
            fair = record { speed = p.waits.fair.speed; diff = p.waits.fair.diff };
            right = refl;
          };
          last = p.last;
        }))
      (λ r. after_read (is_full (result r)) (is_answer (stored r)) fd start)

Goes-half_close : (fd start : ℕ) → Goes (Started false start) (half_close fd start) Owes
unfolding half_close
Goes-half_close fd start =
    Hoare-bind
      (Goes-quiet (Started false start) (shutdown fd) (λ s k p. p.waits.fair) (λ r k. refl))
      λ r.
        Hoare-if (is_result 0 (result r)) (Goes-read_answer fd start)
          (Goes-give_up_started fd start)

Goes-send_request : (fd : ℕ) (req : Bytes) → Goes (Waits false) (send_request fd req) Owes
unfolding send_request
Goes-send_request fd req =
    Hoare-bind (Goes-quiet (Waits false) (write fd _) (Waits-Fair false) (λ r k. refl)) λ r.
      Hoare-if (is_result 16 (result r)) (Hoare-bind (Goes-now false) (Goes-half_close fd))
        (Goes-give_up fd)

-- A call between two requests.
Idle-call :
    {A : Type 0} {f : Reply → M Tally A} {Q : A → World Tally → Type 0} (c : Call)
    → ((r : Reply) (k : Watch) → see c r k ≡ k)
    → ((r : Reply) → Hoare (On (Waits false)) (f r) Q (λ h. On Fair))
    → Hoare (On (Waits false)) (syscall c >>= f) Q (λ h. On Fair)
Idle-call c q h = Hoare-bind (Goes-quiet (Waits false) c (Waits-Fair false) q) h

-- A program of quiet calls.
abbrev Idles : {A : Type 0} → M Tally A → Type 0
Idles m = Hoare (On (Waits false)) m (λ a. On (Waits false)) (λ h. On Fair)

Idles-pure : {A : Type 0} (a : A) → Idles (pure a)
Idles-pure a = Hoare-pure a (λ w p. p)

Idles-connect_to : (address port : ℕ) → Idles (connect_to address port)
unfolding connect_to
Idles-connect_to address port =
    Idle-call socket (λ r k. refl)
      λ s.
        Hoare-Outcome (result s)
          (λ sock.
            Idle-call (connect sock port address) (λ r k. refl)
              λ r. Hoare-Outcome (result r) (λ n. Idles-pure _) (λ e. Idles-pure _))
          (λ e. Idles-pure _)

Idles-someip_socket : (host : Bytes) (port : ℕ) → Idles (someip_socket host port)
unfolding someip_socket
Idles-someip_socket host port =
    Idle-call (inet_addr host) (λ r k. refl)
      λ r.
        Hoare-Outcome (result r) (λ address. Idles-connect_to address port)
          (λ e.
            Idle-call (gethostbyname host) (λ r k. refl)
              λ hp.
                Hoare-Outcome (result hp) (λ address. Idles-connect_to address port)
                  (λ e. Idles-pure _))

Goes-attempt :
    (host : Bytes) (port : ℕ) (req : Bytes) → Goes (Waits false) (attempt host port req) Owes
unfolding attempt
Goes-attempt host port req =
    Hoare-bind (Idles-someip_socket host port)
      λ s. Hoare-Outcome s (λ fd. Goes-send_request fd req) (λ e. Hoare-pure none (λ w p. p))

count_owed : (a : Option ℕ) (s : Tally) (k : Watch) → Owes a s k → Waits false (count a s) k
unfolding count
count_owed none s k p = record {
  fair = record { speed = p.fair.speed; diff = p.fair.diff };
  right = p.right;
}
count_owed (some t) s k p = record {
  fair = record { speed = omega (arith, p.speed); diff = p.diff };
  right = p.right;
}

Turns-bench_turn :
    (host : Bytes) (port : ℕ) (req : Bytes)
    → Hoare
        (On (Waits false))
        (bench_turn host port req)
        (λ more. if more then On (Waits false) else On (Waits false))
        (λ h. On Fair)
unfolding bench_turn forgive
Turns-bench_turn host port req =
    Idle-call timer_expired (λ r k. refl)
      λ flag.
        Hoare-if (is_result 0 (result flag))
          (Hoare-bind (Goes-attempt host port req) λ answered.
            Hoare-seq {R = On (Waits false)}
              (Hoare-modify (count answered) (λ w p. count_owed answered w.vars (watch w.trace) p))
              (Hoare-pure true (λ w p. p)))
          (Hoare-seq {R = On (Waits false)}
            (Hoare-modify forgive (λ w p. record {
              fair = record { speed = p.fair.speed; diff = p.fair.diff };
              right = p.right;
            }))
            (Hoare-pure false (λ w p. p)))

Idles-benchcore :
    (host : Bytes) (port : ℕ) (req : Bytes) (benchtime : ℕ)
    → Hoare
        (λ w. w.trace ≡ [])
        (benchcore host port req benchtime)
        (λ a. On (Waits false))
        (λ h. On Fair)
unfolding benchcore
Idles-benchcore host port req benchtime =
    Hoare-seq {R = On (Waits false)}
      (Hoare-modify _
        (λ w e. rw e (record { fair = record { speed = refl; diff = refl }; right = refl })))
      (Idle-call sigaction (λ r k. refl)
        λ r.
          Hoare-seq {R = On (Waits false)}
            (Hoare-if (is_result 0 (result r)) (Idles-pure tt)
              (Hoare-stop (exited 3) (λ w p. p.fair)))
            (Hoare-seq {R = On (Waits false)}
              (Idle-call (alarm benchtime) (λ r k. refl) (λ r. Idles-pure tt))
              (Hoare-loop _ (λ w p. p.fair) (Turns-bench_turn host port req))))

Post-Fair :
    {A : Type 0} (r : Run Tally A)
    → Post (λ a. On (Waits false)) (λ h. On Fair) r
    → On Fair (final r)
Post-Fair (returns a w) p = p.fair
Post-Fair (halts h w) p = p

-- Wherever the run of a client ends, whatever the kernel replies and the clock shows, its speed is the
-- number of the right answers that it read and closed well, and diff is the sum, in 64 bits, of the
-- times between the two looks at the clock around each of them, and of no other.
pub benchcore_times :
    (host : Bytes) (port : ℕ) (req : Bytes) (benchtime : ℕ) (s : Tally) (script : List Reply)
    → let v =
        final
          (benchcore host port req benchtime (record { vars = s; script = script; trace = [] })) in
      (v.vars.speed ≡ (watch v.trace).answered) × (v.vars.diff ≡ (watch v.trace).sum)
benchcore_times host port req benchtime s script =
    let f = Post-Fair _ (
      (Idles-benchcore host port req benchtime).at
        (record { vars = s; script = script; trace = [] }) refl) in
    (f.speed, f.diff)
