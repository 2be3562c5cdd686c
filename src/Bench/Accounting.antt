-- ===== src/Bench/Accounting.antt =====
-- test_bench/someip_bench/someip_bench.c: the counts of a client against the turns of its loop.
use gra_project.Base.{
  ℕ, suc, ◌+◌, ◌≤◌, ◌≡◌, refl, Bool, true, false, List, [], ◌∷◌, arith, Bytes, if◌then◌else◌,
}
use gra_project.Sys.{
  Call, inet_addr, socket, connect, write, shutdown, read, close, timer_expired, sigaction, alarm,
  Reply, Outcome, ok, error, result, Trace, World, Run, returns, halts, final, M, ◌>>=◌, ◌>>◌, pure,
  stop, exited, syscall, fit, modify,
}
use gra_project.Sys.Hoare.{
  Hoare, Post, Hoare-bind, Hoare-seq, Hoare-syscall, Hoare-modify, Hoare-pure, Hoare-stop,
  Hoare-loop,
}
use gra_project.Bench.Core.{
  Counts, someip_socket, connect_to, is_result, close_answered, read_answer, half_close,
  send_request, attempt, count, forgive, bench_turn, benchcore, give_up,
}

-- Whether a call begins a turn of the loop: a look at the flag that finds it clear.
abbrev pub begins : Call → Reply → ℕ
begins timer_expired r = if is_result 0 (result r) then 1 else 0
begins _ r = 0

-- How many turns a run of the loop has begun.
abbrev pub turns : Trace → ℕ
turns [] = 0
turns ((c, r) ∷ trace) = begins c r + turns trace

abbrev Even : World Counts → Type 0
Even w = turns w.trace ≡ w.vars.speed + w.vars.failed

abbrev Odd : World Counts → Type 0
Odd w = turns w.trace ≡ suc (w.vars.speed + w.vars.failed)

abbrev Near : World Counts → Type 0
Near w =
    (w.vars.speed + w.vars.failed ≤ turns w.trace)
    × (turns w.trace ≤ suc (w.vars.speed + w.vars.failed))

Even→Near : (w : World Counts) → Even w → Near w
Even→Near w h = (omega (arith, h), omega (arith, h))

Odd→Near : (w : World Counts) → Odd w → Near w
Odd→Near w h = (omega (arith, h), omega (arith, h))

-- A call that begins no turn.
abbrev Quiet : Call → Type 0
Quiet c = (r : Reply) → begins c r ≡ 0

Hoare-Quiet-Odd : (c : Call) → Quiet c → Hoare Odd (syscall c) (λ _. Odd) (λ h. Near)
Hoare-Quiet-Odd c q =
    Hoare-syscall c (λ w p e. Odd→Near w p) (λ w r rest p e. omega (arith, p, q (fit c r)))

Hoare-Quiet-Even : (c : Call) → Quiet c → Hoare Even (syscall c) (λ _. Even) (λ h. Near)
Hoare-Quiet-Even c q =
    Hoare-syscall c (λ w p e. Even→Near w p) (λ w r rest p e. omega (arith, p, q (fit c r)))

-- A program that keeps a turn open.
abbrev Open : {A : Type 0} → M Counts A → Type 0
Open m = Hoare Odd m (λ _. Odd) (λ h. Near)

Open-call :
    {A : Type 0} {f : Reply → M Counts A} (c : Call)
    → Quiet c
    → ((r : Reply) → Open (f r))
    → Open (syscall c >>= f)
Open-call c q h = Hoare-bind (Hoare-Quiet-Odd c q) h

Open-pure : {A : Type 0} (a : A) → Open (pure a)
Open-pure a = Hoare-pure a (λ w p. p)

Open-if : {A : Type 0} (b : Bool) {m k : M Counts A} → Open m → Open k → Open (if b then m else k)
Open-if true h g = h
Open-if false h g = g

Open-Outcome :
    {A : Type 0} (r : Outcome) {f g : ℕ → M Counts A}
    → ((n : ℕ) → Open (f n))
    → ((e : ℕ) → Open (g e))
    → Open (elim r [ ok n ↦ f n | error e ↦ g e ])
Open-Outcome (ok n) h k = h n
Open-Outcome (error e) h k = k e

Open-give_up : (fd : ℕ) → Open (give_up fd)
Open-give_up fd = Hoare-seq (Open-call (close fd) (λ r. refl) (λ r. Open-pure tt)) (Open-pure false)

Open-close_answered : (fd : ℕ) → Open (close_answered fd)
unfolding close_answered
Open-close_answered fd = Open-call (close fd) (λ r. refl) (λ r. Open-pure _)

Open-read_answer : (fd : ℕ) → Open (read_answer fd)
unfolding read_answer
Open-read_answer fd =
    Open-call (read fd 16) (λ r. refl) (λ r. Open-if _ (Open-close_answered fd) (Open-give_up fd))

Open-half_close : (fd : ℕ) → Open (half_close fd)
unfolding half_close
Open-half_close fd =
    Open-call (shutdown fd) (λ r. refl) (λ r. Open-if _ (Open-read_answer fd) (Open-give_up fd))

Open-send_request : (fd : ℕ) (req : Bytes) → Open (send_request fd req)
unfolding send_request
Open-send_request fd req =
    Open-call (write fd _) (λ r. refl) (λ r. Open-if _ (Open-half_close fd) (Open-give_up fd))

Open-connect_to : (address port : ℕ) → Open (connect_to address port)
unfolding connect_to
Open-connect_to address port =
    Open-call socket (λ r. refl)
      λ s.
        Open-Outcome (result s)
          (λ sock.
            Open-call (connect sock port address) (λ r. refl)
              λ r. Open-Outcome (result r) (λ n. Open-pure _) (λ e. Open-pure _))
          (λ e. Open-pure _)

Open-someip_socket : (host : Bytes) (port : ℕ) → Open (someip_socket host port)
unfolding someip_socket
Open-someip_socket host port =
    Open-call (inet_addr host) (λ r. refl)
      λ r.
        Open-Outcome (result r) (λ address. Open-connect_to address port)
          (λ e.
            Open-call _ (λ r. refl)
              λ hp.
                Open-Outcome (result hp) (λ address. Open-connect_to address port)
                  (λ e. Open-pure _))

Open-attempt : (host : Bytes) (port : ℕ) (req : Bytes) → Open (attempt host port req)
unfolding attempt
Open-attempt host port req =
    Hoare-bind (Open-someip_socket host port)
      λ s. Open-Outcome s (λ fd. Open-send_request fd req) (λ e. Open-pure false)

count_lem :
    (b : Bool) (c : Counts) → (count b c).speed + (count b c).failed ≡ suc (c.speed + c.failed)
unfolding count
count_lem true c = omega arith
count_lem false c = omega arith

forgive-Near : (w : World Counts) → Even w → Near (record w { vars = forgive w.vars })
unfolding forgive
forgive-Near w h = (omega (arith, h), omega (arith, h))

abbrev turn_body : Bool → Bytes → ℕ → Bytes → M Counts Bool
turn_body b host port req =
    if b
    then (do answered ← attempt host port req; modify (count answered); pure true)
    else (do modify forgive; pure false)

-- What the look at the flag leaves.
abbrev Seen : Bool → World Counts → Type 0
Seen b w = if b then Odd w else Even w

turn_body_lem :
    (b : Bool) (host : Bytes) (port : ℕ) (req : Bytes)
    → Hoare (Seen b) (turn_body b host port req) (λ more. if more then Even else Near) (λ h. Near)
turn_body_lem true host port req = Hoare-bind (Open-attempt host port req) λ answered.
    Hoare-seq
      (Hoare-modify {R = Even} (count answered)
        (λ w p. omega (arith, p, count_lem answered w.vars)))
      (Hoare-pure true (λ w p. p))
turn_body_lem false host port req =
    Hoare-seq (Hoare-modify {R = Near} forgive forgive-Near) (Hoare-pure false (λ w p. p))

seen_lem :
    (b : Bool) (n m : ℕ)
    → n ≡ m
    → (if b then (if b then 1 else 0) + n ≡ suc m else (if b then 1 else 0) + n ≡ m)
seen_lem true n m h = omega arith
seen_lem false n m h = omega arith

bench_turn_lem :
    (host : Bytes) (port : ℕ) (req : Bytes)
    → Hoare Even (bench_turn host port req) (λ more. if more then Even else Near) (λ h. Near)
unfolding bench_turn
bench_turn_lem host port req =
    Hoare-bind
      (Hoare-syscall {Q = λ flag. Seen (is_result 0 (result flag))} timer_expired
        (λ w p e. Even→Near w p)
        (λ w r rest p e.
          seen_lem (is_result 0 (result r)) (turns w.trace) (w.vars.speed + w.vars.failed) p))
      λ flag. turn_body_lem (is_result 0 (result flag)) host port req

quit_lem : (b : Bool) → Hoare Even (if b then pure tt else stop (exited 3)) (λ _. Even) (λ h. Near)
quit_lem true = Hoare-pure tt (λ w p. p)
quit_lem false = Hoare-stop _ Even→Near

benchcore_lem :
    (host : Bytes) (port : ℕ) (req : Bytes) (benchtime : ℕ)
    → Hoare Even (benchcore host port req benchtime) (λ _. Near) (λ h. Near)
unfolding benchcore
benchcore_lem host port req benchtime = Hoare-bind (Hoare-Quiet-Even sigaction (λ r. refl)) λ r.
    Hoare-seq (quit_lem (is_result 0 (result r))) (
      Hoare-seq
        (Hoare-bind (Hoare-Quiet-Even (alarm benchtime) (λ r. refl))
          (λ r. Hoare-pure tt (λ w p. p)))
        (Hoare-loop _ Even→Near (bench_turn_lem host port req)))

Post→final : {A : Type 0} (r : Run Counts A) → Post (λ _. Near) (λ h. Near) r → Near (final r)
Post→final (returns a w) h = h
Post→final (halts e w) h = h

pub benchcore_accounts :
    (host : Bytes) (port : ℕ) (req : Bytes) (benchtime : ℕ) (script : List Reply)
    → let v = final (
        benchcore host port req benchtime
          (record { vars = record { speed = 0; failed = 0 }; script = script; trace = [] })) in
      (v.vars.speed + v.vars.failed ≤ turns v.trace)
      × (turns v.trace ≤ suc (v.vars.speed + v.vars.failed))
benchcore_accounts host port req benchtime script =
    Post→final _ ((benchcore_lem host port req benchtime).at _ (omega arith))
