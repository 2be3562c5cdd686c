-- ===== src/TestBench/Agrees.antt =====
-- The clients of test_bench/someip_bench/test_bench.c and of test_bench/someip_bench/someip_bench.c.
use gra_project.Base.{
  ℕ, ◌≡◌, refl, subst, Bool, true, false, ◌&&◌, Option, none, some, List, Bytes, if◌then◌else◌,
  arith,
}
use gra_project.Sys.{
  socket, connect, inet_addr, gethostbyname, timer_expired, sigaction, alarm, modify, ◌>>◌, Call,
  Reply, World, result, stored, syscall, M, pure, ◌>>=◌, exited, write, close, shutdown, read,
  clock,
}
use gra_project.Sys.Erases.{
  Erases, erase_run, insert_run, Erases-weaken, Erases-pure, Erases-stop, Erases-modify,
  Erases-syscall, Erases-bind, Erases-seq, Erases-assoc, Erases-clock, Erases-if, Erases-Outcome,
}
use gra_project.Sys.Seen.{is_clock, erased, seen_run, Asks}
use gra_project.Sys.Inserts.{told, at_end}
use gra_project.Sys.Erases.Turns.{Erases-loop}
use gra_project.Bench.Core
use gra_project.Bench.Core.{Counts, someip_socket, connect_to, is_result, is_full, is_answer}
use gra_project.TestBench.Client
use gra_project.TestBench.Client.{Tally, time_of, now, elapsed}

abbrev pub counts_of : Tally → Counts
counts_of t = record { speed = t.speed; failed = t.failed }

abbrev is_some : Option ℕ → Bool
is_some none = false
is_some (some t) = true

abbrev Same : {A B : Type 0} → (A → B) → M Tally A → M Counts B → Type 0
Same α m n = Erases counts_of α 0 m n

-- What follows a call of both.
Same-call :
    {A B : Type 0} {α : A → B} (c : Call) {f : Reply → M Tally A} (g : Reply → M Counts B)
    → is_clock c ≡ false
    → ((r : Reply) → Same α (f r) (g r))
    → Same α (syscall c >>= f) (syscall c >>= g)
Same-call c g q h = Erases-weaken (omega arith) (Erases-bind g (Erases-syscall c q) h)

Same-give_up : (fd : ℕ) → Same is_some (Client.give_up fd) (Core.give_up fd)
unfolding Client.give_up
Same-give_up fd = Erases-seq (Same-call (close fd) _ refl (λ r. Erases-pure tt)) (Erases-pure none)

Same-eq : {A B : Type 0} {α : A → B} (a : A) (b : B) → α a ≡ b → Same α (pure a) (pure b)
Same-eq {α} a b e = subst (λ b. Same α (pure a) (pure b)) e (Erases-pure a)

is_some-if : (b : Bool) (t : ℕ) → is_some (if b then some t else none) ≡ b
is_some-if true t = refl
is_some-if false t = refl

Same-close_answered :
    (fd t : ℕ) → Same is_some (Client.close_answered fd t) (Core.close_answered fd)
unfolding Client.close_answered Core.close_answered
Same-close_answered fd t =
    Same-call (close fd) _ refl (λ r. Same-eq _ _ (is_some-if (is_result 0 (result r)) t))

Asks-syscall : {S B : Type 0} (c : Call) (f : Reply → M S B) → Asks (syscall c >>= f)
unfolding syscall
Asks-syscall c f w e = rw e refl

Asks-give_up : (fd : ℕ) → Asks (Core.give_up fd)
unfolding syscall
Asks-give_up fd w e = rw e refl

-- A look at the clock before a call.
Same-now :
    {A B : Type 0} {α : A → B} (f : ℕ → M Tally A) (n : M Counts B)
    → Asks n
    → ((t : ℕ) → Same α (f t) n)
    → Same α (now >>= f) n
unfolding now
Same-now f n asks h =
    Erases-assoc (syscall clock) (λ r. pure (time_of (result r))) f
      (Erases-clock asks (λ r. h (time_of (result r))))

-- The second look at the clock stands between the read of an answer and the close.
after_read :
    (f a : Bool) (fd start : ℕ)
    → Same is_some
        (if f
          then (do
            end ← now
            if a then Client.close_answered fd (elapsed end start) else Client.give_up fd)
          else Client.give_up fd)
        (if f && a then Core.close_answered fd else Core.give_up fd)
unfolding Core.close_answered
after_read true true fd start =
    Same-now _ _ (Asks-syscall (close fd) _) (λ end. Same-close_answered fd (elapsed end start))
after_read true false fd start = Same-now _ _ (Asks-give_up fd) (λ end. Same-give_up fd)
after_read false a fd start = Same-give_up fd

Same-read_answer : (fd start : ℕ) → Same is_some (Client.read_answer fd start) (Core.read_answer fd)
unfolding Client.read_answer Core.read_answer
Same-read_answer fd start =
    Same-call (read fd 16) _ refl
      (λ r. after_read (is_full (result r)) (is_answer (stored r)) fd start)

Same-half_close : (fd start : ℕ) → Same is_some (Client.half_close fd start) (Core.half_close fd)
unfolding Client.half_close Core.half_close
Same-half_close fd start =
    Same-call (shutdown fd) _ refl
      (λ r. Erases-if (is_result 0 (result r)) (Same-read_answer fd start) (Same-give_up fd))

-- The first look at the clock stands between the write of the request and the shutdown.
Same-send_request :
    (fd : ℕ) (req : Bytes) → Same is_some (Client.send_request fd req) (Core.send_request fd req)
unfolding Client.send_request Core.send_request Core.half_close
Same-send_request fd req = Same-call (write fd _) _ refl λ r.
    Erases-if (is_result 16 (result r))
      (Same-now _ _ (Asks-syscall (shutdown fd) _) (λ start. Same-half_close fd start))
      (Same-give_up fd)

Same-connect_to :
    (address port : ℕ) → Same (λ o. o) (connect_to address port) (connect_to address port)
unfolding connect_to
Same-connect_to address port = Same-call socket _ refl λ s.
    Erases-Outcome (result s)
      (λ sock.
        Same-call (connect sock port address) _ refl
          λ r. Erases-Outcome (result r) (λ n. Erases-pure _) (λ e. Erases-pure _))
      (λ e. Erases-pure _)

Same-someip_socket :
    (host : Bytes) (port : ℕ) → Same (λ o. o) (someip_socket host port) (someip_socket host port)
unfolding someip_socket
Same-someip_socket host port = Same-call (inet_addr host) _ refl λ r.
    Erases-Outcome (result r) (λ address. Same-connect_to address port)
      (λ e. Same-call (gethostbyname host) _ refl λ hp.
        Erases-Outcome (result hp) (λ address. Same-connect_to address port) (λ e. Erases-pure _))

Same-attempt :
    (host : Bytes) (port : ℕ) (req : Bytes)
    → Same is_some (Client.attempt host port req) (Core.attempt host port req)
unfolding Client.attempt Core.attempt
Same-attempt host port req =
    Erases-bind _ (Same-someip_socket host port)
      λ s. Erases-Outcome s (λ fd. Same-send_request fd req) (λ e. Erases-pure none)

count-counts_of :
    (a : Option ℕ) (t : Tally) → Core.count (is_some a) (counts_of t) ≡ counts_of (Client.count a t)
unfolding Client.count Core.count
count-counts_of none t = refl
count-counts_of (some d) t = refl

Same-bench_turn :
    (host : Bytes) (port : ℕ) (req : Bytes)
    → Erases counts_of (λ b. b) 1 (Client.bench_turn host port req) (Core.bench_turn host port req)
unfolding Client.bench_turn Core.bench_turn Client.forgive Core.forgive
Same-bench_turn host port req = Erases-bind _ (Erases-syscall timer_expired refl) λ flag.
    Erases-if (is_result 0 (result flag))
      (Erases-bind _ (Same-attempt host port req)
        λ a. Erases-seq (Erases-modify (Client.count a) _ (count-counts_of a)) (Erases-pure true))
      (Erases-seq (Erases-modify Client.forgive Core.forgive (λ t. refl)) (Erases-pure false))

Same-benchcore :
    (host : Bytes) (port : ℕ) (req : Bytes) (benchtime : ℕ)
    → Same
        (λ x. x)
        (Client.benchcore host port req benchtime)
        (modify (λ c. record { speed = 0; failed = 0 }) >> Core.benchcore host port req benchtime)
unfolding Client.benchcore Core.benchcore
Same-benchcore host port req benchtime = Erases-seq (Erases-modify _ _ (λ t. refl)) (
    Same-call sigaction _ refl λ r.
      Erases-seq (Erases-if (is_result 0 (result r)) (Erases-pure tt) (Erases-stop (exited 3))) (
        Erases-seq (Same-call (alarm benchtime) _ refl (λ r. Erases-pure tt))
          (Erases-loop counts_of _ _ (Same-bench_turn host port req))))

abbrev pub nothing : Counts
nothing = record { speed = 0; failed = 0 }

-- The client that looks at the clock and the client that does not, which starts with nothing counted.
-- Whatever the one does: on some replies, the other makes the same calls but for the looks at the
-- clock, with the same replies, ends alike, and has counted the same. And the other way round.
pub benchcores_agree :
    (host : Bytes) (port : ℕ) (req : Bytes) (benchtime : ℕ) (w : World Tally) (script : List Reply)
    → ((replies : List Reply) × (Core.benchcore host port req benchtime
            (record { vars = nothing; script = replies; trace = erased w.trace })
          ≡ seen_run counts_of (λ x. x) (Client.benchcore host port req benchtime w)))
      × ((replies : List Reply) × (seen_run counts_of
              (λ x. x)
              (Client.benchcore host port req benchtime (told w replies))
            ≡ at_end (
                Core.benchcore host port req benchtime
                  (record { vars = nothing; script = script; trace = erased w.trace }))))
benchcores_agree host port req benchtime w script =
    let same = Same-benchcore host port req benchtime in
    (erase_run w same, insert_run w script same)
