-- ===== src/Eventfd/Drains.antt =====
-- eventfd_test/epollexclusive_exp.cc: a thread reads until there is nothing left.
use gra_project.Base.{ℕ, ◌≡◌, refl, Bool, true, false, if◌then◌else◌, List, [], ◌∷◌}
use gra_project.Sys.{
  Call, read, epoll_create, epoll_add, epoll_wait, Reply, Event, result, delivered, fit, Trace,
  World, Run, returns, halts, final, M, ◌>>=◌, syscall,
}
use gra_project.Sys.Loop.{for_each}
use gra_project.Sys.Hoare.{
  Post, Hoare, Hoare-bind, Hoare-seq, Hoare-syscall, Hoare-modify, Hoare-pure, Hoare-weaken,
  Hoare-loop, Hoare-if,
}
use gra_project.Algorithm.Serve.{has_input}
use gra_project.Eventfd.{Vars, gives, read_turn, on_event, wait_turn, thread}

-- Behind a read that gave something, the next call reads the same descriptor.
abbrev MayFollow : Call → Trace → Type 0
MayFollow c ((read fd n, r) ∷ trace) = if gives (result r) then (c ≡ read fd n) else Unit
MayFollow c _ = Unit

abbrev pub IsDrained : Trace → Type 0
IsDrained [] = Unit
IsDrained ((c, r) ∷ trace) = MayFollow c trace × IsDrained trace

abbrev On : World Vars → Type 0
On w = IsDrained w.trace

-- Any call may follow.
abbrev Rests : World Vars → Type 0
Rests w = On w × ((c : Call) → MayFollow c w.trace)

-- A read of the descriptor may follow.
abbrev Reads : ℕ → World Vars → Type 0
Reads fd w = On w × MayFollow (read fd 8) w.trace

abbrev Rested : {A : Type 0} → M Vars A → Type 0
Rested m = Hoare Rests m (λ _. Rests) (λ h. On)

-- Calls that are no read.
abbrev IsOther : Call → Type 0
IsOther c = (r : Reply) (trace : Trace) (d : Call) → MayFollow d ((c, r) ∷ trace)

Rested-call :
    {A : Type 0} {f : Reply → M Vars A} (c : Call)
    → IsOther c
    → ((r : Reply) → Rested (f r))
    → Rested (syscall c >>= f)
Rested-call c o h =
    Hoare-bind {R = λ _. Rests}
      (Hoare-syscall c (λ w p e. p.0) (λ w r rest p e. ((p.1 c, p.0), o (fit c r) w.trace))) h

after_read :
    (fd : ℕ) (r : Reply) (trace : Trace)
    → IsDrained ((read fd 8, r) ∷ trace)
    → (b : Bool) → gives (result r) ≡ b
    → (w : World Vars) → w.trace ≡ (read fd 8, r) ∷ trace
    → (if b then Reads fd else Rests) w
after_read fd r trace h true q w e = rw e (h, rw q refl)
after_read fd r trace h false q w e = rw e (h, λ c. rw q tt)

Reads-read_turn :
    (fd : ℕ) → Hoare (Reads fd) (read_turn fd) (λ more. if more then Reads fd else Rests) (λ h. On)
unfolding read_turn
Reads-read_turn fd =
    Hoare-bind {R = λ r w. (if gives (result r) then Reads fd else Rests) w}
      (Hoare-syscall (read fd 8) (λ w p e. p.0)
        (λ w r rest p e.
          after_read fd (fit (read fd 8) r) w.trace (p.1, p.0) (gives (result (fit (read fd 8) r)))
            refl (record w { script = rest; trace = (read fd 8, fit (read fd 8) r) ∷ w.trace })
            refl))
      (λ r. Hoare-pure _ (λ w p. p))

Rested-on_event : (event : Event) → Rested (on_event event)
unfolding on_event
Rested-on_event event =
    Hoare-if (has_input event)
      (Hoare-weaken (Reads event.fd) (λ w p. (p.0, p.1 (read event.fd 8)))
        (Hoare-loop (read_turn event.fd) (λ w p. p.0) (Reads-read_turn event.fd)))
      (Hoare-pure tt (λ w p. p))

Rested-for_each : (events : List Event) → Rested (for_each events on_event)
unfolding for_each
Rested-for_each [] = Hoare-pure tt (λ w p. p)
Rested-for_each (event ∷ events) =
    Hoare-seq {R = Rests} (Rested-on_event event) (Rested-for_each events)

Rested-thread : (evfd i : ℕ) → Rested (thread evfd i)
unfolding thread wait_turn
Rested-thread evfd i =
    Rested-call (epoll_create 512) (λ r t d. tt)
      λ r. Hoare-seq {R = Rests} (Hoare-modify _ (λ w p. p)) (
        Hoare-seq {R = Rests}
          (Rested-call (epoll_add _ evfd _) (λ r t d. tt) (λ r. Hoare-pure tt (λ w p. p)))
          (Hoare-loop {P = Rests} {Q = Rests} _ (λ w p. p.0)
            (Hoare-seq {R = Rests}
              (Rested-call (epoll_wait _ 10) (λ r t d. tt) (λ r. Rested-for_each (delivered r)))
              (Hoare-pure true (λ w p. p)))))

On-final : (r : Run Vars (Unit {0})) → Post (λ _. Rests) (λ h. On) r → On (final r)
On-final (returns a w) p = p.0
On-final (halts h w) p = p

-- Whatever the kernel replies, when a thread has read something from a descriptor, its next call
-- reads that descriptor again: it never waits for an event, nor goes on to the next one, before a
-- read has failed or given nothing.
pub thread-IsDrained :
    (evfd i : ℕ) (w : World Vars) → w.trace ≡ [] → IsDrained (final (thread evfd i w)).trace
thread-IsDrained evfd i w e =
    On-final (thread evfd i w) ((Rested-thread evfd i).at w (rw e (tt, λ c. tt)))
