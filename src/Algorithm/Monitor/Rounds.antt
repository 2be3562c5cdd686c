-- ===== src/Algorithm/Monitor/Rounds.antt =====
-- servers/algorithm_distributor.cc, `mainThreadFunc`: the rounds up to the one that fills the lists.
use gra_project.Base.{
  ℕ, zero, suc, ◌+◌, ◌*◌, ◌≤◌, ◌<◌, ◌≡◌, refl, true, false, List, [], ◌∷◌, arith, length, get_or,
  leb, ◌==◌, inl, inr, Bool-cases, if◌then◌else◌, length-append,
}
use gra_project.Sys.{
  Call, Outcome, ok, error, Halt, exited, result, World, Run, returns, halts, and_then, ◌>>◌, pure,
  stop, syscall, run_call,
}
use gra_project.Sys.Loop.{repeat, loop, for_range}
use gra_project.Sys.Hoare.{
  Post, Hoare, Hoare-bind, Hoare-seq, Hoare-syscall, Hoare-get, Hoare-modify, Hoare-pure,
  Hoare-weaken,
}
use gra_project.Numbers.{Numbers}
use gra_project.Algorithm.{Vars, servers_num}
use gra_project.Algorithm.Choose.{set_distribution}
use gra_project.Algorithm.Monitor.{
  Usage, record_usage, push_at, whole_or_exit, ask, receive, poll, save_usages, finish_if_full,
  monitor_round, main_thread_func,
}

-- The rounds recorded after poll `i`: the first server's poll adds one.
abbrev counted : ℕ → ℕ → ℕ
counted c i = if i == 0 then suc c else c

module _ {N : Numbers} where
  -- The rounds that the monitor has recorded of the first server.
  abbrev pub rounds : Vars N → ℕ
  rounds s = length (get_or s.cpu_usage 0 [])

  -- There are `n` replies at hand, and `c` rounds recorded.
  record Ready (n c : ℕ) (w : World (Vars N)) : Type 0 where
    replies : n ≤ length w.script
    recorded : rounds w.vars ≡ c
    arrays : 0 < length w.vars.cpu_usage

  abbrev Exits : Halt → World (Vars N) → Type 0
  Exits h w = h ≡ exited 1

  call-Ready :
      (n c : ℕ) (call : Call) → Hoare (Ready (suc n) c) (run_call call) (λ _. Ready n c) Exits
  call-Ready n c call =
      Hoare-bind {R = λ _. Ready n c}
        (Hoare-syscall call (λ w h e. ground arith) (λ w r rest h e. ground arith))
        (λ r. record { at = λ w h. h })

  rounds-record_usage :
      (i : ℕ) (u : Usage N) (s : Vars N)
      → 0 < length s.cpu_usage
      → (rounds (record_usage i u s) ≡ counted (rounds s) i)
        × (0 < length (record_usage i u s).cpu_usage)
  unfolding record_usage
  rounds-record_usage i u s h = first s.cpu_usage i h
    where
      first :
          (lists : List (List N.Double)) (i : ℕ)
          → 0 < length lists
          → (length (get_or (push_at lists i u.cpu) 0 []) ≡ counted (length (get_or lists 0 [])) i)
            × (0 < length (push_at lists i u.cpu))
      first [] i h = elim h [ ]
      first (l ∷ lists) zero h = (omega (arith, length-append l (u.cpu ∷ [])), omega arith)
      first (l ∷ lists) (suc i) h = (ground arith, omega arith)

  record_usage-Ready :
      (n c i : ℕ) (u : Usage N) (w : World (Vars N))
      → Ready n c w
      → Ready n (counted c i) (record w { vars = record_usage i u w.vars })
  record_usage-Ready n c i u w h =
      let r = rounds-record_usage i u w.vars h.arrays in
      record { replies = h.replies; recorded = rw (← h.recorded) r.0; arrays = r.1 }

  whole_or_exit-Ready :
      (n c : ℕ) (i : Outcome) → Hoare (Ready n c) (whole_or_exit i) (λ _. Ready n c) Exits
  whole_or_exit-Ready n c (ok k) = record { at = λ w h. ground arith }
  whole_or_exit-Ready n c (error e) = record { at = λ w h. refl }

  syscall-Ready :
      (n c : ℕ) (call : Call) → Hoare (Ready (suc n) c) (syscall call) (λ _. Ready n c) Exits
  syscall-Ready n c call = Hoare-syscall call (λ w h e. ground arith) (λ w r rest h e. ground arith)

  ask-Ready : (n c i : ℕ) → Hoare (Ready (suc n) c) (ask i) (λ _. Ready n c) Exits
  unfolding ask
  ask-Ready n c i = Hoare-bind Hoare-get λ s. Hoare-seq (call-Ready n c _) (Hoare-pure _ (λ w h. h))

  receive-Ready : (n c fd : ℕ) → Hoare (Ready (suc n) c) (receive fd) (λ _. Ready n c) Exits
  unfolding receive
  receive-Ready n c fd =
      Hoare-bind (syscall-Ready n c _)
        λ r. Hoare-seq (whole_or_exit-Ready n c (result r)) (Hoare-pure _ (λ w h. h))

  poll-Ready :
      (n c i : ℕ) → Hoare (Ready (suc (suc n)) c) (poll i) (λ _. Ready n (counted c i)) Exits
  unfolding poll
  poll-Ready n c i =
      Hoare-bind (ask-Ready (suc n) c i)
        λ fd. Hoare-bind (receive-Ready n c fd) λ u. Hoare-modify _ (record_usage-Ready n c i u)

  save_usages-Ready :
      (n c i : ℕ) → Hoare (Ready (suc (suc (suc n))) c) (save_usages i) (λ _. Ready n c) Exits
  unfolding save_usages
  save_usages-Ready n c i = Hoare-bind Hoare-get λ s.
      Hoare-seq (call-Ready (suc (suc n)) c _)
        (Hoare-seq (call-Ready (suc n) c _) (call-Ready n c _))

  -- Three files for each server.
  save_all-Ready :
      (k i c : ℕ) → Hoare (Ready (3 * k) c) (for_range k i save_usages) (λ _. Ready 0 c) Exits
  unfolding for_range
  save_all-Ready zero i c = record { at = λ w h. h }
  save_all-Ready (suc k) i c =
      Hoare-weaken (Ready (suc (suc (suc (3 * k)))) c) (λ w h. ground arith)
        (Hoare-seq (save_usages-Ready (3 * k) c i) (save_all-Ready k (suc i) c))

  abbrev Unfull : ℕ → ℕ → Unit {0} → World (Vars N) → Type 0
  Unfull n c _ w = Ready n c w × (c < 100)

  closing-Ready :
      (n c : ℕ)
      → 12 ≤ n
      → Hoare
          (Ready n c)
          (for_range servers_num 0 save_usages >> stop (exited 1))
          (Unfull n c)
          Exits
  closing-Ready n c m =
      Hoare-weaken (Ready 12 c) (λ w h. ground arith)
        (Hoare-seq (save_all-Ready 4 0 c) (record { at = λ w h. refl }))

  finish_if_full-Ready : (n c : ℕ) → 12 ≤ n → Hoare (Ready n c) finish_if_full (Unfull n c) Exits
  unfolding finish_if_full
  finish_if_full-Ready n c m = record {
    at = λ w h. elim (Bool-cases (leb 100 (rounds w.vars))) [
      | inl full ↦ rw full ((closing-Ready n c m).at w h)
      | inr room ↦ rw room (h, ground arith)
    ];
  }

  polls-Ready :
      (n c : ℕ)
      → Hoare (Ready (8 + n) c) (for_range servers_num 0 poll) (λ _. Ready n (suc c)) Exits
  unfolding for_range
  polls-Ready n c =
      Hoare-weaken (Ready (suc (suc (suc (suc (suc (suc (suc (suc n)))))))) c) (λ w h. ground arith)
        (Hoare-seq (poll-Ready _ c 0) (
          Hoare-seq (poll-Ready _ (suc c) 1) (
            Hoare-seq (poll-Ready _ (suc c) 2)
              (Hoare-seq (poll-Ready n (suc c) 3) (record { at = λ w h. h })))))

  set_distribution-Ready : (n c : ℕ) → Hoare (Ready n c) set_distribution (λ _. Ready n c) Exits
  unfolding set_distribution
  set_distribution-Ready n c = record {
    at = λ w h. record { replies = h.replies; recorded = h.recorded; arrays = h.arrays };
  }

  monitor_round-Ready :
      (n c : ℕ) → 12 ≤ n → Hoare (Ready (9 + n) c) monitor_round (Unfull n (suc c)) Exits
  unfolding monitor_round
  monitor_round-Ready n c m =
      Hoare-weaken (Ready (suc (8 + n)) c) (λ w h. ground arith)
        (Hoare-seq (call-Ready (8 + n) c _) (
          Hoare-seq (polls-Ready n c)
            (Hoare-seq (set_distribution-Ready n (suc c)) (finish_if_full-Ready n (suc c) m))))

  -- The run ends by exit(1).
  abbrev pub ExitsOne : Run (Vars N) (Unit {0}) → Type 0
  ExitsOne r = (w : World (Vars N)) × (r ≡ halts (exited 1) w)

  repeat-ExitsOne :
      (fuel k c : ℕ) (w : World (Vars N))
      → c + k ≡ 100
      → 0 < k
      → k < fuel
      → Ready (9 * k + 12) c w
      → ExitsOne (repeat fuel (monitor_round >> pure true) w)
  unfolding repeat
  repeat-ExitsOne zero k c w e p f h = absurd (omega arith)
  repeat-ExitsOne (suc fuel) zero c w e p f h = absurd (omega arith)
  repeat-ExitsOne (suc fuel) (suc k) c w e p f h =
      turn (monitor_round w) ((monitor_round-Ready (9 * k + 12) c (omega arith)).at w (fewer h))
        (λ v g. repeat-ExitsOne fuel k (suc c) v (omega arith) (omega arith) (omega arith) g.0)
    where
      fewer : Ready (9 * suc k + 12) c w → Ready (9 + (9 * k + 12)) c w
      fewer g = ground arith

      turn :
          (r : Run (Vars N) (Unit {0}))
          → Post (Unfull (9 * k + 12) (suc c)) Exits r
          → ((v : World (Vars N))
              → Unfull (9 * k + 12) (suc c) tt v
              → ExitsOne (repeat fuel (monitor_round >> pure true) v))
          → ExitsOne (
              and_then (and_then r (λ _. pure true)) (λ more. elim more [
                | true ↦ repeat fuel (monitor_round >> pure true)
                | false ↦ pure tt
              ]))
      turn (returns a v) g rest = rest v g
      turn (halts e v) g rest = (v, rw g refl)

  -- Given 912 replies (9 in each of 100 rounds, and 12 for the files), a monitor that starts with
  -- nothing recorded does not wait: it ends by exit(1), after the hundredth round at the latest.
  pub main_thread_func_exits :
      (w : World (Vars N))
      → 0 < length w.vars.cpu_usage
      → rounds w.vars ≡ 0
      → 912 ≤ length w.script
      → ExitsOne (main_thread_func w)
  unfolding main_thread_func loop
  main_thread_func_exits w a r n =
      repeat-ExitsOne (suc (length w.script)) 100 0 w (omega arith) (omega arith) (omega arith)
        (record { replies = n; recorded = r; arrays = a })
