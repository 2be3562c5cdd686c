-- ===== src/Inner/Threads/Sampled.antt =====
-- What every turn of the threads leaves true of the reports of an inner server.
use gra_project.Base.{
  ℕ, zero, suc, ◌≡◌, ◌≤◌, refl, sym, ap, subst, some, List, [], ◌∷◌, ◌++◌, length, length-append,
  get_elem?, arith, ◌==◌,
}
use gra_project.Sys.{result, World, returns, final, M, ok, error, Outcome}
use gra_project.Sys.Steady.{
  Covers, Steady, Steady-returns, Steady-bind, Steady-pure, Steady-if, Steady-exit, Steady-syscall,
}
use gra_project.Numbers.{Numbers}
use gra_project.Algorithm.Monitor.{Usage}
use gra_project.Procmon.Ticks.{Machine, Vars, get_stat}
use gra_project.Inner.Monitor.{await_request, send_report, asked_or_exit, sent_or_exit}
use gra_project.Inner.Threads.{
  Place, waiting, asked, holding, System, Reads, call, store, Reports, request, look, Step, working,
  reading, sampling, reporting, sending, Reach, here, next,
}

get_elem?-append :
    {A : Type 0} (xs ys : List A) (k : ℕ) {a : A}
    → get_elem? xs k ≡ some a
    → get_elem? (xs ++ ys) k ≡ some a
get_elem?-append [] ys k e = cc
get_elem?-append (x ∷ xs) ys zero e = e
get_elem?-append (x ∷ xs) ys (suc k) e = get_elem?-append xs ys k e

get_elem?-last : {A : Type 0} (xs : List A) (a : A) → get_elem? (xs ++ a ∷ []) (length xs) ≡ some a
get_elem?-last [] a = refl
get_elem?-last (x ∷ xs) a = get_elem?-last xs a

module _ {N : Numbers} where
  -- Each report, newest first, has the usages of `samples` under its number, and the numbers go up
  -- to `n` from the oldest to the newest.
  abbrev pub Sampled : List (Usage N) → ℕ → List (ℕ × Usage N) → Type 0
  Sampled samples n [] = Unit
  Sampled samples n ((k, u) ∷ sent) =
      (k ≤ n) × (get_elem? samples k ≡ some u) × Sampled samples k sent

  -- The usages after each sample, oldest first, with those before the first.
  abbrev pub samples_of : System N → List (Usage N)
  samples_of s = s.replaced ++ s.world.vars.usage ∷ []

  Sampled-le :
      (samples : List (Usage N)) {n m : ℕ} (sent : List (ℕ × Usage N))
      → n ≤ m
      → Sampled samples n sent
      → Sampled samples m sent
  Sampled-le samples [] l h = tt
  Sampled-le samples ((k, u) ∷ sent) l h = (omega (arith, l, h.0), h.1, h.2)

  Sampled-append :
      (samples more : List (Usage N)) (n : ℕ) (sent : List (ℕ × Usage N))
      → Sampled samples n sent
      → Sampled (samples ++ more) n sent
  Sampled-append samples more n [] h = tt
  Sampled-append samples more n ((k, u) ∷ sent) h =
      (h.0, get_elem?-append samples more k h.1, Sampled-append samples more k sent h.2)

  -- What is held comes from a sample that is not older than what was sent.
  abbrev Holds : List (Usage N) → ℕ → List (ℕ × Usage N) → Place N → Type 0
  Holds samples n sent (holding k u) = Sampled samples n ((k, u) ∷ sent)
  Holds samples n sent _ = Sampled samples n sent

  abbrev IsSampled : System N → Type 0
  IsSampled s = Holds (samples_of s) (length s.replaced) s.sent s.place

  Holds-grow :
      (samples more : List (Usage N)) {n m : ℕ} (sent : List (ℕ × Usage N)) (p : Place N)
      → n ≤ m
      → Holds samples n sent p
      → Holds (samples ++ more) m sent p
  Holds-grow samples more sent waiting l h =
      Sampled-le (samples ++ more) sent l (Sampled-append samples more _ sent h)
  Holds-grow samples more sent asked l h =
      Sampled-le (samples ++ more) sent l (Sampled-append samples more _ sent h)
  Holds-grow samples more sent (holding k u) l h =
      Sampled-le (samples ++ more) ((k, u) ∷ sent) l
        (Sampled-append samples more _ ((k, u) ∷ sent) h)

  Holds-Sampled :
      (samples : List (Usage N)) (n : ℕ) (sent : List (ℕ × Usage N)) (p : Place N)
      → Holds samples n sent p
      → Sampled samples n sent
  Holds-Sampled samples n sent waiting h = h
  Holds-Sampled samples n sent asked h = h
  Holds-Sampled samples n sent (holding k u) h = Sampled-le samples sent h.0 h.2

  -- A turn that leaves the variables alone.
  abbrev Quiet : {A : Type 0} → Vars N → M (Vars N) A → Type 0
  Quiet s m = Steady (λ t. t ≡ s) (λ h t. Unit) m

  covers : (s : Vars N) → Covers (λ t. t ≡ s) (λ h t. Unit)
  covers s h t n p = tt

  Quiet-asked_or_exit : (s : Vars N) (i : Outcome) → Quiet s (asked_or_exit i)
  Quiet-asked_or_exit s (ok n) = Steady-if (n == 0) (Steady-exit (covers s) 1) (Steady-pure tt)
  Quiet-asked_or_exit s (error e) = Steady-exit (covers s) 1

  Quiet-sent_or_exit : (s : Vars N) (i : Outcome) → Quiet s (sent_or_exit i)
  Quiet-sent_or_exit s (ok n) = Steady-if (n == 24) (Steady-pure tt) (Steady-exit (covers s) 1)
  Quiet-sent_or_exit s (error e) = Steady-exit (covers s) 1

  pub Quiet-await_request : (s : Vars N) (mon_fd : ℕ) → Quiet s (await_request mon_fd)
  unfolding await_request
  Quiet-await_request s mon_fd =
      Steady-bind (Steady-syscall (covers s) _) (λ r. Quiet-asked_or_exit s (result r))

  Quiet-send_report : (s : Vars N) (mon_fd : ℕ) (u : Usage N) → Quiet s (send_report mon_fd u)
  unfolding send_report
  Quiet-send_report s mon_fd u =
      Steady-bind (Steady-syscall (covers s) _) (λ r. Quiet-sent_or_exit s (result r))

  pub Quiet-returns :
      {A : Type 0} {m : M (Vars N) A} {w v : World (Vars N)} {a : A}
      → Quiet w.vars m
      → m w ≡ returns a v
      → v.vars.usage ≡ w.vars.usage
  Quiet-returns h e = ap (λ s. s.usage) (Steady-returns h e refl)

  -- A turn that leaves the usages alone.
  IsSampled-same :
      (s : System N) (v : World (Vars N))
      → v.vars.usage ≡ s.world.vars.usage
      → IsSampled s
      → IsSampled (record s { world = v })
  IsSampled-same s v e h =
      subst (λ u. Holds (s.replaced ++ u ∷ []) (length s.replaced) s.sent s.place) (sym e) h

  module _ {machine : Machine N} {mon_fd : ℕ} where
    Reads-usage : {w v : World (Vars N)} → Reads machine mon_fd w v → v.vars.usage ≡ w.vars.usage
    Reads-usage (call c r e) = Quiet-returns (Steady-syscall (covers _) c) e
    Reads-usage (store content e) = ap (λ v. v.vars.usage) e

    Reports-IsSampled :
        (w v : World (Vars N)) (p q : Place N) (rs : List (Usage N)) (sent : List (ℕ × Usage N))
        → Reports machine mon_fd w v (length rs) p q
        → Holds (rs ++ w.vars.usage ∷ []) (length rs) sent p
        → Holds (rs ++ v.vars.usage ∷ []) (length rs) sent q
    unfolding get_stat
    Reports-IsSampled w v _ _ rs sent (request e) h =
        subst (λ u. Sampled (rs ++ u ∷ []) (length rs) sent)
          (sym (Quiet-returns (Quiet-await_request _ mon_fd) e)) h
    Reports-IsSampled w v _ _ rs sent (look u e) h =
        let same : v ≡ w = sym (ap final e) in
        let seen : w.vars.usage ≡ u = cc in
        subst (λ v. Holds (rs ++ v.vars.usage ∷ []) (length rs) sent (holding (length rs) u))
          (sym same)
          (
            omega arith,
            subst (λ u'. get_elem? (rs ++ w.vars.usage ∷ []) (length rs) ≡ some u') seen
                (get_elem?-last rs w.vars.usage),
            h,
          )

    Step-IsSampled : {s t : System N} → Step machine mon_fd s t → IsSampled s → IsSampled t
    Step-IsSampled {s} (working {v} c r e) h =
        IsSampled-same s v (Quiet-returns (Steady-syscall (covers _) c) e) h
    Step-IsSampled {s} (reading {v} turn) h = IsSampled-same s v (Reads-usage turn) h
    Step-IsSampled {s} (sampling {v} m u i t e) h =
        Holds-grow (samples_of s) _ s.sent s.place
          (omega (arith, length-append s.replaced (s.world.vars.usage ∷ []))) h
    Step-IsSampled {s} (reporting {v} turn) h =
        Reports-IsSampled s.world v s.place _ s.replaced s.sent turn h
    Step-IsSampled {s} (sending {v} k u at e) h =
        IsSampled-same (record s { place = waiting; sent = (k, u) ∷ s.sent }) v
          (Quiet-returns (Quiet-send_report _ mon_fd u) e)
          (subst (Holds (samples_of s) (length s.replaced) s.sent) at h)

    Reach-IsSampled : {w : World (Vars N)} {s : System N} → Reach machine mon_fd w s → IsSampled s
    Reach-IsSampled here = tt
    Reach-IsSampled (next r turn) = Step-IsSampled turn (Reach-IsSampled r)

  pub reports_are_samples :
      (machine : Machine N) (mon_fd : ℕ) (w : World (Vars N)) (s : System N)
      → Reach machine mon_fd w s
      → Sampled (samples_of s) (length s.replaced) s.sent
  reports_are_samples machine mon_fd w s r =
      Holds-Sampled (samples_of s) _ s.sent s.place (Reach-IsSampled r)
