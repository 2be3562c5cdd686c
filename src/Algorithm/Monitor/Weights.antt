-- ===== src/Algorithm/Monitor/Weights.antt =====
-- What a round of the monitor makes of the four reports.
use gra_project.Base.{
  ℕ, suc, ◌≡◌, refl, ap, subst, ◌∙◌, List, [], ◌∷◌, arith, length, get_or, take-length, map, Bytes,
}
use gra_project.Sys.{Reply, input, World, returns, and_then, ◌>>◌, syscall, sleep, read, write}
use gra_project.Sys.Loop.{for_range}
use gra_project.Numbers.{Numbers}
use gra_project.Algorithm.{Vars, servers_num}
use gra_project.Algorithm.Choose.{set_distribution}
use gra_project.Algorithm.Monitor.{
  Usage, usage_of, record_usage, weight, poll, finish_if_full, monitor_round,
}

-- The replies to one poll: to the request, and the report of 24 bytes.
pub record Answer : Type 0 where
  pub sent : Reply
  pub report : Bytes
  pub whole : length report ≡ 24

-- The replies to the polls, one after the other.
abbrev pub replies_of : List Answer → List Reply → List Reply
replies_of [] rest = rest
replies_of (a ∷ answers) rest = a.sent ∷ input a.report ∷ replies_of answers rest

module _ {N : Numbers} where
  abbrev pub mon_fd : Vars N → ℕ → ℕ
  mon_fd s i = (get_or s.servers_inner i (0, 0)).1

  abbrev pub usage : Answer → Usage N
  usage a = usage_of a.report

  -- The world after the poll of server `i`.
  abbrev pub after_poll : ℕ → Answer → List Reply → World (Vars N) → World (Vars N)
  after_poll i a rest w = record {
    vars = record_usage i (usage a) w.vars;
    script = rest;
    trace =
        (read (mon_fd w.vars i) 24, input a.report)
        ∷ (write (mon_fd w.vars i) (b'G' ∷ []), a.sent)
        ∷ w.trace;
  }

  poll_lem :
      (i : ℕ) (a : Answer) (rest : List Reply) (w : World (Vars N))
      → w.script ≡ a.sent ∷ input a.report ∷ rest
      → poll i w ≡ returns tt (after_poll i a rest w)
  unfolding poll syscall
  poll_lem i a rest w e = simp (e, take-length a.report 24 (omega (arith, a.whole)), a.whole) refl

  -- The world after the polls of the servers `i`, `i + 1`, ...
  abbrev pub after_polls : ℕ → List Answer → List Reply → World (Vars N) → World (Vars N)
  after_polls i [] rest w = w
  after_polls i (a ∷ answers) rest w =
      after_polls (suc i) answers rest (after_poll i a (replies_of answers rest) w)

  polls_lem :
      (answers : List Answer) (i : ℕ) (rest : List Reply) (w : World (Vars N))
      → w.script ≡ replies_of answers rest
      → for_range (length answers) i poll w ≡ returns tt (after_polls i answers rest w)
  unfolding for_range
  polls_lem [] i rest w e = refl
  polls_lem (a ∷ answers) i rest w e =
      ap (λ r. and_then r (λ _. for_range (length answers) (suc i) poll))
        (poll_lem i a (replies_of answers rest) w e)
      ∙ polls_lem answers (suc i) rest (after_poll i a (replies_of answers rest) w) refl

  -- The world in which a round ends, but for the test whether the monitor is full.
  abbrev pub after_round : Reply → List Answer → List Reply → World (Vars N) → World (Vars N)
  after_round slept answers rest w =
      let v =
        after_polls 0 answers rest
          (record w { script = replies_of answers rest; trace = (sleep 2, slept) ∷ w.trace }) in
      record v { vars = record v.vars { d = N.discrete v.vars.p } }

  monitor_round_lem :
      (slept : Reply) (answers : List Answer) (rest : List Reply) (w : World (Vars N))
      → length answers ≡ servers_num
      → w.script ≡ slept ∷ replies_of answers rest
      → monitor_round w ≡ finish_if_full (after_round slept answers rest w)
  unfolding monitor_round syscall set_distribution
  monitor_round_lem slept answers rest w n e = simp e (
      ap (λ r. and_then r (λ _. set_distribution >> finish_if_full))
        (subst (λ k. for_range k 0 poll v ≡ returns tt (after_polls 0 answers rest v)) n
          (polls_lem answers 0 rest v refl)))
    where
      v : World (Vars N)
      v = record w { script = replies_of answers rest; trace = (sleep 2, slept) ∷ w.trace }

-- The weights that reports give.
abbrev pub weights : (N : Numbers) → List Answer → List N.Double
weights N = map (λ a. weight {N = N} (usage a))

module _ {N : Numbers} where
  -- Four polls from index 0 replace the four weights.
  after_polls-p :
      (answers : List Answer) (ps : List N.Double) (rest : List Reply) (w : World (Vars N))
      → length answers ≡ servers_num
      → length ps ≡ servers_num
      → w.vars.p ≡ ps
      → (after_polls 0 answers rest w).vars.p ≡ weights N answers
  unfolding record_usage
  after_polls-p (a ∷ b ∷ c ∷ d ∷ []) (x ∷ y ∷ z ∷ u ∷ []) rest w n m e = simp e
  after_polls-p _ _ rest w n m e = absurd (omega arith)

  after_polls-script :
      (answers : List Answer) (i : ℕ) (rest : List Reply) (w : World (Vars N))
      → w.script ≡ replies_of answers rest
      → (after_polls i answers rest w).script ≡ rest
  after_polls-script [] i rest w e = e
  after_polls-script (a ∷ answers) i rest w e = after_polls-script answers (suc i) rest _ refl

  after_polls-servers :
      (answers : List Answer) (i : ℕ) (rest : List Reply) (w : World (Vars N))
      → (after_polls i answers rest w).vars.servers_inner ≡ w.vars.servers_inner
  unfolding record_usage
  after_polls-servers [] i rest w = refl
  after_polls-servers (a ∷ answers) i rest w = after_polls-servers answers (suc i) rest _

  -- A round with four whole reports sets the weights to those of the reports, in the order of the
  -- servers, draws from them from then on, leaves the servers as they are, and takes one reply for
  -- the pause and two for each server; then comes the test whether the monitor is full.
  pub monitor_round-weights :
      (slept : Reply) (answers : List Answer) (rest : List Reply) (w : World (Vars N))
      → length answers ≡ servers_num
      → length w.vars.p ≡ servers_num
      → w.script ≡ slept ∷ replies_of answers rest
      → (v : World (Vars N)) × (monitor_round w ≡ finish_if_full v)
        × (v.vars.p ≡ weights N answers)
        × (v.vars.d ≡ N.discrete (weights N answers))
        × (v.vars.servers_inner ≡ w.vars.servers_inner)
        × (v.script ≡ rest)
  monitor_round-weights slept answers rest w n m e =
      let p = after_polls-p answers w.vars.p rest _ n m refl in
      (
        after_round slept answers rest w,
        monitor_round_lem slept answers rest w n e,
        p,
        ap N.discrete p,
        after_polls-servers answers 0 rest _,
        after_polls-script answers 0 rest _ refl,
      )
