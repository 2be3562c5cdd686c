-- ===== src/Algorithm/Threads/Covered.antt =====
-- Rounds of `mainThreadFunc` and runs of `threadFunc` as rows of the steps of Algorithm/Threads.
use gra_project.Base.{
  ℕ, zero, suc, ◌+◌, ◌≡◌, ◌<◌, subst, refl, sym, ap, List, [], ◌∷◌, ◌++◌, length, length-append,
  arith,
}
use gra_project.Sys.{run_call, sleep, World, returns, final, modify, ◌>>=◌, ◌>>◌}
use gra_project.Sys.Loop.{for_range}
use gra_project.Numbers.{Numbers}
use gra_project.Algorithm.{Vars, servers_num}
use gra_project.Algorithm.Choose.{set_distribution}
use gra_project.Algorithm.Serve.{thread_func}
use gra_project.Algorithm.Monitor.{
  Usage, poll, ask, receive, record_usage, finish_if_full, monitor_round,
}
use gra_project.Algorithm.Threads.{
  Serves, pausing, asking, System, pause, request, answer, note, finish, serving, monitoring,
  distribute, Reach, next,
}
use gra_project.Sys.Rows.{Row, none, more, split_run}
use gra_project.Algorithm.Threads.Turns.{thread_func-Row}

module _ {N : Numbers} (u : World (Vars N)) where
  -- The serving thread takes its turns wherever the monitor is.
  Row-Reach :
      (s : System N) {v : World (Vars N)}
      → Row Serves s.world v
      → Reach u s
      → Reach u (record s { world = v })
  Row-Reach s none r = r
  Row-Reach s (more {v} turns turn) r = next (Row-Reach s turns r) (serving _ turn)

  -- The monitor has the usages `us` of this round, and `rounds` whole rounds.
  abbrev At : World (Vars N) → List (Usage N) → List (List (Usage N)) → Type 0
  At v us rounds = Reach u (record { world = v; point = asking us; rounds = rounds })

  poll-At :
      (w v : World (Vars N)) (us : List (Usage N)) (rounds : List (List (Usage N)))
      → length us < servers_num
      → At w us rounds
      → poll (length us) w ≡ returns tt v
      → (x : Usage N) × At v (us ++ x ∷ []) rounds
  unfolding poll
  poll-At w v us rounds n r e =
      let a =
        split_run (ask (length us))
          (λ fd. receive fd >>= (λ x. modify (record_usage (length us) x))) w e in
      let b =
        split_run (receive a.value) (λ x. modify (record_usage (length us) x)) a.between a.second in
      (
        b.value,
        next
            (next (next r (monitoring a.between _ (request a.value n a.first)))
              (monitoring b.between _ (answer b.value b.first)))
            (monitoring v _ (note (sym (ap final b.second)))),
      )

  polls-At :
      (k : ℕ) (w v : World (Vars N)) (us : List (Usage N)) (rounds : List (List (Usage N)))
      → length us + k ≡ servers_num
      → At w us rounds
      → for_range k (length us) poll w ≡ returns tt v
      → (xs : List (Usage N)) × (length xs ≡ servers_num) × At v xs rounds
  unfolding for_range
  polls-At zero w v us rounds n r e =
      (us, omega (arith, n), subst (λ v. At v us rounds) (ap final e) r)
  polls-At (suc k) w v us rounds n r e =
      let a = split_run (poll (length us)) (λ _. for_range k (suc (length us)) poll) w e in
      let (x, r') = poll-At w a.between us rounds (omega (arith, n)) r a.first in
      let l : length (us ++ x ∷ []) ≡ suc (length us) = omega (arith, length-append us (x ∷ [])) in
      polls-At k a.between v (us ++ x ∷ []) rounds (omega (arith, n, l)) r' (rw l a.second)

  pub round_then_serving :
      (s : System N) (v : World (Vars N))
      → Reach u s
      → s.point ≡ pausing
      → monitor_round s.world ≡ returns tt v
      → (xs : List (Usage N)) × (length xs ≡ servers_num)
        × Reach u
            (record { world = final (thread_func v); point = pausing; rounds = xs ∷ s.rounds })
  unfolding monitor_round
  round_then_serving s v r at e =
      let polls = for_range servers_num 0 poll in
      let a =
        split_run (run_call (sleep 2)) (λ _. polls >> (set_distribution >> finish_if_full)) s.world
          e in
      let b = split_run polls (λ _. set_distribution >> finish_if_full) a.between a.second in
      let c = split_run set_distribution (λ _. finish_if_full) b.between b.second in
      let paused : At a.between [] s.rounds =
        next r (monitoring a.between (asking []) (rw at (pause a.first))) in
      let (xs, n, r') = polls-At servers_num a.between b.between [] s.rounds refl paused b.first in
      let whole =
        next (next r' (distribute xs c.between refl n c.first))
          (monitoring v pausing (finish c.second)) in
      (xs, n, Row-Reach _ (thread_func-Row v) whole)
