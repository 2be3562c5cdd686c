-- ===== src/Algorithm/Monitor/Selection.antt =====
-- Which server gets the next request, after a round of the monitor.
use gra_project.Base.{
  ℕ, zero, suc, ◌≡◌, refl, sym, ap, subst, ◌∙◌, ◌≢◌, true, false, List, [], ◌∷◌, length, get_or,
  get_elem?, replicate, some, inl, inr, Bool-cases, All,
}
use gra_project.Sys.{Reply, World, returns}
use gra_project.Numbers.{Numbers}
use gra_project.Algorithm.{Vars, servers_num}
use gra_project.Algorithm.Choose.{drawn, get_cur_selected_server_fd}
use gra_project.Algorithm.Monitor.{is_overloaded, weight, finish_if_full, monitor_round}
use gra_project.Algorithm.Monitor.Weights.{
  Answer, usage, replies_of, weights, monitor_round-weights,
}

-- An index whose weight is not 0.0.
abbrev pub HasWeight : (N : Numbers) → List N.Double → ℕ → Type 0
HasWeight N ps i = get_or ps i (N.lit 0) ≢ N.lit 0

-- `discrete_distribution` draws index i with probability w_i / S, where the sum S of the weights
-- must not be 0: an index of weight 0 is never drawn.
pub record Draws (N : Numbers) : Type 0 where
  pub weighted :
      (ps : List N.Double) (e : N.Engine) (i : ℕ)
      → HasWeight N ps i
      → HasWeight N ps (N.draw (N.discrete ps) e).0

weight-is_overloaded :
    (N : Numbers) (answers : List Answer) (i : ℕ)
    → HasWeight N (weights N answers) i
    → (a : Answer) × (get_elem? answers i ≡ some a) × (is_overloaded {N = N} (usage a) ≡ false)
unfolding weight
weight-is_overloaded N [] i h = absurd (h refl)
weight-is_overloaded N (a ∷ answers) zero h = elim (Bool-cases (is_overloaded {N = N} (usage a))) [
  | inl over ↦ absurd (h (rw over))
  | inr calm ↦ (a, refl, calm)
]
weight-is_overloaded N (a ∷ answers) (suc i) h = weight-is_overloaded N answers i h

overloads-weights :
    (N : Numbers) (answers : List Answer)
    → All (λ a. is_overloaded {N = N} (usage a) ≡ true) answers
    → weights N answers ≡ replicate (length answers) (N.lit 0)
unfolding weight
overloads-weights N [] h = refl
overloads-weights N (a ∷ answers) h = rw h.0 (ap (◌∷◌ (N.lit 0)) (overloads-weights N answers h.1))

module _ {N : Numbers} where
  -- The world after a draw: only the engine has moved.
  abbrev pub after_draw : World (Vars N) → World (Vars N)
  after_draw v = record v { vars = record v.vars { e = (drawn v.vars).1 } }

  get_cur_selected_server_fd_lem :
      (v : World (Vars N)) (servers : List (ℕ × ℕ))
      → v.vars.servers_inner ≡ servers
      → get_cur_selected_server_fd v
        ≡ returns (get_or servers (drawn v.vars).0 (0, 0)).0 (after_draw v)
  unfolding get_cur_selected_server_fd
  get_cur_selected_server_fd_lem v servers e =
      ap (λ (xs : List (ℕ × ℕ)). returns (get_or xs (drawn v.vars).0 (0, 0)).0 (after_draw v)) e

  -- After a round with four whole reports, of which one gives a weight that is not 0, the server
  -- chosen next is one that the report of that round does not call overloaded, whatever the state of
  -- the engine; the choice changes nothing but the engine.
  pub selection_avoids_overloaded :
      (law : Draws N) (slept : Reply) (answers : List Answer) (rest : List Reply)
      (w : World (Vars N)) (i : ℕ)
      → length answers ≡ servers_num
      → length w.vars.p ≡ servers_num
      → w.script ≡ slept ∷ replies_of answers rest
      → HasWeight N (weights N answers) i
      → (v : World (Vars N)) × (k : ℕ) × (a : Answer) × (monitor_round w ≡ finish_if_full v)
        × (get_elem? answers k ≡ some a)
        × (is_overloaded {N = N} (usage a) ≡ false)
        × (get_cur_selected_server_fd v
            ≡ returns (get_or w.vars.servers_inner k (0, 0)).0 (after_draw v))
  selection_avoids_overloaded law slept answers rest w i n m e h =
      let (v, run, _, d, servers, _) = monitor_round-weights slept answers rest w n m e in
      let k : ℕ = (drawn v.vars).0 in
      let drew = law.weighted (weights N answers) v.vars.e i h in
      let (a, found, calm) =
        weight-is_overloaded N answers k
          (subst (λ dist. HasWeight N (weights N answers) (N.draw dist v.vars.e).0) (sym d) drew) in
      (v, k, a, run, found, calm, get_cur_selected_server_fd_lem v w.vars.servers_inner servers)

  -- When every report of a round calls its server overloaded, the round hands four weights of 0.0 to
  -- `discrete_distribution`, whose weights must not sum to 0.
  pub overloaded_round_weightless :
      (slept : Reply) (answers : List Answer) (rest : List Reply) (w : World (Vars N))
      → length answers ≡ servers_num
      → length w.vars.p ≡ servers_num
      → w.script ≡ slept ∷ replies_of answers rest
      → All (λ a. is_overloaded {N = N} (usage a) ≡ true) answers
      → (v : World (Vars N)) × (monitor_round w ≡ finish_if_full v)
        × (v.vars.d ≡ N.discrete (replicate servers_num (N.lit 0)))
  overloaded_round_weightless slept answers rest w n m e over =
      let (v, run, _, d, _, _) = monitor_round-weights slept answers rest w n m e in
      let zeros = overloads-weights N answers over in
      (v, run, d ∙ ap N.discrete (zeros ∙ ap (λ k. replicate k (N.lit 0)) n))
