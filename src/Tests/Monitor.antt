-- ===== src/Tests/Monitor.antt =====
-- The monitor of the distributor, on the machine of `Sample`.
use gra_project.Base.{
  ℕ, ◌≡◌, refl, false, List, [], ◌∷◌, arith, replicate, get_elem?, get_or, some, length-replicate,
}
use gra_project.Sys.{done, World, returns}
use gra_project.Algorithm.{Vars, servers_num}
use gra_project.Algorithm.Choose.{get_cur_selected_server_fd}
use gra_project.Algorithm.Monitor.{
  usage_of, is_overloaded, weight, finish_if_full, monitor_round, main_thread_func,
}
use gra_project.Algorithm.Monitor.Rounds.{ExitsOne, main_thread_func_exits}
use gra_project.Algorithm.Monitor.Weights.{Answer, usage, replies_of, weights}
use gra_project.Algorithm.Monitor.Selection.{
  after_draw, selection_avoids_overloaded, overloaded_round_weightless,
}
use gra_project.Tests.Sample.{tenths, tenths-Draws, started}

-- A server that reports one number for the usage of the processor, and nothing else.
abbrev answer : ℕ → Answer
answer cpu = record { sent = done 1; report = cpu ∷ replicate 23 0; whole = refl }

-- The first server is overloaded, the others are not.
abbrev pub answers : List Answer
answers = answer 96 ∷ answer 50 ∷ answer 0 ∷ answer 94 ∷ []

abbrev overloads : List Answer
overloads = answer 96 ∷ answer 95 ∷ answer 100 ∷ answer 99 ∷ []

weights_of_answers : weights tenths answers ≡ 0 ∷ 700 ∷ 1000 ∷ 436 ∷ []
unfolding weight usage_of
weights_of_answers = refl

main_thread_func_exits_example : ExitsOne (main_thread_func (started (replicate 1000 (done 24))))
main_thread_func_exits_example =
    main_thread_func_exits (started (replicate 1000 (done 24))) (omega arith) refl
      (omega (arith, length-replicate 1000 (done 24)))

abbrev polled : World (Vars tenths)
polled = started (done 0 ∷ replies_of answers [])

selection_avoids_overloaded_example :
    (v : World (Vars tenths)) × (k : ℕ) × (a : Answer) × (monitor_round polled ≡ finish_if_full v)
    × (get_elem? answers k ≡ some a)
    × (is_overloaded {N = tenths} (usage a) ≡ false)
    × (get_cur_selected_server_fd v
        ≡ returns (get_or polled.vars.servers_inner k (0, 0)).0 (after_draw v))
unfolding weight usage_of
selection_avoids_overloaded_example =
    selection_avoids_overloaded tenths-Draws (done 0) answers [] polled 1 refl refl refl
      (λ e. absurd (omega arith))

overloaded_round_weightless_example :
    let w : World (Vars tenths) = started (done 0 ∷ replies_of overloads []) in
    (v : World (Vars tenths)) × (monitor_round w ≡ finish_if_full v)
    × (v.vars.d ≡ replicate servers_num 0)
unfolding is_overloaded usage_of
overloaded_round_weightless_example =
    overloaded_round_weightless (done 0) overloads [] (started (done 0 ∷ replies_of overloads []))
      refl refl refl (refl, (refl, (refl, (refl, tt))))
