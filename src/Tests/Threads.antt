-- ===== src/Tests/Threads.antt =====
-- The two threads of the distributor: a start, a round of the monitor, and a run of the serving thread.
use gra_project.Base.{◌≡◌, refl, List, [], ◌∷◌, ◌++◌, length, map}
use gra_project.Sys.{done, syscall, World, final, returns}
use gra_project.Algorithm.{servers_num}
use gra_project.Algorithm.{Vars}
use gra_project.Algorithm.Choose.{set_distribution, get_cur_selected_server_fd}
use gra_project.Sys.Loop.{for_range}
use gra_project.Net.{get_listen_fd, set_reuse_addr, socket_connect, set_tcp_no_delay}
use gra_project.Algorithm.Startup.{init_inner_mon, admit_server}
use gra_project.Algorithm.Serve.{thread_func}
use gra_project.Algorithm.Monitor.{Usage, weight, poll, finish_if_full, record_usage, monitor_round}
use gra_project.Algorithm.Monitor.Weights.{replies_of}
use gra_project.Algorithm.Threads.{System, pausing, start, begin, Reach, here}
use gra_project.Algorithm.Threads.Rounds.{chosen, choices_follow_rounds}
use gra_project.Algorithm.Threads.Covered.{round_then_serving}
use gra_project.Tests.Sample.{tenths}
use gra_project.Tests.Startup.{begun}
use gra_project.Tests.Monitor.{answers}

-- The start of `Tests/Startup`, with replies to a round of the monitor behind it, and one to the
-- serving thread.
abbrev starting : World (Vars tenths)
starting = record begun { script = begun.script ++ (done 0 ∷ replies_of answers (done 9 ∷ [])) }

abbrev both : World (Vars tenths)
both = final (start starting)

abbrev polled : World (Vars tenths)
polled = final (monitor_round both)

starts : start starting ≡ returns tt both
unfolding start init_inner_mon get_listen_fd syscall set_reuse_addr for_range admit_server
    socket_connect set_tcp_no_delay set_distribution
starts = refl

polls : monitor_round both ≡ returns tt polled
unfolding start monitor_round init_inner_mon get_listen_fd syscall set_reuse_addr for_range
    admit_server socket_connect set_tcp_no_delay set_distribution poll finish_if_full record_usage
polls = refl

round_then_serving_example :
    (xs : List (Usage tenths)) × (length xs ≡ servers_num)
    × Reach both (record { world = final (thread_func polled); point = pausing; rounds = xs ∷ [] })
round_then_serving_example = round_then_serving both (begin both) polled here refl polls

-- The usages of the round, with a way to the point behind it.
rounded :
    (xs : List (Usage tenths)) × (length xs ≡ servers_num)
    × Reach both (record { world = final (thread_func polled); point = pausing; rounds = xs ∷ [] })
rounded = round_then_serving both (begin both) polled here refl polls

abbrev after_round : System tenths
after_round = record {
  world = final (thread_func polled);
  point = pausing;
  rounds = rounded.0 ∷ [];
}

choices_follow_rounds_example :
    (length (map (weight {N = tenths}) rounded.0) ≡ servers_num)
    × (get_cur_selected_server_fd after_round.world
        ≡ chosen both.vars.servers_inner (map (weight {N = tenths}) rounded.0) after_round.world)
choices_follow_rounds_example =
    choices_follow_rounds starting both after_round refl starts rounded.2
