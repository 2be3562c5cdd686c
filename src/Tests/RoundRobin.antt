-- ===== src/Tests/RoundRobin.antt =====
-- The round robin distributor on small inputs.
use gra_project.Base.{◌+◌, ◌%◌, ◌≡◌, refl, arith, List, [], ◌∷◌, ◌++◌, replicate}
use gra_project.Sys.{done, failed, World, returns}
use gra_project.Sys.Loop.{for_each}
use gra_project.Sys.Simulates.{map_world, map_run}
use gra_project.RoundRobin.Spec.{serve}
use gra_project.RoundRobin.Refines.{queue_of, thread_func-refines}
use gra_project.RoundRobin.{thread_func, Vars, servers_num, on_client}
use gra_project.RoundRobin.Order.{Request, replies_of, calls_from, requests_rotate}

abbrev four_servers : Vars
four_servers = record {
  servers_inner = (4, 14) ∷ (5, 15) ∷ (6, 16) ∷ (7, 17) ∷ [];
  cur_selected_server_index = 3;
}

-- Two requests when the last server is next; the second client has gone when it is answered.
abbrev requests : List Request
requests =
    record {
      fd = 20;
      bytes = replicate 16 7;
      told = done 16;
      some_bytes = omega arith;
      fits = omega arith;
    }
    ∷ record {
      fd = 21;
      bytes = replicate 9 8;
      told = failed 32;
      some_bytes = omega arith;
      fits = omega arith;
    }
    ∷ []

abbrev started : World Vars
started = record { vars = four_servers; script = replies_of requests []; trace = [] }

requests_rotate_example :
    (v : World Vars) × (for_each requests (λ q. on_client 3 q.fd) started ≡ returns tt v)
    × (v.vars.cur_selected_server_index ≡ (7 + 2) % servers_num)
    × (v.trace ≡ calls_from four_servers.servers_inner 7 requests ++ [])
requests_rotate_example = requests_rotate 3 7 requests [] started refl refl

thread_func-refines_example :
    let w : World Vars = record {
      vars = four_servers;
      script = done 9 ∷ done 0 ∷ [];
      trace = [];
    } in
    serve (map_world queue_of w) ≡ map_run queue_of (thread_func w)
thread_func-refines_example =
    thread_func-refines (record { vars = four_servers; script = done 9 ∷ done 0 ∷ []; trace = [] })
      (record { full = refl; inside = omega arith })
