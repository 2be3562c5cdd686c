-- ===== src/Tests/Startup.antt =====
-- The start of the algorithm distributor on small inputs.
use gra_project.Base.{◌≡◌, refl, map, List, [], ◌∷◌, ◌++◌, contains}
use gra_project.Sys.{done, World, returns}
use gra_project.Algorithm.{Vars, initial}
use gra_project.Algorithm.Startup.{init_inner_mon}
use gra_project.Algorithm.Startup.Servers.{
  Server, replies_of, fds, listening, admission_calls, init_inner_mon-servers,
}
use gra_project.Tests.Sample.{tenths}

abbrev servers : List Server
servers =
    record { fd = 4; address = 101; monitor = 14 }
    ∷ record { fd = 5; address = 102; monitor = 15 }
    ∷ record { fd = 6; address = 103; monitor = 16 }
    ∷ record { fd = 7; address = 104; monitor = 17 }
    ∷ []

abbrev pub begun : World (Vars tenths)
begun = record {
  vars = initial tenths 0;
  script = done 3 ∷ done 0 ∷ done 0 ∷ done 0 ∷ replies_of servers [];
  trace = [];
}

init_inner_mon-servers_example :
    (v : World (Vars tenths)) × (init_inner_mon begun ≡ returns tt v)
    × (v.vars.servers_inner ≡ map (λ (s : Server). (s.fd, s.monitor)) servers)
    × (contains v.vars.server_fd_set 5 ≡ contains (fds servers) 5)
    × (v.trace ≡ admission_calls 3 servers ++ (listening 3 ++ []))
init_inner_mon-servers_example = init_inner_mon-servers 3 servers [] begun 5 refl refl refl refl
