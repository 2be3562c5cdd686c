-- ===== src/Tests/Feedback.antt =====
-- A round of the distributor over four inner servers that have done what `Tests/Reports` has.
use gra_project.Base.{length, ◌≡◌, refl, List, [], ◌∷◌, replicate, map, All}
use gra_project.Sys.{done, World, final}
use gra_project.Algorithm
use gra_project.Algorithm.{servers_num}
use gra_project.Algorithm.Monitor.{weight, finish_if_full, monitor_round}
use gra_project.Algorithm.Monitor.Weights.{replies_of}
use gra_project.Procmon.Ticks.{tick_turn}
use gra_project.Feedback.{Server, IsReported, IsSample, answer_of, round_of_samples}
use gra_project.Tests.Procmon.{exact_tenths, exact_tenths-Exact}
use gra_project.Tests.Reports.{machine, started, counted, after_report}

abbrev server : Server exact_tenths
server = record {
  machine = machine;
  mon_fd = 5;
  begun = started;
  now = after_report;
  number = length counted.0;
  usage = (final (tick_turn machine started)).vars.usage;
  older = [];
  asked = done 1;
}

abbrev servers : List (Server exact_tenths)
servers = replicate 4 server

-- The weights are there from an earlier round.
abbrev pausing : World (Algorithm.Vars exact_tenths)
pausing = record {
  vars = record (Algorithm.initial exact_tenths 0) {
    servers_inner = (4, 14) ∷ (5, 15) ∷ (6, 16) ∷ (7, 17) ∷ [];
    p = replicate 4 10;
  };
  script = done 0 ∷ replies_of (map (answer_of exact_tenths-Exact) servers) [];
  trace = [];
}

round_of_samples_example :
    (v : World (Algorithm.Vars exact_tenths)) × (monitor_round pausing ≡ finish_if_full v)
    × (v.vars.d ≡ exact_tenths.discrete (map (λ s. weight s.usage) servers))
    × All IsSample servers
round_of_samples_example =
    let h : IsReported server = (counted.1, refl) in
    round_of_samples exact_tenths-Exact (done 0) servers [] pausing refl refl refl
      (h, (h, (h, (h, tt))))
