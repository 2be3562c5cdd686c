-- ===== src/Tests/Monitors.antt =====
-- The stand-alone monitors on small inputs.
use gra_project.Base.{true, ℕ, ◌≡◌, refl, List, [], ◌∷◌, ◌++◌, Bytes, some, ◌*◌}
use gra_project.Sys.{Reply, done, input, World, returns, ◌>>=◌, text}
use gra_project.Sys.Simulates.{map_world, map_run}
use gra_project.Procmon.Ticks
use gra_project.Promon
use gra_project.Promon.Agrees.{in_percent, forget, ticks_agree}
use gra_project.Process
use gra_project.Process.{StatData, parse, Machine, cpu_usage, time_since, take_sample}
use gra_project.Process.Usages.{stat_text, usages_of_process}
use gra_project.Tests.Sample.{tenths}
use gra_project.Tests.Procmon.{machine, meminfo, diskstats}

-- The replies to the reading of one file.
abbrev file : Bytes → List Reply → List Reply
file content rest = done 3 ∷ input content ∷ done 0 ∷ done 0 ∷ rest

abbrev started : World (Promon.Vars tenths)
started = record {
  vars = record (Promon.initial tenths) { ticked = true; last_io = 7 };
  script =
      file meminfo (file (text "10.5") (file diskstats (file (text "cpu 1 2 3 4 5 5 6\n") [])));
  trace = [];
}

ticks_agree_example :
    Ticks.tick machine (map_world in_percent started)
    ≡ map_run in_percent (forget (Promon.tick machine started))
ticks_agree_example = ticks_agree machine started

abbrev process_machine : Machine tenths
process_machine = record { of_long = λ n. n * 10; clock_ticks = 100; kb_per_page = 4 }

-- Fields from the state on; the process has a name with a space and a parenthesis.
abbrev fields : Bytes → Bytes
fields times =
    text " S 1 1 1 0 -1 4194304 10 0 0 0 " ++ (times ++ text " 0 0 20 0 1 0 55 2048000 300 99\n")

abbrev before : Bytes
before = text "17 (a b) c"

abbrev at_tick : ℕ → ℕ → StatData
at_tick user system = record {
  state = b'S';
  numbers =
      1 ∷ 1 ∷ 1 ∷ 0 ∷ 4294967295 ∷ 4194304 ∷ 10 ∷ 0 ∷ 0 ∷ 0 ∷ user ∷ system ∷ 0 ∷ 0 ∷ 20 ∷ 0 ∷ 1 ∷ 0
      ∷ 55 ∷ [];
  vsize_kb = 2000;
  rss_kb = 1200;
  rsslim = 99;
}

parse_first : parse 4 (fields (text "7 5")) ≡ some (at_tick 7 5)
unfolding parse
parse_first = refl

parse_second : parse 4 (fields (text "27 15")) ≡ some (at_tick 27 15)
unfolding parse
parse_second = refl

time_between : time_since process_machine (at_tick 7 5) (at_tick 27 15) ≡ some 30
unfolding time_since
time_between = refl

abbrev begun : World (Process.Vars tenths)
begun = record { vars = Process.initial tenths; script = []; trace = [] }

usages_of_process_example :
    (v : World (Process.Vars tenths)) × ((take_sample process_machine 30
            (stat_text before (fields (text "7 5")))
          >>= (λ p.
              take_sample process_machine 30 (stat_text (text "17 (d") (fields (text "27 15")))))
        begun
      ≡ returns
          (cpu_usage process_machine 30 30, tenths.div (process_machine.of_long 1200) 41943040)
          v)
    × (v.script ≡ [])
usages_of_process_example =
    usages_of_process process_machine 30 before (text "17 (d") (fields (text "7 5"))
      (fields (text "27 15")) (at_tick 7 5) (at_tick 27 15) 30 begun refl refl parse_first
      parse_second time_between refl
