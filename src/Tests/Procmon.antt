-- ===== src/Tests/Procmon.antt =====
-- Procmon and the reports of the inner server on small inputs.
use gra_project.Base.{
  none, [], ◌*◌, ℕ, ◌≡◌, refl, arith, List, ◌∷◌, Bytes, length, get_or, replicate,
}
use gra_project.Sys.{Reply, done, input, read, write, World, returns, text}
use gra_project.Numbers.{Numbers}
use gra_project.Procmon.{IoState, parsed, parse_io, parse_mem, parse_stat, io_loop}
use gra_project.Streams.{skip_blanks, stream_of}
use gra_project.Procmon.Ticks.{Machine, Vars, initial, Sample}
use gra_project.Procmon.Devices.{at_end}
use gra_project.Procmon.Fuel.{parse_io_enough}
use gra_project.Procmon.Files.{Says}
use gra_project.Algorithm.Monitor.{usage_of}
use gra_project.Inner.Monitor.{report_of, report_turn}
use gra_project.Inner.Reports.{Exact, report_round_trip}
use gra_project.Tests.Sample.{tenths}

abbrev pub machine : Machine tenths
machine = record { read_double = λ bytes. length bytes; of_long = λ n. n * 10; clock_ticks = 100 }

-- One device; the tenth field behind the name is 10, the last one is 17.
abbrev pub diskstats : Bytes
diskstats = text "8 0 sda 1 2 3 4 5 6 7 8 9 10 11 12 13 14 15 16 17\n"

abbrev read_disks : IoState
read_disks = at_end (text "sda") 17 27

-- The sum is 27, the tenth field and the last one.
parse_io_one : parse_io diskstats ≡ parsed read_disks
unfolding parse_io
parse_io_one = refl

abbrev pub meminfo : Bytes
meminfo =
    text "MemTotal: 100 kB\nMemFree: 30 kB\nMemAvailable: 50 kB\nBuffers: 5 kB\nCached: 15 kB\n"

abbrev one_sample : ℕ → Sample tenths
one_sample up = record {
  stat = record { idle0 = 4; utime = 1; systime = 3; all_time = 21 };
  mem = record { mem_idle = 50; all_mem = 100 };
  io_run = 27;
  up = up;
}

one_sample-Says :
    (up_time : Bytes)
    → Says machine meminfo up_time diskstats
        (text "cpu 1 2 3 4 5 5 6\n")
        (one_sample (length up_time))
unfolding parse_mem parse_stat
one_sample-Says up_time = record {
  says_mem = refl;
  says_stat = refl;
  io_state = read_disks;
  says_io = parse_io_one;
  says_run = refl;
  says_up = refl;
}

abbrev begun : List Reply → World (Vars tenths)
begun script = record { vars = initial tenths; script = script; trace = [] }

abbrev two_pieces : List Bytes
two_pieces = replicate 9 1 ∷ replicate 4 2 ∷ []

ten_blanks : skip_blanks (text " \n") ≡ []
unfolding skip_blanks
ten_blanks = refl

-- Doubles that are natural numbers of tenths, with a reading that gives back what was written.
abbrev pub exact_tenths : Numbers
exact_tenths = record tenths {
  of_bytes = λ bytes. get_or bytes 0 0;
  to_bytes = λ a. a ∷ replicate 7 0;
}

pub exact_tenths-Exact : Exact exact_tenths
exact_tenths-Exact = record { length-to_bytes = λ x. refl; of_bytes-to_bytes = λ x. refl }

abbrev asked : World (Vars exact_tenths)
asked = record {
  vars = record (initial exact_tenths) { usage = record { cpu = 50; memory = 300; io = 20 } };
  script = input (b'G' ∷ []) ∷ done 24 ∷ [];
  trace = [];
}

report_round_trip_example :
    (report_turn 3 asked
      ≡ returns tt (record {
        vars = asked.vars;
        script = [];
        trace =
            (write 3 (report_of asked.vars.usage), done 24) ∷ (read 3 1, input (b'G' ∷ [])) ∷ [];
      }))
    × (length (report_of asked.vars.usage) ≡ 24)
    × (usage_of {N = exact_tenths} (report_of asked.vars.usage) ≡ asked.vars.usage)
report_round_trip_example = report_round_trip exact_tenths-Exact 3 b'G' [] asked refl

parse_io_enough_example :
    io_loop 1000 (record { stream = stream_of diskstats; name = []; tmp = none; io_run = 0 })
    ≡ parse_io diskstats
parse_io_enough_example = parse_io_enough diskstats 1000 (omega arith)
