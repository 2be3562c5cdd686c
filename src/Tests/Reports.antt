-- ===== src/Tests/Reports.antt =====
-- The threads of an inner server: a sample of its machine, a request, and the report.
use gra_project.Base.{◌*◌, ◌≡◌, refl, List, [], ◌∷◌, Bytes, length, Bool, true, false}
use gra_project.Sys.{Reply, done, input, World, Run, returns, halts, final, syscall, text}
use gra_project.Sys.Loop.{loop}
use gra_project.Algorithm.Monitor.{Usage}
use gra_project.Procmon.{parse_io, parse_mem, parse_stat}
use gra_project.Procmon.Files.{reads}
use gra_project.Procmon.Ticks.{
  Machine, Vars, initial, read_proc_file, read_piece, tick, tick_turn, take_sample, parse_files,
  compute, remember, get_stat,
}
use gra_project.Inner.Monitor.{report_turn, await_request, send_report}
use gra_project.Inner.Threads.{System, begin, waiting, Reach, here}
use gra_project.Inner.Threads.Sampled.{Sampled, samples_of, reports_are_samples}
use gra_project.Inner.Threads.Covered.{tick_then_report}
use gra_project.Tests.Procmon.{diskstats, meminfo, exact_tenths}

abbrev pub machine : Machine exact_tenths
machine = record { read_double = λ bytes. length bytes; of_long = λ n. n * 10; clock_ticks = 100 }

-- The replies to the reading of a file in one piece.
abbrev file : Bytes → List Reply → List Reply
file bytes rest = done 3 ∷ reads (bytes ∷ []) (done 0 ∷ rest)

abbrev pub started : World (Vars exact_tenths)
started = record {
  vars = record (initial exact_tenths) { ticked = true };
  script = file meminfo (
      file (text "90") (
        file diskstats
          (file (text "cpu 1 2 3 4 5 5 6\n") (done 0 ∷ input (b'G' ∷ []) ∷ done 24 ∷ []))));
  trace = [];
}

abbrev reported : World (Vars exact_tenths)
reported = final (report_turn 5 (final (tick_turn machine started)))

-- A run that returns, without a look at what it leaves.
abbrev is_return : {S : Type 0} → Run S (Unit {0}) → Bool
is_return (returns a w) = true
is_return (halts h w) = false

is_return_lem : {S : Type 0} (r : Run S (Unit {0})) → is_return r ≡ true → r ≡ returns tt (final r)
is_return_lem (returns a w) e = refl
is_return_lem (halts h w) e = cc

is_return-report : is_return (report_turn 5 (final (tick_turn machine started))) ≡ true
unfolding report_turn tick_turn tick read_proc_file read_piece take_sample parse_files compute
    remember parse_io parse_mem parse_stat get_stat await_request send_report syscall loop
is_return-report = refl

tick_then_report_example :
    (rs : List (Usage exact_tenths)) × Reach machine 5 started (record {
      world = reported;
      place = waiting;
      replaced = rs;
      sent = (length rs, (final (tick_turn machine started)).vars.usage) ∷ [];
    })
tick_then_report_example =
    tick_then_report machine 5 started (begin started) reported here refl
      (is_return_lem _ is_return-report)

-- The samples before the report, with a way to the point behind it.
pub counted :
    (rs : List (Usage exact_tenths)) × Reach machine 5 started (record {
      world = reported;
      place = waiting;
      replaced = rs;
      sent = (length rs, (final (tick_turn machine started)).vars.usage) ∷ [];
    })
counted =
    tick_then_report machine 5 started (begin started) reported here refl
      (is_return_lem _ is_return-report)

abbrev pub after_report : System exact_tenths
after_report = record {
  world = reported;
  place = waiting;
  replaced = counted.0;
  sent = (length counted.0, (final (tick_turn machine started)).vars.usage) ∷ [];
}

reports_are_samples_example : Sampled (samples_of after_report) (length counted.0) after_report.sent
reports_are_samples_example = reports_are_samples machine 5 started after_report counted.1
