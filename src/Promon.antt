-- ===== src/Promon.antt =====
-- procmon/promon_all.cc: the monitor of the whole machine as a program of its own. Its parsers are
-- copies of those of servers/pm.h (Procmon).
pub mod Agrees
use gra_project.Base.{
  ℕ, zero, suc, Bool, true, false, ◌&&◌, ◌||◌, not, Option, none, some, List, [], ◌∷◌, ◌++◌, Bytes,
  if◌then◌else◌, ◌==◌,
}
use gra_project.Sys.{
  open_file, read, close, sleep, Outcome, ok, error, result, stored, text, M, ◌>>=◌, ◌>>◌, pure,
  stop, get, modify, undefined, hanging, syscall, run_call, ok_or_exit,
}
use gra_project.Sys.Loop.{loop, forever}
use gra_project.Numbers.{Numbers}
use gra_project.Streams.{is_empty}
use gra_project.Procmon.{
  StatData, Parsed, parsed, unset, never, no_stat, parse_stat, parse_mem, parse_io, sub_long,
  add_long,
}
use gra_project.Procmon.Ticks.{Machine, Sample}
use gra_project.Algorithm.Monitor.{Usage}

-- The object, `content`, the local string of `readProcFile`, and the numbers printed, newest first.
pub record Vars (N : Numbers) : Type 0 where
  pub ticked : Bool
  pub sec : N.Double
  pub usage : Usage N
  pub last_stat : StatData
  pub last_io : ℕ
  pub last_up : N.Double
  pub content : Bytes
  pub printed : List (Usage N)

abbrev pub no_usage : (N : Numbers) → Usage N
no_usage N = record { cpu = N.lit 0; memory = N.lit 0; io = N.lit 0 }

abbrev pub initial : (N : Numbers) → Vars N
initial N = record {
  ticked = false;
  sec = N.lit 0;
  usage = no_usage N;
  last_stat = no_stat;
  last_io = 0;
  last_up = N.lit 0;
  content = [];
  printed = [];
}

module _ {N : Numbers} where
  unfoldable pub read_piece : ℕ → M (Vars N) Bool
  read_piece fd = do
    r ← syscall (read fd 8192)
    elim (result r) [
      | error e ↦ pure false
      | ok n ↦
          if n == 0
          then pure false
          else (do modify (λ s. record s { content = s.content ++ stored r }); pure true)
    ]

  unfoldable pub read_proc_file : Bytes → M (Vars N) Bytes
  read_proc_file basename = do
    modify (λ s. record s { content = [] })
    r ← syscall (open_file (text "/proc/" ++ basename))
    fd ← ok_or_exit (result r)
    loop (read_piece fd)
    run_call (close fd)
    s ← get
    pure s.content

  abbrev pub or_undefined : {A : Type 0} → Option A → M (Vars N) A
  or_undefined none = stop undefined
  or_undefined (some a) = pure a

  abbrev pub io_run_of : Parsed → M (Vars N) ℕ
  io_run_of (parsed s) = pure s.io_run
  io_run_of unset = stop undefined
  io_run_of never = stop hanging

  -- What `printf` is given: percentages, that of the disks at most 100.
  unfoldable pub shown : Usage N → Usage N
  shown u = record {
    cpu = N.mul u.cpu (N.lit 1000);
    memory = N.mul u.memory (N.lit 1000);
    io =
        if N.le (N.lit 10) u.io && not (N.le u.io (N.lit 10))
        then N.lit 1000
        else N.mul u.io (N.lit 1000);
  }

  module _ (machine : Machine N) where
    -- The usages since the last sample, as fractions.
    unfoldable pub fraction_since : Vars N → Sample N → N.Double → Usage N
    fraction_since s now sec = record {
      cpu =
          N.div
            (machine.of_long (
              sub_long (sub_long (add_long now.stat.utime now.stat.systime) s.last_stat.utime)
                s.last_stat.systime))
            (N.mul (N.mul sec (N.of_int machine.clock_ticks)) (N.of_int 2));
      memory =
          N.div (machine.of_long (sub_long now.mem.all_mem now.mem.mem_idle))
            (machine.of_long now.mem.all_mem);
      io = N.div (N.div (machine.of_long (sub_long now.io_run s.last_io)) (N.lit 10000)) sec;
    }

    -- `if (ticked) { ... }`
    unfoldable pub compute : Sample N → Vars N → Vars N
    unfolding fraction_since
    compute now s =
        let sec = N.sub now.up s.last_up in
        if s.ticked then record s { sec = sec; usage = fraction_since s now sec } else s

    unfoldable pub remember : Sample N → Vars N → Vars N
    remember now s = record s {
      last_stat = now.stat;
      last_io = now.io_run;
      last_up = now.up;
      ticked = true;
    }

    unfoldable pub parse_files : Bytes → Bytes → Bytes → Bytes → M (Vars N) (Sample N)
    parse_files meminfo up_time io_stat stat = do
      mem ← or_undefined (parse_mem meminfo)
      stat_data ← or_undefined (parse_stat stat)
      io_run ← io_run_of (parse_io io_stat)
      pure (record {
        stat = stat_data;
        mem = mem;
        io_run = io_run;
        up = machine.read_double up_time;
      })

    unfoldable pub take_sample : Bytes → Bytes → Bytes → Bytes → M (Vars N) (Unit {0})
    unfolding compute remember
    take_sample meminfo up_time io_stat stat = do
      now ← parse_files meminfo up_time io_stat stat
      modify (compute now)
      modify (remember now)

    unfoldable pub tick : M (Vars N) (Usage N)
    tick = do
      meminfo ← read_proc_file (text "meminfo")
      up_time ← read_proc_file (text "uptime")
      io_stat ← read_proc_file (text "diskstats")
      stat ← read_proc_file (text "stat")
      if is_empty stat || is_empty meminfo || is_empty io_stat || is_empty up_time
          then pure (no_usage N)
          else (do take_sample meminfo up_time io_stat stat; s ← get; pure s.usage)

    unfoldable pub main_turn : M (Vars N) (Unit {0})
    unfolding shown
    main_turn = do
      u ← tick
      modify (λ s. record s { printed = shown u ∷ s.printed })
      run_call (sleep 3)

    unfoldable pub main : M (Vars N) (Unit {0})
    main = forever main_turn
