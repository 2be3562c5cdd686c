-- ===== src/Procmon/Ticks.antt =====
-- servers/pm.h: `readProcFile`, `tick`, `getStat`, the thread and the destructor.
use gra_project.Base.{
  ℕ, Bool, true, false, ◌||◌, Option, none, some, [], ◌++◌, Bytes, if◌then◌else◌, ◌==◌,
}
use gra_project.Sys.{
  sleep, usleep, open_file, read, close, ok, error, result, stored, text, undefined, hanging, M,
  ◌>>=◌, ◌>>◌, pure, stop, get, modify, syscall, run_call, ok_or_exit,
}
use gra_project.Sys.Loop.{loop}
use gra_project.Numbers.{Numbers}
use gra_project.Procmon.{
  StatData, MemData, Parsed, parsed, unset, never, no_stat, parse_stat, parse_mem, parse_io,
  sub_long, add_long,
}
use gra_project.Streams.{is_empty}
use gra_project.Algorithm.Monitor.{Usage}

-- `istringstream(text) >> d` for a `double` that is 0.0 before, `(double) n` for the bits of a
-- `long long`, and the clock ticks per second.
pub record Machine (N : Numbers) : Type 0 where
  pub read_double : Bytes → N.Double
  pub of_long : ℕ → N.Double
  pub clock_ticks : ℕ

-- The object, and `content`, the local string of `readProcFile`.
pub record Vars (N : Numbers) : Type 0 where
  pub closed : Bool
  pub ticked : Bool
  pub sec : N.Double
  pub usage : Usage N
  pub last_stat : StatData
  pub last_io : ℕ
  pub last_up : N.Double
  pub content : Bytes

abbrev pub initial : (N : Numbers) → Vars N
initial N = record {
  closed = false;
  ticked = false;
  sec = N.lit 0;
  usage = record { cpu = N.lit 0; memory = N.lit 0; io = N.lit 0 };
  last_stat = no_stat;
  last_io = 0;
  last_up = N.lit 0;
  content = [];
}

-- What the four files say.
pub record Sample (N : Numbers) : Type 0 where
  pub stat : StatData
  pub mem : MemData
  pub io_run : ℕ
  pub up : N.Double

module _ {N : Numbers} where
  -- A turn of the loop in `readProcFile`, with a buffer of BUFSIZ bytes.
  unfoldable pub read_piece : ℕ → M (Vars N) Bool
  read_piece fd = do
    r ← syscall (read fd 8192)
    elim (result r) [
      | error e ↦ pure false
      | ok n ↦
          if n == 0
          then pure false
          else (do modify (λ s. record s { content = s.content ++ stored r }); pure true)
    ]

  unfoldable pub read_proc_file : Bytes → M (Vars N) Bytes
  read_proc_file basename = do
    modify (λ s. record s { content = [] })
    r ← syscall (open_file (text "/proc/" ++ basename))
    fd ← ok_or_exit (result r)
    loop (read_piece fd)
    run_call (close fd)
    s ← get
    pure s.content

  abbrev pub or_undefined : {A : Type 0} → Option A → M (Vars N) A
  or_undefined none = stop undefined
  or_undefined (some a) = pure a

  abbrev pub io_run_of : Parsed → M (Vars N) ℕ
  io_run_of (parsed s) = pure s.io_run
  io_run_of unset = stop undefined
  io_run_of never = stop hanging

  unfoldable pub get_stat : M (Vars N) (Usage N)
  get_stat = do s ← get; pure s.usage

  module _ (machine : Machine N) where
    -- The usages since the last sample.
    unfoldable pub usage_since : Vars N → Sample N → N.Double → Usage N
    usage_since s now sec = record {
      cpu =
          N.mul
            (N.div
              (machine.of_long (
                sub_long (sub_long (add_long now.stat.utime now.stat.systime) s.last_stat.utime)
                  s.last_stat.systime))
              (N.mul (N.mul sec (N.of_int machine.clock_ticks)) (N.of_int 2)))
            (N.lit 1000);
      memory =
          N.mul
            (N.div (machine.of_long (sub_long now.mem.all_mem now.mem.mem_idle))
              (machine.of_long now.mem.all_mem))
            (N.lit 1000);
      io =
          N.mul (N.div (N.div (machine.of_long (sub_long now.io_run s.last_io)) (N.lit 10000)) sec)
            (N.lit 1000);
    }

    -- `if (ticked) { ... }`
    unfoldable pub compute : Sample N → Vars N → Vars N
    unfolding usage_since
    compute now s =
        let sec = N.sub now.up s.last_up in
        if s.ticked then record s { sec = sec; usage = usage_since s now sec } else s

    unfoldable pub remember : Sample N → Vars N → Vars N
    remember now s = record s {
      last_stat = now.stat;
      last_io = now.io_run;
      last_up = now.up;
      ticked = true;
    }

    unfoldable pub parse_files : Bytes → Bytes → Bytes → Bytes → M (Vars N) (Sample N)
    parse_files meminfo up_time io_stat stat = do
      mem ← or_undefined (parse_mem meminfo)
      stat_data ← or_undefined (parse_stat stat)
      io_run ← io_run_of (parse_io io_stat)
      pure (record {
        stat = stat_data;
        mem = mem;
        io_run = io_run;
        up = machine.read_double up_time;
      })

    unfoldable pub take_sample : Bytes → Bytes → Bytes → Bytes → M (Vars N) (Unit {0})
    unfolding compute remember
    take_sample meminfo up_time io_stat stat = do
      now ← parse_files meminfo up_time io_stat stat
      modify (compute now)
      modify (remember now)

    unfoldable pub tick : M (Vars N) (Unit {0})
    tick = do
      meminfo ← read_proc_file (text "meminfo")
      up_time ← read_proc_file (text "uptime")
      io_stat ← read_proc_file (text "diskstats")
      stat ← read_proc_file (text "stat")
      if is_empty stat || is_empty meminfo || is_empty io_stat || is_empty up_time
          then pure tt
          else take_sample meminfo up_time io_stat stat

    -- A turn of the thread that the constructor starts; `false` is `break`.
    unfoldable pub tick_turn : M (Vars N) Bool
    tick_turn = do
      s ← get
      if s.closed then pure false else (do tick; run_call (usleep 1700000); pure true)

    unfoldable pub tick_thread : M (Vars N) (Unit {0})
    tick_thread = loop tick_turn

  -- The destructor.
  unfoldable pub shut_down : M (Vars N) (Unit {0})
  shut_down = do modify (λ s. record s { closed = true }); run_call (sleep 2)
