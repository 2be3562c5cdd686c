-- ===== src/Process.antt =====
-- procmon/procmon.cc: the monitor of one process.
pub mod Usages
use gra_project.Base.{
  ℕ, zero, suc, ◌+◌, ◌-◌, ◌*◌, ◌/◌, ◌%◌, ◌^◌, Bool, true, false, Option, none, some, List, [], ◌∷◌,
  ◌++◌, Bytes, get_or, replicate, map, ltb, if◌then◌else◌, ◌==◌,
}
use gra_project.Sys.{
  open_file, read, sleep, Outcome, ok, error, result, stored, text, exited, undefined, M, ◌>>=◌,
  ◌>>◌, pure, stop, get, modify, syscall, run_call, ok_or_exit,
}
use gra_project.Sys.Loop.{loop, forever}
use gra_project.Numbers.{Numbers}
use gra_project.Streams.{Stream, stream_of, read_number, read_char, is_empty, decimal_int}
use gra_project.Procmon.{sub_long}

-- `StatData`: the numbers are those from `ppid` to `starttime`, in the order of the file.
pub record StatData : Type 0 where
  pub state : ℕ
  pub numbers : List ℕ
  pub vsize_kb : ℕ
  pub rss_kb : ℕ
  pub rsslim : ℕ

-- As `memset` leaves it.
abbrev pub no_stat : StatData
no_stat = record { state = 0; numbers = replicate 19 0; vsize_kb = 0; rss_kb = 0; rsslim = 0 }

abbrev pub utime : StatData → ℕ
utime s = get_or s.numbers 10 0

abbrev pub stime : StatData → ℕ
stime s = get_or s.numbers 11 0

-- The variables that are read, with their widths and what they hold before: the members are 0, the
-- locals `vsize` and `rss` are not set.
abbrev pub layout : List (ℕ × Option ℕ)
layout =
    replicate 6 (32, some 0)
    ++ (replicate 13 (64, some 0) ++ ((64, none) ∷ (64, none) ∷ (64, some 0) ∷ []))

unfoldable pub read_all : List (ℕ × Option ℕ) → Stream → List (Option ℕ)
unfolding read_number
read_all [] s = []
read_all ((w, old) ∷ vars) s = let r = read_number w s old in r.1 ∷ read_all vars r.0

abbrev pub value : Option ℕ → ℕ
value none = 0
value (some n) = n

abbrev pub value_at : List (Option ℕ) → ℕ → ℕ
value_at values i = value (get_or values i none)

-- A number that has the sign bit is negative; the quotient goes towards 0.
abbrev pub divide_long : ℕ → ℕ → ℕ
divide_long n d = if ltb n (2 ^ 63) then n / d else (2 ^ 64 - (2 ^ 64 - n) / d) % 2 ^ 64

abbrev pub first : ℕ → List (Option ℕ) → List ℕ
first zero values = []
first (suc n) [] = []
first (suc n) (v ∷ values) = value v ∷ first n values

-- The end of `parse`; `none` is the use of a variable that is not set.
unfoldable pub stat_of : ℕ → ℕ → List (Option ℕ) → Option ℕ → Option ℕ → Option StatData
stat_of kb state values (some vsize) (some rss) = some (record {
  state = state;
  numbers = first 19 values;
  vsize_kb = divide_long vsize 1024;
  rss_kb = rss * kb % 2 ^ 64;
  rsslim = value_at values 21;
})
stat_of kb state values vsize rss = none

unfoldable pub parse : ℕ → Bytes → Option StatData
unfolding read_char read_all stat_of
parse kb start =
    let r = read_char (stream_of start) 0 in
    let values = read_all layout r.0 in
    stat_of kb r.1 values (get_or values 19 none) (get_or values 20 none)

-- What stands behind the last `c`.
unfoldable pub behind_last : ℕ → Bytes → Option Bytes
behind_last c [] = none
behind_last c (x ∷ xs) = elim (behind_last c xs) [
  | some rest ↦ some rest
  | none ↦ if x == c then some xs else none
]

abbrev pub or_whole : Bytes → Option Bytes → Bytes
or_whole text none = text
or_whole text (some rest) = rest

-- `stat.data() + rp + 1`, which is the whole text if there is no `)`.
unfoldable pub start_at_state : Bytes → Bytes
start_at_state stat = or_whole stat (behind_last b')' stat)

-- `max(0, static_cast<int>(d))`
unfoldable pub positive_int : ℕ → ℕ
positive_int d = if ltb (d % 2 ^ 32) (2 ^ 31) then d % 2 ^ 32 else 0

-- The sum of two `int`s that are not negative; past the range it is undefined.
unfoldable pub add_int : ℕ → ℕ → Option ℕ
add_int a b = if ltb (a + b) (2 ^ 31) then some (a + b) else none

-- `(double) n` for the bits of a `long long`, the clock ticks per second and the size of a page.
pub record Machine (N : Numbers) : Type 0 where
  pub of_long : ℕ → N.Double
  pub clock_ticks : ℕ
  pub kb_per_page : ℕ

-- The object, `content`, the local string of `readProcFile`, and the pairs printed, newest first.
pub record Vars (N : Numbers) : Type 0 where
  pub ticked : Bool
  pub cpu : N.Double
  pub mem : N.Double
  pub last : StatData
  pub content : Bytes
  pub printed : List (N.Double × N.Double)

abbrev pub initial : (N : Numbers) → Vars N
initial N = record {
  ticked = false;
  cpu = N.lit 0;
  mem = N.lit 0;
  last = no_stat;
  content = [];
  printed = [];
}

module _ {N : Numbers} where
  unfoldable pub read_piece : ℕ → M (Vars N) Bool
  read_piece fd = do
    r ← syscall (read fd 8192)
    elim (result r) [
      | error e ↦ pure false
      | ok n ↦
          if n == 0
          then pure false
          else (do modify (λ s. record s { content = s.content ++ stored r }); pure true)
    ]

  -- This copy does not close the file.
  unfoldable pub read_proc_file : ℕ → Bytes → M (Vars N) Bytes
  unfolding decimal_int
  read_proc_file pid basename = do
    modify (λ s. record s { content = [] })
    r ← syscall (open_file (text "/proc/" ++ (decimal_int pid ++ (b'/' ∷ basename))))
    fd ← ok_or_exit (result r)
    loop (read_piece fd)
    s ← get
    pure s.content

  abbrev pub or_undefined : {A : Type 0} → Option A → M (Vars N) A
  or_undefined none = stop undefined
  or_undefined (some a) = pure a

  module _ (machine : Machine N) where
    -- `CpuTime::cpuUsage`
    unfoldable pub cpu_usage : N.Double → ℕ → N.Double
    cpu_usage period time =
        N.div (N.div (N.of_int time) (N.mul (N.of_int machine.clock_ticks) period)) (N.lit 10)

    -- The ticks of the process since the last tick, in user mode and in the kernel.
    unfoldable pub time_since : StatData → StatData → Option ℕ
    unfolding positive_int add_int
    time_since last now =
        add_int (positive_int (sub_long (utime now) (utime last)))
          (positive_int (sub_long (stime now) (stime last)))

    unfoldable pub set_usages : N.Double → StatData → ℕ → Vars N → Vars N
    unfolding cpu_usage
    set_usages period now time s = record s {
      cpu = cpu_usage period time;
      mem = N.div (machine.of_long now.rss_kb) (N.lit 41943040);
    }

    -- `if (ticked) { ... }`
    unfoldable pub compute : N.Double → StatData → M (Vars N) (Unit {0})
    compute period now = do
      s ← get
      if s.ticked
          then (do time ← or_undefined (time_since s.last now); modify (set_usages period now time))
          else pure tt

    -- `tick` with the text of the file at hand.
    unfoldable pub take_sample : N.Double → Bytes → M (Vars N) (N.Double × N.Double)
    take_sample period stat = do
      now ← or_undefined (parse machine.kb_per_page (start_at_state stat))
      compute period now
      modify (λ s. record s { last = now; ticked = true })
      s ← get
      pure (s.cpu, s.mem)

    unfoldable pub tick : ℕ → N.Double → M (Vars N) (N.Double × N.Double)
    tick pid period = do
      stat ← read_proc_file pid (text "stat")
      if is_empty stat then pure (N.lit 0, N.lit 0) else take_sample period stat

    unfoldable pub main_turn : ℕ → M (Vars N) (Unit {0})
    main_turn pid = do
      p ← tick pid (N.lit 30)
      modify
          (λ s. record s { printed = (N.mul p.0 (N.lit 1000), N.mul p.1 (N.lit 1000)) ∷ s.printed })
      run_call (sleep 3)

    -- `main` with the arguments behind the name of the program.
    unfoldable pub main : List Bytes → M (Vars N) (Unit {0})
    unfolding read_number
    main [] = stop (exited 1)
    main (arg ∷ args) = do
      pid ← or_undefined (read_number 32 (stream_of arg) none).1
      forever (main_turn pid)
