-- ===== src/Procmon.antt =====
-- servers/pm.h: the texts of /proc files parsed. A `long long` is its 64
-- bits.
pub mod Ticks
pub mod Devices
pub mod Disks
pub mod Sums
pub mod Printed
pub mod Needs
pub mod Fuel
pub mod Files
pub mod Readings
pub mod Thread
use gra_project.Base.{
  ℕ, zero, suc, ◌+◌, ◌-◌, ◌*◌, ◌%◌, ◌^◌, Bool, true, false, not, ◌&&◌, ◌||◌, Option, none, some,
  List, [], ◌∷◌, ◌++◌, Bytes, length, ltb, leb, ◌==◌, if◌then◌else◌,
}
use gra_project.Numbers.{Numbers}
use gra_project.Streams.{is_digit, Stream, stream_of, read_word, read_long, skip_word}

-- `long long`s that are read one after the other, each unset before.
unfoldable pub read_longs : ℕ → Stream → List (Option ℕ)
unfolding read_long
read_longs zero s = []
read_longs (suc n) s = let r = read_long s none in r.1 ∷ read_longs n r.0

-- A `long long` sum.
abbrev pub add_long : ℕ → ℕ → ℕ
add_long a b = (a + b) % 2 ^ 64

abbrev pub sub_long : ℕ → ℕ → ℕ
sub_long a b = (a + (2 ^ 64 - b)) % 2 ^ 64

pub record StatData : Type 0 where
  pub idle0 : ℕ
  pub utime : ℕ
  pub systime : ℕ
  pub all_time : ℕ

abbrev pub no_stat : StatData
no_stat = record { idle0 = 0; utime = 0; systime = 0; all_time = 0 }

-- The sum leaves `iowait` out; `none` is the use of a variable that is not set.
unfoldable pub stat_of : List (Option ℕ) → Option StatData
stat_of (some user ∷ some nice ∷ some sys ∷ some idle ∷ iowait ∷ some irq ∷ some softirq ∷ []) =
    some (record {
      idle0 = idle;
      utime = user;
      systime = sys;
      all_time =
          add_long (add_long (add_long (add_long (add_long user nice) sys) idle) irq) softirq;
    })
stat_of _ = none

unfoldable pub parse_stat : Bytes → Option StatData
unfolding read_word read_longs stat_of
parse_stat text = stat_of (read_longs 7 (skip_word (stream_of text)))

pub record MemData : Type 0 where
  pub mem_idle : ℕ
  pub all_mem : ℕ

-- Lines of a name, a number and a unit.
unfoldable pub read_lines : ℕ → Stream → List (Option ℕ)
unfolding read_long read_word
read_lines zero s = []
read_lines (suc n) s = let r = read_long (skip_word s) none in r.1 ∷ read_lines n (skip_word r.0)

unfoldable pub mem_of : List (Option ℕ) → Option MemData
mem_of (some total ∷ some free ∷ available ∷ some buffers ∷ some cached ∷ []) =
    some (record { mem_idle = add_long (add_long free buffers) cached; all_mem = total })
mem_of _ = none

unfoldable pub parse_mem : Bytes → Option MemData
unfolding read_lines mem_of
parse_mem text = mem_of (read_lines 5 (stream_of text))

-- The variables of `IoData::parse`; `io_run` is the field that it adds to.
pub record IoState : Type 0 where
  pub stream : Stream
  pub name : Bytes
  pub tmp : Option ℕ
  pub io_run : ℕ

-- How a parse ends: `never` is a loop that does not end.
pub data Parsed : Type 0 where
  parsed : IoState → Parsed
  unset : Parsed
  never : Parsed

-- `name.back() < '0' || name.back() > '9'`; an empty name has no last character.
abbrev pub last_char : Bytes → Option ℕ
last_char [] = none
last_char (c ∷ []) = some c
last_char (c ∷ d ∷ cs) = last_char (d ∷ cs)

unfoldable pub add_tenth : Option ℕ → IoState → Parsed
add_tenth none s = unset
add_tenth (some c) s =
    if is_digit c
    then parsed s
    else elim s.tmp [ none ↦ unset | some t ↦ parsed (record s { io_run = add_long s.io_run t }) ]

-- `iss >> tmp`, `n` times.
unfoldable pub read_fields : ℕ → IoState → IoState
unfolding read_long
read_fields zero s = s
read_fields (suc n) s =
    let r = read_long s.stream s.tmp in read_fields n (record s { stream = r.0; tmp = r.1 })

abbrev pub and_parsed : Parsed → (IoState → Parsed) → Parsed
and_parsed (parsed s) f = f s
and_parsed unset f = unset
and_parsed never f = never

-- The two numbers and the name of a device.
unfoldable pub read_device : IoState → IoState
unfolding read_long read_word
read_device s =
    let p1 = read_long s.stream none in
    let p2 = read_long p1.0 none in
    let r = read_word p2.0 s.name in record s { stream = r.0; name = r.1 }

unfoldable pub io_turn : IoState → Parsed
unfolding read_device read_fields add_tenth
io_turn s =
    let t = read_fields 10 (read_device s) in
    and_parsed (add_tenth (last_char t.name) t) (λ u. parsed (read_fields 7 u))

-- `while (!iss.eof())`. A turn takes a character, or ends the stream, or fails; after a failure the
-- turns change nothing of the stream, and the loop never ends if it has not reached the end.
unfoldable pub io_loop : ℕ → IoState → Parsed
unfolding io_turn
io_loop zero s = if s.stream.eof then parsed s else never
io_loop (suc fuel) s = elim s.stream.eof [
  | true ↦ parsed s
  | false ↦ and_parsed (io_turn s) (io_loop fuel)
]

unfoldable pub parse_io : Bytes → Parsed
unfolding io_loop
parse_io text =
    io_loop (suc (length text))
      (record { stream = stream_of text; name = []; tmp = none; io_run = 0 })
