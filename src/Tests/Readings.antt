-- ===== src/Tests/Readings.antt =====
-- Two readings of the files of /proc on a small machine: two disks and a partition.
use gra_project.Base.{ℕ, ◌≡◌, refl, [], ◌∷◌, Bytes, All, ◌<◌, ◌^◌, replicate, arith}
use gra_project.Sys.{World, returns, text, ◌>>◌}
use gra_project.Procmon.{parse_io, parsed}
use gra_project.Procmon.Ticks.{Vars, initial}
use gra_project.Procmon.Disks.{Device, IsDevice}
use gra_project.Procmon.Sums.{text_of, parse_io-text_of}
use gra_project.Procmon.Devices.{at_end}
use gra_project.Procmon.Printed.{StatText, IsStat, MemLine, MemText, IsMem}
use gra_project.Procmon.Readings.{Reading, IsReading, sample, usage_between, usages_of_readings}
use gra_project.Streams.Texts.{NoBlanks, blank}
use gra_project.Tests.Sample.{tenths}
use gra_project.Tests.Procmon.{machine}

abbrev named : ℕ → Bytes → ℕ → Device
named c name tenth = record {
  major_pad = 3;
  major = 8;
  minor_pad = 6;
  minor = 0;
  initial = c;
  name = name;
  early = replicate 9 1;
  tenth = tenth;
  late = replicate 6 2;
  last = 5;
}

abbrev sda : ℕ → Device
sda = named b's' (text "da")

abbrev sda1 : Device
sda1 = named b's' (text "da1") 30

abbrev sdb : ℕ → Device
sdb = named b's' (text "db")

named-IsDevice :
    (c : ℕ) (name : Bytes) (tenth : ℕ)
    → NoBlanks (c ∷ name)
    → tenth < 2 ^ 63
    → IsDevice (named c name tenth)
named-IsDevice c name tenth h t = record {
  major = omega arith;
  minor = omega arith;
  name = h;
  early = omega arith;
  tenth = t;
  late = omega arith;
  last = omega arith;
  nine = refl;
  six = refl;
}

-- The disks with the partition between them.
disks-IsDevice : (m n : ℕ) → m < 2 ^ 63 → n < 2 ^ 63 → All IsDevice (sda m ∷ sda1 ∷ sdb n ∷ [])
disks-IsDevice m n h g = (
  named-IsDevice b's' (text "da") m (refl, (refl, (refl, tt))) h,
  (
    named-IsDevice b's' (text "da1") 30 (refl, (refl, (refl, (refl, tt)))) (omega arith),
    (named-IsDevice b's' (text "db") n (refl, (refl, (refl, tt))) g, tt),
  ),
)

-- 40 and 50 of the disks, and the last field of sdb once more.
parse_io-text_of_example :
    parse_io (text_of (sda 40 ∷ sda1 ∷ sdb 50 ∷ [])) ≡ parsed (at_end (text "sdb") 5 95)
parse_io-text_of_example =
    parse_io-text_of (sda 40) (sda1 ∷ sdb 50 ∷ [])
      (disks-IsDevice 40 50 (omega arith) (omega arith))

abbrev stat_line : ℕ → StatText
stat_line user = record {
  user = user;
  nice = 1;
  system = 20;
  idle = 300;
  iowait = 4;
  irq = 5;
  softirq = 6;
  others = text " 0 0 0\n";
}

stat_line-IsStat : (user : ℕ) → user < 2 ^ 63 → IsStat (stat_line user)
stat_line-IsStat user h = record { long = omega (arith, h); ends = blank b' ' _ refl refl }

abbrev mem_line : ℕ → Bytes → ℕ → MemLine
mem_line c name value = record { initial = c; name = name; pad = 7; value = value }

abbrev memory : MemText
memory = record {
  total = mem_line b'M' (text "emTotal:") 1000;
  free = mem_line b'M' (text "emFree:") 200;
  available = mem_line b'M' (text "emAvailable:") 600;
  buffers = mem_line b'B' (text "uffers:") 100;
  cached = mem_line b'C' (text "ached:") 300;
  others = text "SwapCached: 0 kB\n";
}

memory-IsMem : IsMem memory
memory-IsMem = (
  record { name = ground arith; value = omega arith },
  (
    record { name = ground arith; value = omega arith },
    (
      record { name = ground arith; value = omega arith },
      (
        record { name = ground arith; value = omega arith },
        (record { name = ground arith; value = omega arith }, tt),
      ),
    ),
  ),
)

abbrev reading : ℕ → ℕ → Reading
reading user disk = record {
  stat = stat_line user;
  mem = memory;
  disk = sda disk;
  disks = sda1 ∷ sdb 50 ∷ [];
  up = replicate disk b'1';
}

reading-IsReading : (user disk : ℕ) → user < 2 ^ 63 → disk < 2 ^ 63 → IsReading (reading user disk)
reading-IsReading user disk h g = record {
  stat = stat_line-IsStat user h;
  mem = memory-IsMem;
  disks = disks-IsDevice disk 50 g (omega arith);
  room = omega arith;
}

abbrev begun : World (Vars tenths)
begun = record { vars = initial tenths; script = []; trace = [] }

usages_of_readings_example :
    (v : World (Vars tenths)) × ((sample machine (reading 10 40) >> sample machine (reading 30 43))
        begun
      ≡ returns tt v)
    × (v.script ≡ [])
    × (v.vars.usage ≡ usage_between machine (reading 10 40) (reading 30 43))
usages_of_readings_example =
    usages_of_readings machine (reading 10 40) (reading 30 43) begun
      (reading-IsReading 10 40 (omega arith) (omega arith))
      (reading-IsReading 30 43 (omega arith) (omega arith)) (omega arith) (omega arith)
