-- ===== src/Procmon/Printed.antt =====
-- /proc/stat and /proc/meminfo as the kernel prints them, and what the parsers of servers/pm.h read.
use gra_project.Base.{
  ℕ, ◌+◌, ◌%◌, ◌^◌, ◌≡◌, refl, sym, ap, ◌∙◌, Option, none, some, List, [], ◌∷◌, ◌++◌, append_assoc,
  Bytes, All, length, map, arith,
}
use gra_project.Sys.{text}
use gra_project.Procmon.{
  StatData, MemData, parse_stat, parse_mem, stat_of, mem_of, read_longs, read_lines,
}
use gra_project.Procmon.Disks.{IsLong, fields_text, spaces, spaces-Blanks, fields_text-BeginsBlank}
use gra_project.Procmon.Sums.{Blanks-append}
use gra_project.Streams.{Stream, skip_word, read_long}
use gra_project.Streams.Texts.{
  BeginsBlank, blank, Blanks, NoBlanks, good, digits, read_long-digits, read_word-name,
}

read_longs-fields_text :
    (ns : List ℕ) (gap rest : Bytes)
    → Blanks gap
    → All IsLong ns
    → BeginsBlank rest
    → read_longs (length ns) (good (gap ++ fields_text ns rest)) ≡ map some ns
unfolding read_longs
read_longs-fields_text [] gap rest g h b = refl
read_longs-fields_text (n ∷ ns) gap rest g h b =
    let behind = fields_text ns rest in
    ap (λ r. r.1 ∷ read_longs (length ns) r.0)
      (ap (λ t. read_long (good t) none) (sym (append_assoc gap (b' ' ∷ []) (digits n behind)))
        ∙ read_long-digits (gap ++ b' ' ∷ []) behind n none
            (Blanks-append gap (b' ' ∷ []) g (refl, tt)) h.0 (fields_text-BeginsBlank ns rest b))
    ∙ ap (◌∷◌ (some n)) (read_longs-fields_text ns [] rest tt h.1 b)

-- The first line of /proc/stat: the times in ticks, and what follows them.
pub record StatText : Type 0 where
  pub user : ℕ
  pub nice : ℕ
  pub system : ℕ
  pub idle : ℕ
  pub iowait : ℕ
  pub irq : ℕ
  pub softirq : ℕ
  pub others : Bytes

abbrev times : StatText → List ℕ
times s = s.user ∷ s.nice ∷ s.system ∷ s.idle ∷ s.iowait ∷ s.irq ∷ s.softirq ∷ []

abbrev pub stat_text : StatText → Bytes
stat_text s = text "cpu" ++ (b' ' ∷ fields_text (times s) s.others)

pub record IsStat (s : StatText) : Type 0 where
  pub long : All IsLong (times s)
  pub ends : BeginsBlank s.others

abbrev pub stat_data : StatText → StatData
stat_data s = record {
  idle0 = s.idle;
  utime = s.user;
  systime = s.system;
  all_time = (s.user + s.nice + s.system + s.idle + s.irq + s.softirq) % 2 ^ 64;
}

pub parse_stat-stat_text : (s : StatText) → IsStat s → parse_stat (stat_text s) ≡ some (stat_data s)
unfolding parse_stat stat_of
parse_stat-stat_text s h =
    ap (λ r. stat_of (read_longs 7 r.0))
      (read_word-name [] b'c' (text "pu") (b' ' ∷ fields_text (times s) s.others) [] tt
        (refl, (refl, (refl, tt))) (blank b' ' _ refl refl))
    ∙ ap stat_of (read_longs-fields_text (times s) (b' ' ∷ []) s.others (refl, tt) h.long h.ends)
    ∙ ap (λ n. some (record { idle0 = s.idle; utime = s.user; systime = s.system; all_time = n }))
        (omega arith)

-- A line of /proc/meminfo: a name, a number behind spaces, and the unit.
pub record MemLine : Type 0 where
  pub initial : ℕ
  pub name : Bytes
  pub pad : ℕ
  pub value : ℕ

pub record IsMemLine (l : MemLine) : Type 0 where
  pub name : NoBlanks (l.initial ∷ l.name)
  pub value : IsLong l.value

abbrev pub mem_text : List MemLine → Bytes → Bytes
mem_text [] rest = rest
mem_text (l ∷ ls) rest =
    l.initial
    ∷ (l.name
        ++ ((b' ' ∷ spaces l.pad)
            ++ digits l.value (b' ' ∷ b'k' ∷ b'B' ∷ b'\n' ∷ mem_text ls rest)))

read_lines-mem_text :
    (ls : List MemLine) (gap rest : Bytes)
    → Blanks gap
    → All IsMemLine ls
    → read_lines (length ls) (good (gap ++ mem_text ls rest)) ≡ map (λ l. some l.value) ls
unfolding read_lines
read_lines-mem_text [] gap rest g h = refl
read_lines-mem_text (l ∷ ls) gap rest g h =
    ap after_name (
      read_word-name gap l.initial l.name ((b' ' ∷ spaces l.pad) ++ digits l.value unit) [] g
        h.0.name (blank b' ' _ refl refl))
    ∙ ap after_value (
        read_long-digits (b' ' ∷ spaces l.pad) unit l.value none (refl, spaces-Blanks l.pad)
          h.0.value (blank b' ' _ refl refl))
    ∙ ap (λ r. some l.value ∷ read_lines (length ls) r.0)
        (read_word-name (b' ' ∷ []) b'k' (b'B' ∷ []) (b'\n' ∷ mem_text ls rest) [] (refl, tt)
          (refl, (refl, tt)) (blank b'\n' _ refl refl))
    ∙ ap (◌∷◌ (some l.value)) (read_lines-mem_text ls (b'\n' ∷ []) rest (refl, tt) h.1)
  where
    unit : Bytes
    unit = b' ' ∷ b'k' ∷ b'B' ∷ b'\n' ∷ mem_text ls rest

    after_value : Stream × Option ℕ → List (Option ℕ)
    after_value r = r.1 ∷ read_lines (length ls) (skip_word r.0)

    after_name : Stream × Bytes → List (Option ℕ)
    after_name r = after_value (read_long r.0 none)

-- The first five lines of /proc/meminfo, and what follows them.
pub record MemText : Type 0 where
  pub total : MemLine
  pub free : MemLine
  pub available : MemLine
  pub buffers : MemLine
  pub cached : MemLine
  pub others : Bytes

abbrev lines : MemText → List MemLine
lines m = m.total ∷ m.free ∷ m.available ∷ m.buffers ∷ m.cached ∷ []

abbrev pub meminfo_text : MemText → Bytes
meminfo_text m = mem_text (lines m) m.others

abbrev pub IsMem : MemText → Type 0
IsMem m = All IsMemLine (lines m)

abbrev pub mem_data : MemText → MemData
mem_data m = record {
  mem_idle = (m.free.value + m.buffers.value + m.cached.value) % 2 ^ 64;
  all_mem = m.total.value;
}

pub parse_mem-meminfo_text :
    (m : MemText) → IsMem m → parse_mem (meminfo_text m) ≡ some (mem_data m)
unfolding parse_mem mem_of
parse_mem-meminfo_text m h =
    ap mem_of (read_lines-mem_text (lines m) [] m.others tt h)
    ∙ ap (λ n. some (record { mem_idle = n; all_mem = m.total.value })) (omega arith)
