-- ===== src/Procmon/Readings.antt =====
-- servers/pm.h: the usages that two readings of the files leave, in the numbers that the kernel printed.
use gra_project.Base.{ℕ, ◌+◌, ◌-◌, ◌%◌, ◌^◌, ◌≡◌, ◌≤◌, refl, ◌∙◌, List, ◌∷◌, Bytes, All, arith}
use gra_project.Sys.{World, Run, returns, ◌>>◌}
use gra_project.Numbers.{Numbers}
use gra_project.Algorithm.Monitor.{Usage}
use gra_project.Procmon.{sub_long, add_long}
use gra_project.Procmon.Ticks.{Machine, Vars, Sample, take_sample, usage_since, remember}
use gra_project.Procmon.Files.{Says, usages_between_samples}
use gra_project.Procmon.Disks.{Device, IsDevice}
use gra_project.Procmon.Sums.{last_device, counted, sum_of, text_of, parse_io-text_of}
use gra_project.Procmon.Printed.{
  StatText, stat_text, IsStat, stat_data, parse_stat-stat_text, MemText, meminfo_text, IsMem,
  mem_data, parse_mem-meminfo_text,
}

-- What the kernel prints into the four files at one time.
pub record Reading : Type 0 where
  pub stat : StatText
  pub mem : MemText
  pub disk : Device
  pub disks : List Device
  pub up : Bytes

pub record IsReading (r : Reading) : Type 0 where
  pub stat : IsStat r.stat
  pub mem : IsMem r.mem
  pub disks : All IsDevice (r.disk ∷ r.disks)
  pub room : r.mem.free.value + r.mem.buffers.value + r.mem.cached.value ≤ r.mem.total.value

-- The ticks that the processors were busy.
abbrev pub busy : Reading → ℕ
busy r = r.stat.user + r.stat.system

-- The memory that is in use.
abbrev pub used : Reading → ℕ
used r = r.mem.total.value - (r.mem.free.value + r.mem.buffers.value + r.mem.cached.value)

-- The sum of the disks, with the last field of the last device that the parser adds once more.
abbrev pub disk_time : Reading → ℕ
disk_time r =
    let l = last_device r.disk r.disks in (sum_of (r.disk ∷ r.disks) + counted l l.last) % 2 ^ 64

abbrev pub diskstats_text : Reading → Bytes
diskstats_text r = text_of (r.disk ∷ r.disks)

busy_diff :
    (a b : Reading)
    → IsReading a
    → IsReading b
    → busy a ≤ busy b
    → sub_long (sub_long (add_long b.stat.user b.stat.system) a.stat.user) a.stat.system
      ≡ busy b - busy a
busy_diff a b h g le =
    omega (arith, le, h.stat.long.0, h.stat.long.1.1.0, g.stat.long.0, g.stat.long.1.1.0)

used_diff :
    (b : Reading) → IsReading b → sub_long b.mem.total.value (mem_data b.mem).mem_idle ≡ used b
used_diff b g = omega (arith, g.room, g.mem.0.value)

disk_diff :
    (a b : Reading)
    → disk_time a ≤ disk_time b
    → sub_long (disk_time b) (disk_time a) ≡ disk_time b - disk_time a
disk_diff a b le = omega (arith, le)

module _ {N : Numbers} (machine : Machine N) where
  abbrev pub uptime : Reading → N.Double
  uptime r = machine.read_double r.up

  abbrev sample_of : Reading → Sample N
  sample_of r = record {
    stat = stat_data r.stat;
    mem = mem_data r.mem;
    io_run = disk_time r;
    up = uptime r;
  }

  reading-Says :
      (r : Reading)
      → IsReading r
      → Says machine (meminfo_text r.mem) r.up (diskstats_text r) (stat_text r.stat) (sample_of r)
  reading-Says r h = record {
    says_mem = parse_mem-meminfo_text r.mem h.mem;
    says_stat = parse_stat-stat_text r.stat h.stat;
    io_state = _;
    says_io = parse_io-text_of r.disk r.disks h.disks;
    says_run = refl;
    says_up = refl;
  }

  -- `take_sample` on the files of a reading.
  abbrev pub sample : Reading → World (Vars N) → Run (Vars N) (Unit {0})
  sample r = take_sample machine (meminfo_text r.mem) r.up (diskstats_text r) (stat_text r.stat)

  -- Percentages, of the ticks, the memory and the milliseconds of so many seconds.
  abbrev percentages : N.Double → ℕ → ℕ → ℕ → ℕ → Usage N
  percentages sec ticks kb total milliseconds = record {
    cpu =
        N.mul
          (N.div (machine.of_long ticks)
            (N.mul (N.mul sec (N.of_int machine.clock_ticks)) (N.of_int 2)))
          (N.lit 1000);
    memory = N.mul (N.div (machine.of_long kb) (machine.of_long total)) (N.lit 1000);
    io = N.mul (N.div (N.div (machine.of_long milliseconds) (N.lit 10000)) sec) (N.lit 1000);
  }

  -- The percentages between two readings.
  abbrev pub usage_between : Reading → Reading → Usage N
  usage_between a b =
      percentages (N.sub (uptime b) (uptime a)) (busy b - busy a) (used b) b.mem.total.value
        (disk_time b - disk_time a)

  pub usages_of_readings :
      (a b : Reading) (w : World (Vars N))
      → IsReading a
      → IsReading b
      → busy a ≤ busy b
      → disk_time a ≤ disk_time b
      → (v : World (Vars N)) × ((sample a >> sample b) w ≡ returns tt v)
        × (v.script ≡ w.script)
        × (v.vars.usage ≡ usage_between a b)
  unfolding usage_since remember
  usages_of_readings a b w h g ticks disks =
      let (v, run, script, usage) =
        usages_between_samples machine (meminfo_text a.mem) a.up (diskstats_text a)
          (stat_text a.stat) (meminfo_text b.mem) b.up (diskstats_text b) (stat_text b.stat)
          (sample_of a) (sample_of b) w (reading-Says a h) (reading-Says b g) in
      (
        v,
        run,
        script,
        usage ∙ (λ i.
            percentages (N.sub (uptime b) (uptime a)) (busy_diff a b h g ticks i) (used_diff b g i)
              b.mem.total.value (disk_diff a b disks i)),
      )
