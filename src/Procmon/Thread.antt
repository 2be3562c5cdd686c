-- ===== src/Procmon/Thread.antt =====
-- servers/pm.h: rules for the termination of a tick.
use gra_project.Base.{ℕ, ◌≡◌, arith, true, false, Option, none, some, Bytes, ◌==◌}
use gra_project.Sys.{Call, result, unfinished, World, halts, run_call}
use gra_project.Sys.Consumes.{
  Takes-finishes, Takes, Takes-first, Takes-seq_first, Takes-seq_later, Takes-pure, Takes-stop,
  Takes-get, Takes-modify, Takes-ok_or_exit, Takes-loop, Takes-if, Takes-Outcome, Takes-syscall,
  Takes-weaken,
}
use gra_project.Net.Rules.{takes_rules}
use gra_project.Numbers.{Numbers}
use gra_project.Procmon.{Parsed, parsed, unset, never, parse_mem, parse_stat, parse_io}
use gra_project.Procmon.Ticks.{
  Machine, Vars, read_piece, read_proc_file, or_undefined, io_run_of, parse_files, take_sample,
  compute, remember, tick,
}

module _ {N : Numbers} where
  Takes-run_call : (c : Call) → Takes {S = Vars N} 0 (run_call c)
  Takes-run_call c = search takes_rules

  Takes-or_undefined : {A : Type 0} (o : Option A) → Takes {S = Vars N} 0 (or_undefined o)
  Takes-or_undefined none = Takes-stop 0 _ (λ e. cc)
  Takes-or_undefined (some a) = Takes-pure a

  Takes-io_run_of : (r : Parsed) → Takes {S = Vars N} 0 (io_run_of r)
  Takes-io_run_of (parsed s) = Takes-pure _
  Takes-io_run_of unset = Takes-stop 0 _ (λ e. cc)
  Takes-io_run_of never = Takes-stop 0 _ (λ e. cc)

  Takes-read_piece : (fd : ℕ) → Takes 1 (read_piece {N = N} fd)
  unfolding read_piece
  Takes-read_piece fd = Takes-first (Takes-syscall _) λ r.
      Takes-Outcome (result r)
        (λ n.
          Takes-if (n == 0) (Takes-pure false) (Takes-seq_first (Takes-modify _) (Takes-pure true)))
        (λ e. Takes-pure false)

  Takes-read_proc_file : (name : Bytes) → Takes 1 (read_proc_file {N = N} name)
  unfolding read_proc_file
  Takes-read_proc_file name = Takes-seq_later (Takes-modify _) (
      Takes-first (Takes-syscall _) λ r. Takes-first (Takes-ok_or_exit (result r)) λ fd.
        Takes-seq_first (Takes-weaken (Takes-loop (Takes-read_piece fd)) (omega arith))
          (Takes-seq_first (Takes-run_call _) (Takes-first Takes-get λ s. Takes-pure _)))

  module _ (machine : Machine N) where
    Takes-take_sample : (m u i s : Bytes) → Takes 0 (take_sample machine m u i s)
    unfolding take_sample parse_files
    Takes-take_sample m u i s =
        Takes-first
          (Takes-first (Takes-or_undefined (parse_mem m)) λ mem.
            Takes-first (Takes-or_undefined (parse_stat s))
              λ stat. Takes-first (Takes-io_run_of (parse_io i)) λ io. Takes-pure _)
          λ now.
            Takes-seq_first (Takes-modify (compute machine now))
              (Takes-modify (remember machine now))

    Takes-tick : Takes 1 (tick machine)
    unfolding tick
    Takes-tick = Takes-first (Takes-read_proc_file _) λ m.
        Takes-first (Takes-weaken (Takes-read_proc_file _) (omega arith)) λ u.
          Takes-first (Takes-weaken (Takes-read_proc_file _) (omega arith)) λ i.
            Takes-first (Takes-weaken (Takes-read_proc_file _) (omega arith))
              λ s. Takes-if _ (Takes-pure tt) (Takes-take_sample m u i s)

    -- Whatever the replies, the loops of a tick that read the four files end or wait for a reply: none
    -- of them uses up its fuel.
    pub tick_finishes : (w v : World (Vars N)) → ¬ (tick machine w ≡ halts unfinished v)
    tick_finishes w v = Takes-finishes Takes-tick w v
