-- ===== src/Procmon/Files.antt =====
-- servers/pm.h: what `readProcFile` returns, and what two samples compute.
use gra_project.Base.{
  ℕ, zero, suc, ◌≤◌, ◌<◌, ◌≡◌, refl, sym, ap, ◌∙◌, true, false, some, List, [], ◌∷◌, ◌++◌,
  append_assoc, append-nil, arith, Bytes, length, take-length, ne→==, All,
}
use gra_project.Sys.{
  open_file, read, close, Reply, done, input, text, World, Run, returns, and_then, ◌>>=◌, ◌>>◌,
  syscall, pure, get, run_call,
}
use gra_project.Sys.Loop.{repeat, loop}
use gra_project.Numbers.{Numbers}
use gra_project.Procmon.{IoState, parsed, parse_stat, parse_mem, parse_io}
use gra_project.Procmon.Ticks.{
  Machine, Vars, Sample, read_piece, read_proc_file, usage_since, compute, remember, parse_files,
  take_sample,
}

-- A piece of a file that one `read` delivers.
abbrev pub IsPiece : Bytes → Type 0
IsPiece piece = (0 < length piece) × (length piece ≤ 8192)

abbrev pub joined : List Bytes → Bytes
joined [] = []
joined (p ∷ pieces) = p ++ joined pieces

-- The replies to the reads, the last of them at the end of the file.
abbrev pub reads : List Bytes → List Reply → List Reply
reads [] rest = input [] ∷ rest
reads (p ∷ pieces) rest = input p ∷ reads pieces rest

length-reads :
    (pieces : List Bytes) (rest : List Reply) → length pieces < length (reads pieces rest)
length-reads [] rest = omega arith
length-reads (p ∷ pieces) rest = omega (arith, length-reads pieces rest)

module _ {N : Numbers} where
  abbrev after_piece : ℕ → Bytes → List Reply → World (Vars N) → World (Vars N)
  after_piece fd piece rest w = record {
    vars = record w.vars { content = w.vars.content ++ piece };
    script = rest;
    trace = (read fd 8192, input piece) ∷ w.trace;
  }

  read_piece_lem :
      (fd : ℕ) (piece : Bytes) (rest : List Reply) (w : World (Vars N))
      → IsPiece piece
      → w.script ≡ input piece ∷ rest
      → read_piece fd w ≡ returns true (after_piece fd piece rest w)
  unfolding read_piece syscall
  read_piece_lem fd piece rest w h e =
      simp (e, take-length piece 8192 h.1, ne→== (length piece) 0 (omega (arith, h.0)))

  repeat-read_piece :
      (fd fuel : ℕ) (pieces : List Bytes) (rest : List Reply) (w : World (Vars N))
      → length pieces < fuel
      → All IsPiece pieces
      → w.script ≡ reads pieces rest
      → (v : World (Vars N)) × (repeat fuel (read_piece fd) w ≡ returns tt v)
        × (v.script ≡ rest)
        × (v.vars ≡ record w.vars { content = w.vars.content ++ joined pieces })
  unfolding repeat read_piece syscall
  repeat-read_piece fd zero pieces rest w n h e = absurd (omega arith)
  repeat-read_piece fd (suc fuel) [] rest w n h e = (
    record w { script = rest; trace = (read fd 8192, input []) ∷ w.trace },
    simp e,
    refl,
    ap (λ c. record w.vars { content = c }) (sym (append-nil w.vars.content)),
  )
  repeat-read_piece fd (suc fuel) (p ∷ pieces) rest w n h e =
      let u : World (Vars N) = after_piece fd p (reads pieces rest) w in
      let (v, run, script, vars) = repeat-read_piece fd fuel pieces rest u (omega arith) h.1 refl in
      (
        v,
        ap
              (λ r.
                and_then r
                  (λ more. elim more [ true ↦ repeat fuel (read_piece fd) | false ↦ pure tt ]))
              (read_piece_lem fd p (reads pieces rest) w h.0 e)
            ∙ run,
        script,
        vars
            ∙ ap (λ c. record w.vars { content = c })
                (append_assoc w.vars.content p (joined pieces)),
      )

  -- What follows the loop.
  abbrev finish : ℕ → Run (Vars N) (Unit {0}) → Run (Vars N) Bytes
  finish fd r = and_then r (λ done. do run_call (close fd); s ← get; pure s.content)

  abbrev opened : Bytes → ℕ → List Reply → World (Vars N) → World (Vars N)
  opened name fd rest w = record {
    vars = record w.vars { content = [] };
    script = rest;
    trace = (open_file (text "/proc/" ++ name), done fd) ∷ w.trace;
  }

  read_proc_file-opened :
      (name : Bytes) (fd : ℕ) (rest : List Reply) (w : World (Vars N))
      → w.script ≡ done fd ∷ rest
      → read_proc_file name w
        ≡ finish fd (repeat (suc (length rest)) (read_piece fd) (opened name fd rest w))
  unfolding read_proc_file loop syscall
  read_proc_file-opened name fd rest w e = simp e

  finish_lem :
      (fd : ℕ) (content : Bytes) (rest : List Reply) (v : World (Vars N))
      → v.script ≡ done 0 ∷ rest
      → v.vars.content ≡ content
      → finish fd (returns tt v)
        ≡ returns content (record v { script = rest; trace = (close fd, done 0) ∷ v.trace })
  unfolding syscall
  finish_lem fd content rest v e c = simp (e, c)

  -- A file that the kernel delivers in pieces of at most BUFSIZ bytes is returned whole, whatever was
  -- read before.
  pub read_proc_file_whole :
      (name : Bytes) (fd : ℕ) (pieces : List Bytes) (rest : List Reply) (w : World (Vars N))
      → All IsPiece pieces
      → w.script ≡ done fd ∷ reads pieces (done 0 ∷ rest)
      → (v : World (Vars N)) × (read_proc_file name w ≡ returns (joined pieces) v)
        × (v.script ≡ rest)
        × (v.vars ≡ record w.vars { content = joined pieces })
  read_proc_file_whole name fd pieces rest w h e =
      let script : List Reply = reads pieces (done 0 ∷ rest) in
      let (v, run, left, vars) =
        repeat-read_piece fd (suc (length script)) pieces (done 0 ∷ rest) (opened name fd script w)
          (omega (arith, length-reads pieces (done 0 ∷ rest))) h refl in
      (
        record v { script = rest; trace = (close fd, done 0) ∷ v.trace },
        read_proc_file-opened name fd script w e
            ∙ (ap (finish fd) run
                ∙ finish_lem fd (joined pieces) rest v left (ap (λ (s : Vars N). s.content) vars)),
        refl,
        vars,
      )

  -- The contents of meminfo, uptime, diskstats and stat, and that they say what a sample says.
  pub record Says (machine : Machine N) (meminfo up_time io_stat stat : Bytes) (now : Sample N)
      : Type 0 where
    pub says_mem : parse_mem meminfo ≡ some now.mem
    pub says_stat : parse_stat stat ≡ some now.stat
    pub io_state : IoState
    pub says_io : parse_io io_stat ≡ parsed io_state
    pub says_run : io_state.io_run ≡ now.io_run
    pub says_up : machine.read_double up_time ≡ now.up

  take_sample_lem :
      (machine : Machine N) (meminfo up_time io_stat stat : Bytes) (now : Sample N)
      (w : World (Vars N))
      → Says machine meminfo up_time io_stat stat now
      → take_sample machine meminfo up_time io_stat stat w
        ≡ returns tt (record w { vars = remember machine now (compute machine now w.vars) })
  unfolding take_sample parse_files
  take_sample_lem machine meminfo up_time io_stat stat now w h =
      simp (h.says_mem, h.says_stat, h.says_io, h.says_run, h.says_up)

  -- Two samples, one after the other, leave the usages of the difference between them: nothing from
  -- before the first sample has a part in them.
  pub usages_between_samples :
      (machine : Machine N) (meminfo up_time io_stat stat meminfo' up_time' io_stat' stat' : Bytes)
      (before now : Sample N) (w : World (Vars N))
      → Says machine meminfo up_time io_stat stat before
      → Says machine meminfo' up_time' io_stat' stat' now
      → (v : World (Vars N)) × ((take_sample machine meminfo up_time io_stat stat
              >> take_sample machine meminfo' up_time' io_stat' stat')
            w
          ≡ returns tt v)
        × (v.script ≡ w.script)
        × (v.vars.usage
            ≡ usage_since machine (remember machine before w.vars) now (N.sub now.up before.up))
  unfolding compute remember usage_since
  usages_between_samples machine meminfo up_time io_stat stat meminfo' up_time' io_stat' stat'
        before now w h g =
      let u : World (Vars N) = record w {
        vars = remember machine before (compute machine before w.vars);
      } in
      (
        record u { vars = remember machine now (compute machine now u.vars) },
        ap (λ r. and_then r (λ done. take_sample machine meminfo' up_time' io_stat' stat'))
              (take_sample_lem machine meminfo up_time io_stat stat before w h)
            ∙ take_sample_lem machine meminfo' up_time' io_stat' stat' now u g,
        refl,
        refl,
      )
