-- ===== src/Promon/Agrees.antt =====
-- procmon/promon_all.cc and servers/pm.h: the two monitors tick alike.
use gra_project.Base.{
  ℕ, ◌≡◌, refl, ap, ◌∙◌, Bool, true, false, ◌||◌, Option, none, some, [], ◌++◌, Bytes,
  if◌then◌else◌, ◌==◌, Bool-cases, inl, inr,
}
use gra_project.Sys.{
  result, stored, World, Run, returns, halts, M, and_then, ◌>>=◌, ◌>>◌, pure, get,
}
use gra_project.Sys.Simulates.{
  map_world, map_run, Simulates, Simulates-bind, Simulates-seq, Simulates-pure, Simulates-stop,
  Simulates-get, Simulates-modify, Simulates-syscall, Simulates-run_call, Simulates-if,
  Simulates-Outcome, Simulates-loop, Simulates-ok_or_exit,
}
use gra_project.Numbers.{Numbers}
use gra_project.Streams.{is_empty}
use gra_project.Procmon.{Parsed, parsed, unset, never, parse_mem, parse_stat, parse_io}
use gra_project.Procmon.Ticks
use gra_project.Procmon.Ticks.{Machine, Sample}
use gra_project.Promon
use gra_project.Promon.{Vars, no_usage}
use gra_project.Algorithm.Monitor.{Usage}

-- A fraction in percent.
abbrev pub percent : {N : Numbers} → Usage N → Usage N
percent {N} u = record {
  cpu = N.mul u.cpu (N.lit 1000);
  memory = N.mul u.memory (N.lit 1000);
  io = N.mul u.io (N.lit 1000);
}

-- The object of servers/pm.h that stands at the same point.
abbrev pub in_percent : {N : Numbers} → Vars N → Ticks.Vars N
in_percent s = record {
  closed = false;
  ticked = s.ticked;
  sec = s.sec;
  usage = percent s.usage;
  last_stat = s.last_stat;
  last_io = s.last_io;
  last_up = s.last_up;
  content = s.content;
}

-- A run whose result is dropped.
abbrev pub forget : {S A : Type 0} → Run S A → Run S (Unit {0})
forget (returns a w) = returns tt w
forget (halts h w) = halts h w

module _ {N : Numbers} where
  abbrev Alike : {A : Type 0} → M (Vars N) A → M (Ticks.Vars N) A → Type 0
  Alike m n = Simulates (λ (s : Vars N). Unit) in_percent m n

  -- As `Alike`, but for the result of the first.
  record Agree {A : Type 0} (m : M (Vars N) A) (n : M (Ticks.Vars N) (Unit {0})) : Type 0 where
    at : (w : World (Vars N)) → n (map_world in_percent w) ≡ map_run in_percent (forget (m w))

  Agree-run :
      {A B : Type 0} (r : Run (Vars N) A) (f : A → M (Vars N) B)
      (g : A → M (Ticks.Vars N) (Unit {0}))
      → ((a : A) → Agree (f a) (g a))
      → and_then (map_run in_percent r) g ≡ map_run in_percent (forget (and_then r f))
  Agree-run (returns a w) f g h = (h a).at w
  Agree-run (halts e w) f g h = refl

  Agree-bind :
      {A B : Type 0} {m : M (Vars N) A} {n : M (Ticks.Vars N) A} {f : A → M (Vars N) B}
      {g : A → M (Ticks.Vars N) (Unit {0})}
      → Alike m n
      → ((a : A) → Agree (f a) (g a))
      → Agree (m >>= f) (n >>= g)
  Agree-bind {m} {f} {g} h k = record {
    at = λ w. ap (λ r. and_then r g) (h.at w tt) ∙ Agree-run (m w) f g k;
  }

  Agree-if :
      {A : Type 0} (b : Bool) {m k : M (Vars N) A} {n l : M (Ticks.Vars N) (Unit {0})}
      → Agree m n
      → Agree k l
      → Agree (if b then m else k) (if b then n else l)
  Agree-if true h g = h
  Agree-if false h g = g

  result-run :
      (r : Run (Vars N) (Unit {0}))
      → map_run in_percent r
        ≡ map_run in_percent (forget (and_then r (λ x. get >>= (λ s. pure s.usage))))
  result-run (returns a w) = refl
  result-run (halts h w) = refl

  Agree-result :
      {m : M (Vars N) (Unit {0})} {n : M (Ticks.Vars N) (Unit {0})}
      → Alike m n
      → Agree (m >> (get >>= (λ s. pure s.usage))) n
  Agree-result {m} h = record { at = λ w. h.at w tt ∙ result-run (m w) }

  read_piece-Alike : (fd : ℕ) → Alike (Promon.read_piece fd) (Ticks.read_piece fd)
  unfolding Promon.read_piece Ticks.read_piece
  read_piece-Alike fd = Simulates-bind (Simulates-syscall _) λ r.
      Simulates-Outcome (result r)
        (λ n. Simulates-if (n == 0) (Simulates-pure false) (
          Simulates-seq
            (Simulates-modify (λ (s : Vars N). record s { content = s.content ++ stored r })
              (λ (s : Ticks.Vars N). record s { content = s.content ++ stored r })
              (λ s p. (refl, tt)))
            (Simulates-pure true)))
        (λ e. Simulates-pure false)

  read_proc_file-Alike :
      (name : Bytes) → Alike (Promon.read_proc_file name) (Ticks.read_proc_file name)
  unfolding Promon.read_proc_file Ticks.read_proc_file
  read_proc_file-Alike name =
      Simulates-seq
        (Simulates-modify (λ (s : Vars N). record s { content = [] })
          (λ (s : Ticks.Vars N). record s { content = [] }) (λ s p. (refl, tt)))
        (Simulates-bind (Simulates-syscall _) λ r.
          Simulates-bind (Simulates-ok_or_exit (result r)) λ fd.
            Simulates-seq (Simulates-loop (read_piece-Alike fd)) (
              Simulates-seq (Simulates-run_call _) (
                Simulates-get (λ (s : Vars N). pure s.content)
                  (λ (s : Ticks.Vars N). pure s.content) (λ s p. Simulates-pure s.content))))

  or_undefined-Alike :
      {A : Type 0} (o : Option A) → Alike (Promon.or_undefined o) (Ticks.or_undefined o)
  or_undefined-Alike none = Simulates-stop _
  or_undefined-Alike (some a) = Simulates-pure a

  io_run_of-Alike : (r : Parsed) → Alike (Promon.io_run_of r) (Ticks.io_run_of r)
  io_run_of-Alike (parsed s) = Simulates-pure _
  io_run_of-Alike unset = Simulates-stop _
  io_run_of-Alike never = Simulates-stop _

  module _ (machine : Machine N) where
    compute-Alike :
        (now : Sample N) (s : Vars N)
        → Ticks.compute machine now (in_percent s) ≡ in_percent (Promon.compute machine now s)
    unfolding Ticks.compute Promon.compute Ticks.usage_since Promon.fraction_since
    compute-Alike now s = elim (Bool-cases s.ticked) [ inl e ↦ simp e | inr e ↦ simp e ]

    remember-Alike :
        (now : Sample N) (s : Vars N)
        → Ticks.remember machine now (in_percent s) ≡ in_percent (Promon.remember machine now s)
    unfolding Ticks.remember Promon.remember
    remember-Alike now s = refl

    take_sample-Alike :
        (m u i s : Bytes)
        → Alike (Promon.take_sample machine m u i s) (Ticks.take_sample machine m u i s)
    unfolding Promon.take_sample Ticks.take_sample Promon.parse_files Ticks.parse_files
    take_sample-Alike m u i s =
        Simulates-bind
          (Simulates-bind (or_undefined-Alike (parse_mem m)) λ mem.
            Simulates-bind (or_undefined-Alike (parse_stat s))
              λ stat. Simulates-bind (io_run_of-Alike (parse_io i)) λ io. Simulates-pure _)
          λ now.
            Simulates-seq
              (Simulates-modify (Promon.compute machine now) (Ticks.compute machine now)
                (λ s p. (compute-Alike now s, tt)))
              (Simulates-modify (Promon.remember machine now) (Ticks.remember machine now)
                (λ s p. (remember-Alike now s, tt)))

    Agree-tick : Agree (Promon.tick machine) (Ticks.tick machine)
    unfolding Promon.tick Ticks.tick
    Agree-tick = Agree-bind (read_proc_file-Alike _) λ m. Agree-bind (read_proc_file-Alike _) λ u.
        Agree-bind (read_proc_file-Alike _) λ i. Agree-bind (read_proc_file-Alike _) λ s.
          Agree-if (is_empty s || is_empty m || is_empty i || is_empty u)
            (record { at = λ w. refl }) (Agree-result (take_sample-Alike m u i s))

    -- From objects that stand at the same point, the tick of servers/pm.h and that of
    -- procmon/promon_all.cc make the same calls with the same replies, end alike, and leave objects
    -- that stand at the same point: the usages of the first are those of the second in percent.
    pub ticks_agree :
        (w : World (Vars N))
        → Ticks.tick machine (map_world in_percent w)
          ≡ map_run in_percent (forget (Promon.tick machine w))
    ticks_agree w = Agree-tick.at w
