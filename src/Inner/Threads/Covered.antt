-- ===== src/Inner/Threads/Covered.antt =====
-- Turns of the thread of `pm` and of `mainThreadFunc` as rows of the steps of Inner/Threads.
use gra_project.Base.{
  ℕ, ◌≡◌, refl, subst, false, true, Option, none, some, List, [], ◌∷◌, ◌++◌, Bytes, ◌==◌, length,
}
use gra_project.Sys.{World, Run, returns, halts, final, result, M, ◌>>=◌, modify}
use gra_project.Sys.Hoare.{Post, Hoare, Hoare-bind, Hoare-seq, Hoare-modify, Hoare-pure, Hoare-stop}
use gra_project.Sys.Rows.{
  Row, none, more, split_run, Walks, Calls, walks, Walks-move, Walks-bind, Walks-seq, Walks-pure,
  Walks-get, Walks-if, Walks-outcome, Walks-loop, Walks-ok_or_exit, Walks-syscall, Walks-run_call,
}
use gra_project.Numbers.{Numbers}
use gra_project.Procmon.{Parsed, parsed, unset, never, parse_stat, parse_mem, parse_io}
use gra_project.Algorithm.Monitor.{Usage}
use gra_project.Procmon.Ticks.{
  Machine, Vars, or_undefined, io_run_of, parse_files, compute, remember, take_sample, read_piece,
  read_proc_file, tick, tick_turn, get_stat,
}
use gra_project.Inner.Monitor.{await_request, send_report, report_turn}
use gra_project.Inner.Threads.{
  waiting, asked, holding, System, Reads, call, store, request, look, reading, sampling, reporting,
  sending, Reach, next,
}
use gra_project.Inner.Threads.Sampled.{Quiet-returns, Quiet-await_request}

module _ {N : Numbers} (machine : Machine N) (mon_fd : ℕ) where
  -- A turn of the thread of `pm`.
  data Turn (w v : World (Vars N)) : Type 0 where
    quiet : Reads machine mon_fd w v → Turn w v
    sample :
        (meminfo up_time io_stat stat : Bytes)
        → take_sample machine meminfo up_time io_stat stat w ≡ returns tt v
        → Turn w v

  abbrev Turned : {A : Type 0} → M (Vars N) A → Type 0
  Turned = Walks Turn

  Turn-calls : Calls Turn
  Turn-calls c r w v e = quiet (call c r e)

  -- What does not go through leaves the process as it was.
  abbrev Stays : {A : Type 0} → World (Vars N) → M (Vars N) A → Type 0
  Stays {A} w m = Hoare {A = A} (λ v. v ≡ w) m (λ _ v. v ≡ w) (λ h v. v ≡ w)

  Stays-or_undefined : {A : Type 0} (w : World (Vars N)) (o : Option A) → Stays w (or_undefined o)
  Stays-or_undefined w none = Hoare-stop _ (λ v e. e)
  Stays-or_undefined w (some a) = Hoare-pure a (λ v e. e)

  Stays-io_run_of : (w : World (Vars N)) (r : Parsed) → Stays w (io_run_of r)
  Stays-io_run_of w (parsed s) = Hoare-pure _ (λ v e. e)
  Stays-io_run_of w unset = Hoare-stop _ (λ v e. e)
  Stays-io_run_of w never = Hoare-stop _ (λ v e. e)

  Hoare-take_sample :
      (w : World (Vars N)) (m u i s : Bytes)
      → Hoare (λ v. v ≡ w) (take_sample machine m u i s) (λ _ v. Unit) (λ h v. v ≡ w)
  unfolding take_sample parse_files
  Hoare-take_sample w m u i s =
      Hoare-bind {R = λ _ v. v ≡ w}
        (Hoare-bind (Stays-or_undefined w (parse_mem m)) λ mem.
          Hoare-bind (Stays-or_undefined w (parse_stat s))
            λ stat. Hoare-bind (Stays-io_run_of w (parse_io i)) λ io. Hoare-pure _ (λ v e. e))
        λ now.
          Hoare-seq {R = λ v. Unit} (Hoare-modify (compute machine now) (λ v e. tt))
            (Hoare-modify (remember machine now) (λ v e. tt))

  take_sample-Turn :
      (w : World (Vars N)) (m u i s : Bytes) → Turn w (final (take_sample machine m u i s w))
  take_sample-Turn w m u i s =
      turn (take_sample machine m u i s w) refl ((Hoare-take_sample w m u i s).at w refl)
    where
      turn :
          (r : Run (Vars N) (Unit {0}))
          → take_sample machine m u i s w ≡ r
          → Post (λ _ v. Unit) (λ h v. v ≡ w) r
          → Turn w (final r)
      turn (returns a v) e p = sample m u i s e
      turn (halts h v) e p = quiet (store w.vars.content p)

  Turned-take_sample : (m u i s : Bytes) → Turned (take_sample machine m u i s)
  Turned-take_sample m u i s = Walks-move (λ w. take_sample-Turn w m u i s)

  Turned-content : (f : Vars N → Bytes) → Turned (modify (λ s. record s { content = f s }))
  Turned-content f = Walks-move (λ v. quiet (store (f v.vars) refl))

  Turned-read_piece : (fd : ℕ) → Turned (read_piece {N = N} fd)
  unfolding read_piece
  Turned-read_piece fd = Walks-bind (Walks-syscall Turn-calls _) λ r.
      Walks-outcome (result r)
        (λ n. Walks-if (n == 0) (Walks-pure false) (Walks-seq (Turned-content _) (Walks-pure true)))
        (λ e. Walks-pure false)

  Turned-read_proc_file : (name : Bytes) → Turned (read_proc_file {N = N} name)
  unfolding read_proc_file
  Turned-read_proc_file name = Walks-seq (Turned-content _) (
      Walks-bind (Walks-syscall Turn-calls _) λ r. Walks-bind (Walks-ok_or_exit (result r)) λ fd.
        Walks-seq (Walks-loop (Turned-read_piece fd))
          (Walks-seq (Walks-run_call Turn-calls _) (Walks-bind Walks-get λ s. Walks-pure _)))

  Turned-tick : Turned (tick machine)
  unfolding tick
  Turned-tick = Walks-bind (Turned-read_proc_file _) λ m. Walks-bind (Turned-read_proc_file _) λ u.
      Walks-bind (Turned-read_proc_file _) λ i.
        Walks-bind (Turned-read_proc_file _)
          λ s. Walks-if _ (Walks-pure tt) (Turned-take_sample m u i s)

  Turned-tick_turn : Turned (tick_turn machine)
  unfolding tick_turn
  Turned-tick_turn = Walks-bind Walks-get λ s.
      Walks-if s.closed (Walks-pure false)
        (Walks-seq Turned-tick (Walks-seq (Walks-run_call Turn-calls _) (Walks-pure true)))

  module _ (u : World (Vars N)) where
    -- The process with the thread of `pm` at work in `s`.
    abbrev Ticked : System N → World (Vars N) → List (Usage N) → Type 0
    Ticked s v rs = Reach machine mon_fd u (record s { world = v; replaced = rs })

    Row-Reach :
        (s : System N) {v : World (Vars N)}
        → Row Turn s.world v
        → Reach machine mon_fd u s
        → (rs : List (Usage N)) × Ticked s v rs
    Row-Reach s none r = (s.replaced, r)
    Row-Reach s (more turns (quiet turn)) r =
        let (rs, r') = Row-Reach s turns r in (rs, next r' (reading turn))
    Row-Reach s (more {v = w} turns (sample m up i st e)) r =
        let (rs, r') = Row-Reach s turns r in
        (rs ++ w.vars.usage ∷ [], next r' (sampling m up i st e))

    report-Reach :
        (s : System N) (v : World (Vars N))
        → Reach machine mon_fd u s
        → s.place ≡ waiting
        → report_turn mon_fd s.world ≡ returns tt v
        → Reach machine mon_fd u (record s {
          world = v;
          place = waiting;
          sent = (length s.replaced, s.world.vars.usage) ∷ s.sent;
        })
    unfolding report_turn get_stat
    report-Reach s v r at e =
        let w = s.world in
        let a =
          split_run (await_request mon_fd) (λ _. get_stat >>= (λ x. send_report mon_fd x)) w e in
        let x = a.between.vars.usage in
        let k = length s.replaced in
        let asking = next r (reporting {q = asked} (rw at (request a.first))) in
        let looking = next asking (reporting {q = holding k x} (look x refl)) in
        let same : x ≡ w.vars.usage = Quiet-returns (Quiet-await_request w.vars mon_fd) a.first in
        subst
          (λ y.
            Reach machine mon_fd u
              (record s { world = v; place = waiting; sent = (k, y) ∷ s.sent }))
          same (next looking (sending k x refl a.second))

    pub tick_then_report :
        (s : System N) (v : World (Vars N))
        → Reach machine mon_fd u s
        → s.place ≡ waiting
        → report_turn mon_fd (final (tick_turn machine s.world)) ≡ returns tt v
        → (rs : List (Usage N)) × Reach machine mon_fd u (record {
          world = v;
          place = waiting;
          replaced = rs;
          sent = (length rs, (final (tick_turn machine s.world)).vars.usage) ∷ s.sent;
        })
    tick_then_report s v r at e =
        let (rs, r') = Row-Reach s (walks Turned-tick_turn s.world) r in
        (
          rs,
          report-Reach (record s { world = final (tick_turn machine s.world); replaced = rs }) v r'
              at e,
        )
