-- ===== src/Inner/Threads.antt =====
-- The program of servers/inner_server.cc with its threads: `threadFunc`, the thread that the object
-- `pm` of servers/pm.h starts, and `mainThreadFunc`, which reads `pm` under its lock. They take turns
-- in any order. A turn is one system call, one access to the shared usages, or one piece of work on
-- what only one of them uses.
pub mod Sampled
pub mod Covered
use gra_project.Base.{ℕ, ◌≡◌, List, [], ◌∷◌, ◌++◌, Bytes, length}
use gra_project.Sys.{Call, Reply, World, returns, syscall}
use gra_project.Numbers.{Numbers}
use gra_project.Algorithm.Monitor.{Usage}
use gra_project.Procmon.Ticks.{Machine, Vars, initial, get_stat, take_sample}
use gra_project.Inner.Monitor.{await_request, send_report}

-- Where the reporting thread is in its loop: before the request, before `getStat`, and before the
-- write, with the local variables that it then holds: the number of samples that `getStat` has seen,
-- which the program does not keep, and the usages.
pub data Place (N : Numbers) : Type 0 where
  waiting : Place N
  asked : Place N
  holding : ℕ → Usage N → Place N

-- The process and the place of the reporting thread. What the program does not keep: the usages that
-- each sample has replaced, oldest first, and what was sent, newest first.
pub record System (N : Numbers) : Type 0 where
  pub world : World (Vars N)
  pub place : Place N
  pub replaced : List (Usage N)
  pub sent : List (ℕ × Usage N)

-- The process when the loop of `mainThreadFunc` starts, in the world `w`.
abbrev pub begin : {N : Numbers} → World (Vars N) → System N
begin w = record { world = w; place = waiting; replaced = []; sent = [] }

module _ {N : Numbers} (machine : Machine N) (mon_fd : ℕ) where
  -- A turn of the thread of `pm` that leaves the usages alone. `content` is only its own.
  pub data Reads (w v : World (Vars N)) : Type 0 where
    call : (c : Call) (r : Reply) → syscall c w ≡ returns r v → Reads w v
    store :
        (content : Bytes) → v ≡ record w { vars = record w.vars { content = content } } → Reads w v

  -- A turn of the reporting thread, between two places of the loop in `mainThreadFunc`.
  pub data Reports (w v : World (Vars N)) (samples : ℕ) : Place N → Place N → Type 0 where
    request : await_request mon_fd w ≡ returns tt v → Reports w v samples waiting asked
    look : (u : Usage N) → get_stat w ≡ returns u v → Reports w v samples asked (holding samples u)

  pub data Step (s : System N) : System N → Type 0 where
    -- `threadFunc` shares nothing with the others: any call of it.
    working :
        {v : World (Vars N)} (c : Call) (r : Reply)
        → syscall c s.world ≡ returns r v
        → Step s (record s { world = v })
    reading : {v : World (Vars N)} → Reads s.world v → Step s (record s { world = v })
    -- The end of `tick`: the usages change at once, under the lock; what else it stores only `tick` uses.
    sampling :
        {v : World (Vars N)} (meminfo up_time io_stat stat : Bytes)
        → take_sample machine meminfo up_time io_stat stat s.world ≡ returns tt v
        → Step s (record s { world = v; replaced = s.replaced ++ s.world.vars.usage ∷ [] })
    reporting :
        {v : World (Vars N)} {q : Place N}
        → Reports s.world v (length s.replaced) s.place q
        → Step s (record s { world = v; place = q })
    sending :
        {v : World (Vars N)} (k : ℕ) (u : Usage N)
        → s.place ≡ holding k u
        → send_report mon_fd u s.world ≡ returns tt v
        → Step s (record s { world = v; place = waiting; sent = (k, u) ∷ s.sent })

  pub data Reach (w : World (Vars N)) : System N → Type 0 where
    here : Reach w (begin w)
    next : {s t : System N} → Reach w s → Step s t → Reach w t
