-- ===== src/Algorithm/Threads.antt =====
-- The program of servers/algorithm_distributor.cc with its two threads: `main` starts `threadFunc`
-- and goes on to `mainThreadFunc`. They take turns in any order, and a turn is one access to what
-- they share, one system call, or one piece of work on what only one of them uses.
pub mod Turns
pub mod Covered
pub mod Rounds
use gra_project.Base.{ℕ, ◌≡◌, ◌<◌, List, [], ◌∷◌, ◌++◌, length}
use gra_project.Sys.{Call, sleep, Reply, World, returns, M, ◌>>◌, syscall, run_call}
use gra_project.Numbers.{Numbers}
use gra_project.Algorithm.{Vars, servers_num}
use gra_project.Algorithm.Choose.{set_distribution, get_cur_selected_server_fd}
use gra_project.Algorithm.Startup.{init_inner_mon}
use gra_project.Algorithm.Monitor.{Usage, ask, receive, record_usage, finish_if_full}

-- Where the monitor is: the usages that it has in this round, and the local variables that it holds.
pub data Point (N : Numbers) : Type 0 where
  pausing : Point N
  asking : List (Usage N) → Point N
  waiting_for : List (Usage N) → ℕ → Point N
  recording : List (Usage N) → Usage N → Point N
  finishing : Point N

-- The process, the place of the monitor, and the rounds that it has finished, newest first, which
-- the program does not keep.
pub record System (N : Numbers) : Type 0 where
  pub world : World (Vars N)
  pub point : Point N
  pub rounds : List (List (Usage N))

module _ {N : Numbers} where
  -- `main` up to the start of the threads.
  unfoldable pub start : M (Vars N) (Unit {0})
  start = init_inner_mon >> set_distribution

  -- A turn of the serving thread: a call, a store into `mess`, which only it uses, or a choice under
  -- the lock. Any order of them is allowed here, and with it that of `threadFunc`.
  pub data Serves (w v : World (Vars N)) : Type 0 where
    call : (c : Call) (r : Reply) → syscall c w ≡ returns r v → Serves w v
    store : (mess : List ℕ) → v ≡ record w { vars = record w.vars { mess = mess } } → Serves w v
    choose : (fd : ℕ) → get_cur_selected_server_fd w ≡ returns fd v → Serves w v

  -- A turn of the monitor, between two points of `mainThreadFunc`.
  pub data Monitors (w v : World (Vars N)) : Point N → Point N → Type 0 where
    pause : run_call (sleep 2) w ≡ returns tt v → Monitors w v pausing (asking [])
    request :
        {us : List (Usage N)} (fd : ℕ)
        → length us < servers_num
        → ask (length us) w ≡ returns fd v
        → Monitors w v (asking us) (waiting_for us fd)
    answer :
        {us : List (Usage N)} {fd : ℕ} (u : Usage N)
        → receive fd w ≡ returns u v
        → Monitors w v (waiting_for us fd) (recording us u)
    note :
        {us : List (Usage N)} {u : Usage N}
        → v ≡ record w { vars = record_usage (length us) u w.vars }
        → Monitors w v (recording us u) (asking (us ++ u ∷ []))
    finish : finish_if_full w ≡ returns tt v → Monitors w v finishing pausing

  pub data Step (s : System N) : System N → Type 0 where
    serving : (v : World (Vars N)) → Serves s.world v → Step s (record s { world = v })
    monitoring :
        (v : World (Vars N)) (q : Point N)
        → Monitors s.world v s.point q
        → Step s (record s { world = v; point = q })
    -- The end of a round, under the lock.
    distribute :
        (us : List (Usage N)) (v : World (Vars N))
        → s.point ≡ asking us
        → length us ≡ servers_num
        → set_distribution s.world ≡ returns tt v
        → Step s (record { world = v; point = finishing; rounds = us ∷ s.rounds })

  -- The process when both threads start.
  abbrev pub begin : World (Vars N) → System N
  begin w = record { world = w; point = pausing; rounds = [] }

  pub data Reach (w : World (Vars N)) : System N → Type 0 where
    here : Reach w (begin w)
    next : {s t : System N} → Reach w s → Step s t → Reach w t
