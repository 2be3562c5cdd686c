-- ===== src/Algorithm/Monitor.antt =====
-- `mainThreadFunc`: the usages that the inner servers report, the weights that follow from them, and
-- the files written after the hundredth round.
pub mod Rounds
pub mod Selection
pub mod Weights
use gra_project.Base.{
  ℕ, zero, suc, ◌+◌, Bool, true, false, ◌||◌, List, [], ◌∷◌, ◌++◌, take, drop, get_or, set, length,
  replicate, Bytes, ◌==◌, leb, if◌then◌else◌,
}
use gra_project.Sys.{
  Call, read, write, save, sleep, Reply, Outcome, ok, error, result, stored, text, exited, M, ◌>>=◌,
  ◌>>◌, pure, stop, get, modify, syscall, run_call,
}
use gra_project.Sys.Loop.{forever, for_range}
use gra_project.Numbers.{Numbers}
use gra_project.Algorithm.{Vars, servers_num}
use gra_project.Algorithm.Choose.{set_distribution}

-- `lists[i].push_back(x)`
abbrev pub push_at {ℓ} : {A : Type ℓ} → List (List A) → ℕ → A → List (List A)
push_at lists i x = set lists i (get_or lists i [] ++ x ∷ [])

-- The numbers of a file, a comma behind each.
unfoldable pub listed : (N : Numbers) → List N.Double → Bytes
listed N [] = []
listed N (x ∷ xs) = N.print x ++ (b',' ∷ listed N xs)

-- The answer of an inner server: three doubles.
pub record Usage (N : Numbers) : Type 0 where
  pub cpu : N.Double
  pub memory : N.Double
  pub io : N.Double

module _ {N : Numbers} where
  unfoldable pub usage_of : Bytes → Usage N
  usage_of rec = record {
    cpu = N.of_bytes (take 8 rec);
    memory = N.of_bytes (take 8 (drop 8 rec));
    io = N.of_bytes (take 8 (drop 16 rec));
  }

  -- `cpu >= 95 || memory >= 95 || io >= 95`
  unfoldable pub is_overloaded : Usage N → Bool
  is_overloaded u = N.le (N.lit 950) u.cpu || N.le (N.lit 950) u.memory || N.le (N.lit 950) u.io

  unfoldable pub idle_score : Usage N → N.Double
  idle_score u =
      N.add
        (N.add (N.mul (N.lit 6) (N.sub (N.lit 1000) u.cpu))
          (N.mul (N.lit 3) (N.sub (N.lit 1000) u.memory)))
        (N.mul (N.lit 1) (N.sub (N.lit 1000) u.io))

  unfoldable pub weight : Usage N → N.Double
  unfolding is_overloaded idle_score
  weight u = if is_overloaded u then N.lit 0 else idle_score u

  unfoldable pub record_usage : ℕ → Usage N → Vars N → Vars N
  unfolding weight
  record_usage i u s = record s {
    p = set s.p i (weight u);
    cpu_usage = push_at s.cpu_usage i u.cpu;
    memory_usage = push_at s.memory_usage i u.memory;
    io_usage = push_at s.io_usage i u.io;
  }

  abbrev server_at : Vars N → ℕ → ℕ × ℕ
  server_at s i = get_or s.servers_inner i (0, 0)

  -- `if (read(...) != 3*sizeof(double)) exit(1)`
  abbrev pub whole_or_exit : Outcome → M (Vars N) (Unit {0})
  whole_or_exit (ok n) = if n == 24 then pure tt else stop (exited 1)
  whole_or_exit (error e) = stop (exited 1)

  -- The request to the monitor of a server; the result is its descriptor.
  unfoldable pub ask : ℕ → M (Vars N) ℕ
  ask i = do
    s ← get
    let mon_fd = (server_at s i).1
    run_call (write mon_fd (b'G' ∷ []))
    pure mon_fd

  unfoldable pub receive : ℕ → M (Vars N) (Usage N)
  receive mon_fd = do
    r ← syscall (read mon_fd 24)
    whole_or_exit (result r)
    pure (usage_of (stored r))

  unfoldable pub poll : ℕ → M (Vars N) (Unit {0})
  unfolding ask receive
  poll i = do mon_fd ← ask i; u ← receive mon_fd; modify (record_usage i u)

  unfoldable pub save_usages : ℕ → M (Vars N) (Unit {0})
  unfolding listed
  save_usages i = do
    s ← get
    let prefix = text "server_" ++ ((b'0' + i) ∷ [])
    run_call (save (prefix ++ text "_cpu_usage_") (listed N (get_or s.cpu_usage i [])))
    run_call (save (prefix ++ text "_memory_usage_") (listed N (get_or s.memory_usage i [])))
    run_call (save (prefix ++ text "_io_usage") (listed N (get_or s.io_usage i [])))

  unfoldable pub finish_if_full : M (Vars N) (Unit {0})
  finish_if_full = do
    s ← get
    if leb 100 (length (get_or s.cpu_usage 0 []))
        then (do for_range servers_num 0 save_usages; stop (exited 1))
        else pure tt

  unfoldable pub monitor_round : M (Vars N) (Unit {0})
  monitor_round = do
    run_call (sleep 2)
    for_range servers_num 0 poll
    set_distribution
    finish_if_full

  unfoldable pub main_thread_func : M (Vars N) (Unit {0})
  main_thread_func = forever monitor_round
