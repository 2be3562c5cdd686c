-- ===== src/Algorithm/Choose.antt =====
-- The choice of a server: `set_distribution` and `get_curSelectedServer_fd`. Each holds the lock
-- while it uses `d`, so it is one step.
use gra_project.Base.{ℕ, get_or}
use gra_project.Sys.{M, ◌>>=◌, ◌>>◌, pure, get, modify}
use gra_project.Numbers.{Numbers}
use gra_project.Algorithm.{Vars}

module _ {N : Numbers} where
  unfoldable pub set_distribution : M (Vars N) (Unit {0})
  set_distribution = modify (λ s. record s { d = N.discrete s.p })

  -- `d(e)`: the index drawn, and the engine after it.
  abbrev pub drawn : Vars N → ℕ × N.Engine
  drawn s = N.draw s.d s.e

  -- An index past the array has no meaning in the source; it reads as 0 here.
  abbrev pub fd_at : Vars N → ℕ → ℕ
  fd_at s index = (get_or s.servers_inner index (0, 0)).0

  unfoldable pub get_cur_selected_server_fd : M (Vars N) ℕ
  get_cur_selected_server_fd = do
    s ← get
    modify (λ t. record t { e = (drawn s).1 })
    pure (fd_at s (drawn s).0)
