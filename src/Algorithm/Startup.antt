-- ===== src/Algorithm/Startup.antt =====
-- `init_inner_mon`: the inner servers connect, one after the other, and the distributor connects
-- back to the monitor of each.
pub mod Servers
use gra_project.Base.{ℕ, true, List, ◌∷◌, set, if◌then◌else◌, contains}
use gra_project.Sys.{accept, result, peer, M, ◌>>=◌, ◌>>◌, modify, syscall, ok_or_exit}
use gra_project.Sys.Loop.{for_range}
use gra_project.Net.{set_tcp_no_delay, get_listen_fd, socket_connect}
use gra_project.Numbers.{Numbers}
use gra_project.Algorithm.{Vars, inner_port, mon_port, servers_num}

-- `unordered_set::insert`
abbrev pub insert : ℕ → List ℕ → List ℕ
insert a xs = if contains xs a then xs else a ∷ xs

module _ {N : Numbers} where
  unfoldable pub register : ℕ → ℕ → ℕ → Vars N → Vars N
  register i fd mon_fd s = record s {
    servers_inner = set s.servers_inner i (fd, mon_fd);
    server_fd_set = insert fd s.server_fd_set;
  }

  unfoldable pub admit_server : ℕ → ℕ → M (Vars N) (Unit {0})
  unfolding register
  admit_server listen_fd i = do
    r ← syscall (accept listen_fd)
    fd ← ok_or_exit (result r)
    mon_fd ← socket_connect mon_port (peer r)
    set_tcp_no_delay mon_fd true
    set_tcp_no_delay fd true
    modify (register i fd mon_fd)

  unfoldable pub init_inner_mon : M (Vars N) (Unit {0})
  init_inner_mon = do
    listen_fd ← get_listen_fd inner_port servers_num
    for_range servers_num 0 (admit_server listen_fd)
