-- ===== src/Algorithm.antt =====
-- servers/algorithm_distributor.cc: the globals of the distributor. The locals of `threadFunc` that
-- outlive a turn of its loop stand beside them.
pub mod Choose
pub mod Serve
pub mod Monitor
pub mod Startup
pub mod Threads
use gra_project.Base.{ℕ, List, [], ◌∷◌, replicate, Bytes}
use gra_project.Sys.{epollin}
use gra_project.Numbers.{Numbers}

abbrev pub outer_port : ℕ
outer_port = 9527

abbrev pub inner_port : ℕ
inner_port = 9528

abbrev pub mon_port : ℕ
mon_port = 9529

abbrev pub max_event : ℕ
max_event = 65535

abbrev pub servers_num : ℕ
servers_num = 4

abbrev pub default_event : ℕ
default_event = epollin

pub record Vars (N : Numbers) : Type 0 where
  pub servers_inner : List (ℕ × ℕ)  -- data fd, monitor fd
  pub server_fd_set : List ℕ
  pub p : List N.Double
  pub d : N.Distribution
  pub e : N.Engine
  pub cpu_usage : List (List N.Double)
  pub memory_usage : List (List N.Double)
  pub io_usage : List (List N.Double)
  pub mess : Bytes

-- The globals before `main`: `p` is even, the rest is zero or empty.
abbrev pub initial : (N : Numbers) → N.Engine → Vars N
initial N seed = record {
  servers_inner = replicate servers_num (0, 0);
  server_fd_set = [];
  p = replicate servers_num (N.div (N.lit 1000) (N.of_int servers_num));
  d = N.discrete [];
  e = seed;
  cpu_usage = replicate servers_num [];
  memory_usage = replicate servers_num [];
  io_usage = replicate servers_num [];
  mess = replicate 20 0;
}
