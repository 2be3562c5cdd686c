-- ===== src/Inner.antt =====
-- servers/inner_server.cc: the thread that works for the distributor. Its local `mess` is the state;
-- it holds anything at first.
pub mod Echo
pub mod Monitor
pub mod Reports
pub mod Threads
use gra_project.Base.{
  ℕ, zero, suc, ◌++◌, List, [], ◌∷◌, true, replicate, Bytes, ◌==◌, if◌then◌else◌,
}
use gra_project.Sys.{
  Call, open_file, read, write, close, Reply, Outcome, ok, error, result, bits, stored, text,
  exited, M, ◌>>=◌, ◌>>◌, pure, stop, get, modify, syscall, run_call,
}
use gra_project.Sys.Loop.{forever}
use gra_project.Net.{set_tcp_no_delay, socket_connect}
use gra_project.Wire.{mess_len, overwrite}

abbrev pub inner_port : ℕ
inner_port = 9528

-- DISTRIBUTOR_IP, 127.0.0.1
abbrev pub distributor_ip : ℕ
distributor_ip = 0x7f000001

pub record Vars : Type 0 where
  pub mess : Bytes

-- The square roots are thrown away; what is left is a write of a hundred bytes to a file. No result
-- is looked at: after a failed `open` the descriptor is -1.
unfoldable pub do_something : M Vars (Unit {0})
do_something = do
  r ← syscall (open_file (text "do_something"))
  run_call (write (bits (result r)) (b'a' ∷ replicate 99 0))
  run_call (close (bits (result r)))

-- `else if (readn == messLen)`: the work, and the message back.
unfoldable pub reply_if_whole : ℕ → ℕ → M Vars (Unit {0})
unfolding do_something
reply_if_whole do_work_fd n =
    if n == mess_len
    then (do do_something; s ← get; run_call (write do_work_fd s.mess))
    else pure tt

unfoldable pub work_turn : ℕ → M Vars (Unit {0})
unfolding reply_if_whole
work_turn do_work_fd = do
  r ← syscall (read do_work_fd mess_len)
  modify (λ s. record s { mess = overwrite (stored r) s.mess })
  elim (result r) [
    | error e ↦ stop (exited 1)
    | ok n ↦
        if n == 0
        then (do run_call (close do_work_fd); stop (exited 1))
        else reply_if_whole do_work_fd n
  ]

unfoldable pub thread_func : M Vars (Unit {0})
thread_func = do
  do_work_fd ← socket_connect inner_port distributor_ip
  set_tcp_no_delay do_work_fd true
  forever (work_turn do_work_fd)
