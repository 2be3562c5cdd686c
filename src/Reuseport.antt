-- ===== src/Reuseport.antt =====
-- reuseport_test/server_reuseport.cc: the workers that share a port. The objects that `new` makes stand
-- at addresses in a heap, and an event of a worker brings the address of one in `data.ptr`: that is
-- the number that the entry of `epoll_wait` carries. The addresses are chosen by the allocator, a
-- parameter.
pub mod Objects
pub mod Safety
pub mod Log
pub mod Termination
use Prim.Native.Nat.{bit_and, bit_or}
use gra_project.Base.{
  ℕ, zero, suc, ◌+◌, ◌*◌, ◌/◌, ◌%◌, ◌^◌, Bool, true, false, not, Option, none, some, List, [], ◌∷◌,
  ◌++◌, Bytes, length, ltb, ◌==◌, if◌then◌else◌,
}
use gra_project.Sys.{
  Call, socket, bind, listen, accept, epoll_create, epoll_wait, epoll_add, epoll_del, read, close,
  open_file, fork, waitpid, Event, eagain, epollin, Reply, Outcome, ok, error, result, stored,
  delivered, text, exited, undefined, M, ◌>>=◌, ◌>>◌, pure, stop, get, modify, syscall, run_call,
  ok_or_exit, ok_or_abort,
}
use gra_project.Sys.Loop.{loop, forever, for_each}
use gra_project.Net.{
  zero_or_exit, set_nonblock, set_tcp_no_delay, set_reuse_port, set_reuse_addr, epoll_ctl_add,
}
use gra_project.Streams.{stream_of, read_number, decimal}
use gra_project.Reuseport.Objects.{Heap, lookup, insert, remove, Allocator}

abbrev pub port : ℕ
port = 9527

abbrev pub max_event : ℕ
max_event = 65535

-- EPOLLIN | EPOLLEXCLUSIVE
abbrev pub default_event : ℕ
default_event = 0x10000001

abbrev pub bufsiz : ℕ
bufsiz = 8192

-- `struct Conn`: what the program reads of it.
pub record Conn : Type 0 where
  pub conn_event : ℕ
  pub conn_fd : ℕ

abbrev pub conn_of : ℕ → Conn
conn_of fd = record { conn_event = default_event; conn_fd = fd }

-- A worker: its objects, `counter`, and the lines written to `out`, each a number and the bytes.
pub record Vars : Type 0 where
  pub heap : Heap Conn
  pub counter : ℕ
  pub out : List (ℕ × Bytes)

abbrev pub initial : Vars
initial = record { heap = []; counter = 0; out = [] }

-- Reading an object that is not there has no meaning.
unfoldable pub found_or_undefined : Option Conn → M Vars Conn
found_or_undefined none = stop undefined
found_or_undefined (some conn) = pure conn

unfoldable pub load : ℕ → M Vars Conn
load ptr = do s ← get; found_or_undefined (lookup s.heap ptr)

unfoldable pub delete : ℕ → Vars → Vars
delete ptr s = record s { heap = remove s.heap ptr }

-- `++counter` and the line; the counter is a `uint64_t`.
unfoldable pub log_request : Bytes → Vars → Vars
log_request bytes s =
    let counter = (s.counter + 1) % 2 ^ 64 in
    record s { counter = counter; out = s.out ++ ((counter, bytes) ∷ []) }

unfoldable pub close_client : ℕ → ℕ → ℕ → M Vars (Unit {0})
unfolding delete
close_client epoll_fd ptr fd = do
  r ← syscall (epoll_del epoll_fd fd)
  zero_or_exit (result r)
  modify (delete ptr)
  run_call (close fd)

-- What follows the read; a read that would block is passed over.
unfoldable pub after_read : ℕ → ℕ → ℕ → Bytes → Outcome → M Vars (Unit {0})
after_read epoll_fd ptr fd buf (error e) =
    if e == eagain then pure tt else close_client epoll_fd ptr fd
after_read epoll_fd ptr fd buf (ok n) =
    if n == 0 then close_client epoll_fd ptr fd else modify (log_request buf)

unfoldable pub on_client : ℕ → ℕ → ℕ → M Vars (Unit {0})
on_client epoll_fd ptr fd = do
  r ← syscall (read fd bufsiz)
  after_read epoll_fd ptr fd (stored r) (result r)

unfoldable pub open_listener : M Vars ℕ
open_listener = do
  s ← syscall socket
  listen_fd ← ok_or_abort (result s)
  set_reuse_addr listen_fd true
  set_reuse_port listen_fd true
  b ← syscall (bind listen_fd port)
  bound ← ok_or_abort (result b)
  l ← syscall (listen listen_fd 256)
  listening ← ok_or_abort (result l)
  set_nonblock listen_fd
  pure listen_fd

-- `while (waitpid(-1, nullptr, 0) != -1)`
abbrev pub is_ok : Outcome → Bool
is_ok (ok n) = true
is_ok (error e) = false

unfoldable pub wait_one : M Vars Bool
wait_one = do r ← syscall waitpid; pure (is_ok (result r))

abbrev pub as_count : Option ℕ → M Vars ℕ
as_count none = stop undefined
as_count (some n) = pure (if ltb n (2 ^ 31) then n else 0)

module _ (allocator : Allocator) where
  -- `new struct Conn` for a descriptor
  unfoldable pub allocate : ℕ → Vars → Vars
  allocate fd s = record s { heap = insert s.heap (allocator.fresh s.heap) (conn_of fd) }

  -- A connection that cannot be accepted is passed over.
  unfoldable pub add_client : ℕ → Outcome → M Vars (Unit {0})
  unfolding allocate
  add_client epoll_fd (error e) = pure tt
  add_client epoll_fd (ok fd) = do
    modify (allocate fd)
    set_nonblock fd
    set_tcp_no_delay fd true
    epoll_ctl_add epoll_fd fd default_event

  unfoldable pub accept_client : ℕ → ℕ → M Vars (Unit {0})
  accept_client epoll_fd listen_fd = do
    r ← syscall (accept listen_fd)
    add_client epoll_fd (result r)

  unfoldable pub on_event : ℕ → ℕ → Event → M Vars (Unit {0})
  on_event epoll_fd listen_fd event = do
    conn ← load event.fd
    if conn.conn_fd == listen_fd
        then accept_client epoll_fd listen_fd
        else if not (bit_and event.events epollin == 0)
        then on_client epoll_fd event.fd conn.conn_fd
        else pure tt

  unfoldable pub serve_turn : ℕ → ℕ → M Vars (Unit {0})
  serve_turn epoll_fd listen_fd = do
    r ← syscall (epoll_wait epoll_fd max_event)
    for_each (delivered r) (on_event epoll_fd listen_fd)

  unfoldable pub do_work : ℕ → M Vars (Unit {0})
  unfolding allocate decimal
  do_work fork_index = do
    o ← syscall (open_file (text "thread_" ++ decimal 10 fork_index []))
    out ← ok_or_abort (result o)
    listen_fd ← open_listener
    r ← syscall (epoll_create 512)
    epoll_fd ← ok_or_abort (result r)
    modify (allocate listen_fd)
    epoll_ctl_add epoll_fd listen_fd default_event
    forever (serve_turn epoll_fd listen_fd)

  -- The child that `fork` makes works as number `i` and does not come back.
  unfoldable pub after_fork : ℕ → Outcome → M Vars (Unit {0})
  after_fork i (error e) = stop (exited 1)
  after_fork i (ok zero) = do_work i
  after_fork i (ok (suc pid)) = pure tt

  -- `for (; i < fork_n; ++i)`, with `n` turns left.
  unfoldable pub fork_workers : ℕ → ℕ → M Vars (Unit {0})
  fork_workers zero i = pure tt
  fork_workers (suc n) i = do r ← syscall fork; after_fork i (result r); fork_workers n (suc i)

  -- `main` with the arguments behind the name of the program.
  unfoldable pub main : List Bytes → M Vars (Unit {0})
  unfolding read_number
  main [] = stop (exited 1)
  main (arg ∷ args) = do
    fork_n ← as_count (read_number 32 (stream_of arg) none).1
    fork_workers fork_n 0
    loop wait_one
