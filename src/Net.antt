-- ===== src/Net.antt =====
-- The socket helpers, as servers/algorithm_distributor.cc declares them (lines 71 to 169); the
-- other servers hold copies. Ports stand in host order: `htons` is left out with the byte layout of
-- `sockaddr_in`. What `perror` prints is left out.
pub mod Rules
use Prim.Native.Nat.{bit_or}
use gra_project.Base.{ℕ, zero, suc, Bool, true, false, if◌then◌else◌}
use gra_project.Sys.{
  Call, socket, connect, bind, listen, setsockopt, fcntl_getfd, fcntl_setfl, epoll_add, epoll_del,
  close, Opt, tcp_nodelay, reuse_addr, reuse_port, Reply, Outcome, ok, error, result, bits, exited,
  M, ◌>>=◌, ◌>>◌, pure, stop, syscall, run_call, ok_or_exit, ok_or_abort,
}

abbrev pub o_nonblock : ℕ
o_nonblock = 0x800

-- `if (call != 0) exit(1)`
abbrev pub zero_or_exit : {S : Type 0} → Outcome → M S (Unit {0})
zero_or_exit (ok zero) = pure tt
zero_or_exit (ok (suc n)) = stop (exited 1)
zero_or_exit (error e) = stop (exited 1)

module _ {S : Type 0} where
  unfoldable pub set_nonblock : ℕ → M S (Unit {0})
  set_nonblock fd = do
    flags ← syscall (fcntl_getfd fd)
    run_call (fcntl_setfl fd (bit_or (bits (result flags)) o_nonblock))

  unfoldable pub set_option : Opt → ℕ → Bool → M S (Unit {0})
  set_option option fd on = do
    r ← syscall (setsockopt fd option (if on then 1 else 0))
    n ← ok_or_exit (result r)
    pure tt

  unfoldable pub set_tcp_no_delay : ℕ → Bool → M S (Unit {0})
  unfolding set_option
  set_tcp_no_delay = set_option tcp_nodelay

  unfoldable pub set_reuse_port : ℕ → Bool → M S (Unit {0})
  unfolding set_option
  set_reuse_port = set_option reuse_port

  unfoldable pub set_reuse_addr : ℕ → Bool → M S (Unit {0})
  unfolding set_option
  set_reuse_addr = set_option reuse_addr

  unfoldable pub get_listen_fd : ℕ → ℕ → M S ℕ
  get_listen_fd port backlog = do
    s ← syscall socket
    listen_fd ← ok_or_abort (result s)
    set_reuse_addr listen_fd true
    b ← syscall (bind listen_fd port)
    bound ← ok_or_abort (result b)
    l ← syscall (listen listen_fd backlog)
    listening ← ok_or_abort (result l)
    pure listen_fd

  -- `socket_connect_mon` takes the address of the inner server and connects to a port of it.
  unfoldable pub socket_connect : ℕ → ℕ → M S ℕ
  socket_connect port address = do
    s ← syscall socket
    cfd ← ok_or_exit (result s)
    r ← syscall (connect cfd port address)
    zero_or_exit (result r)
    pure cfd

  unfoldable pub epoll_ctl_add : ℕ → ℕ → ℕ → M S (Unit {0})
  epoll_ctl_add epoll_fd fd event = do
    r ← syscall (epoll_add epoll_fd fd event)
    zero_or_exit (result r)

  unfoldable pub close_connect : ℕ → ℕ → M S (Unit {0})
  close_connect epoll_fd fd = do
    r ← syscall (epoll_del epoll_fd fd)
    zero_or_exit (result r)
    run_call (close fd)
