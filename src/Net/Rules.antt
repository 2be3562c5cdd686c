-- ===== src/Net/Rules.antt =====
-- The rules of the helpers of Net for termination.
use gra_project.Base.{ℕ, zero, suc, Bool, arith}
use gra_project.Sys.{Call, Outcome, ok, error, syscall}
use gra_project.Sys.Consumes.{
  Takes, Takes-first, Takes-later, Takes-seq_first, Takes-seq_later, Takes-pure, Takes-exit,
  Takes-get, Takes-modify, Takes-assert, Takes-ok_or_exit, Takes-ok_or_abort, Takes-syscall,
  Takes-weaken,
}
use gra_project.Net.{
  zero_or_exit, set_nonblock, set_tcp_no_delay, set_reuse_addr, get_listen_fd, socket_connect,
  epoll_ctl_add, close_connect,
}

module _ {S : Type 0} where
  pub Takes-zero_or_exit : (i : Outcome) → Takes {S = S} 0 (zero_or_exit i)
  Takes-zero_or_exit (ok zero) = Takes-pure tt
  Takes-zero_or_exit (ok (suc n)) = Takes-exit 0 1
  Takes-zero_or_exit (error e) = Takes-exit 0 1

  pub Takes-call : (c : Call) → Takes {S = S} 0 (syscall c)
  Takes-call c = Takes-weaken (Takes-syscall c) (omega arith)

pub ruleset takes_rules = (
  Takes-first, Takes-seq_first, Takes-pure, Takes-exit, Takes-get, Takes-modify, Takes-assert,
  Takes-ok_or_exit, Takes-ok_or_abort, Takes-syscall, Takes-call, Takes-zero_or_exit,
)

module _ {S : Type 0} where
  pub Takes-set_nonblock : (fd : ℕ) → Takes {S = S} 0 (set_nonblock fd)
  unfolding set_nonblock
  Takes-set_nonblock fd = search takes_rules

  pub Takes-set_tcp_no_delay : (fd : ℕ) (on : Bool) → Takes {S = S} 0 (set_tcp_no_delay fd on)
  unfolding set_tcp_no_delay
  Takes-set_tcp_no_delay fd on = search takes_rules

  pub Takes-set_reuse_addr : (fd : ℕ) (on : Bool) → Takes {S = S} 0 (set_reuse_addr fd on)
  unfolding set_reuse_addr
  Takes-set_reuse_addr fd on = search takes_rules

  pub Takes-epoll_ctl_add :
      (epoll_fd fd event : ℕ) → Takes {S = S} 0 (epoll_ctl_add epoll_fd fd event)
  unfolding epoll_ctl_add
  Takes-epoll_ctl_add epoll_fd fd event = search takes_rules

  pub Takes-close_connect : (epoll_fd fd : ℕ) → Takes {S = S} 0 (close_connect epoll_fd fd)
  unfolding close_connect
  Takes-close_connect epoll_fd fd = search takes_rules

  pub Takes-socket_connect : (port address : ℕ) → Takes {S = S} 0 (socket_connect port address)
  unfolding socket_connect
  Takes-socket_connect port address = search takes_rules depth 9

  pub Takes-get_listen_fd : (port backlog : ℕ) → Takes {S = S} 0 (get_listen_fd port backlog)
  unfolding get_listen_fd
  Takes-get_listen_fd port backlog = search (takes_rules, Takes-set_reuse_addr) depth 15

pub ruleset net_takes = (
  takes_rules, Takes-set_nonblock, Takes-set_tcp_no_delay, Takes-epoll_ctl_add, Takes-close_connect,
  Takes-socket_connect, Takes-get_listen_fd,
)
