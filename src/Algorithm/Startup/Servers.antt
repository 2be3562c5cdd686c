-- ===== src/Algorithm/Startup/Servers.antt =====
-- The servers after `init_inner_mon`.
use gra_project.Base.{
  ℕ, suc, ◌≡◌, refl, sym, ap, subst, ◌∙◌, Bool, true, false, ◌||◌, List, [], ◌∷◌, ◌++◌,
  append_assoc, map, arith, length, contains, ◌==◌, Bool-cases, ◌⊎◌, inl, inr, ==_iff,
}
use gra_project.Sys.{
  Call, socket, bind, listen, accept, connect, setsockopt, tcp_nodelay, reuse_addr, Reply, done,
  accepted, World, returns, and_then, syscall,
}
use gra_project.Sys.Loop.{for_range}
use gra_project.Net.{set_tcp_no_delay, set_reuse_addr, get_listen_fd, socket_connect}
use gra_project.Numbers.{Numbers}
use gra_project.Algorithm.{Vars, inner_port, mon_port, servers_num}
use gra_project.Algorithm.Startup.{insert, register, admit_server, init_inner_mon}

-- An inner server that connects from an address, and the descriptor of the connection to its monitor.
pub record Server : Type 0 where
  pub fd : ℕ
  pub address : ℕ
  pub monitor : ℕ

-- The replies while a server is admitted, and the calls that ask for them, newest first.
abbrev pub replies_of : List Server → List Reply → List Reply
replies_of [] rest = rest
replies_of (s ∷ servers) rest =
    accepted s.fd s.address ∷ done s.monitor ∷ done 0 ∷ done 0 ∷ done 0 ∷ replies_of servers rest

abbrev pub calls_of : ℕ → Server → List (Call × Reply)
calls_of listen_fd s =
    (setsockopt s.fd tcp_nodelay 1, done 0)
    ∷ (setsockopt s.monitor tcp_nodelay 1, done 0)
    ∷ (connect s.monitor mon_port s.address, done 0)
    ∷ (socket, done s.monitor)
    ∷ (accept listen_fd, accepted s.fd s.address)
    ∷ []

-- All those calls, newest first.
abbrev pub admission_calls : ℕ → List Server → List (Call × Reply)
admission_calls listen_fd [] = []
admission_calls listen_fd (s ∷ servers) = admission_calls listen_fd servers ++ calls_of listen_fd s

-- The calls that make the listening socket, newest first.
abbrev pub listening : ℕ → List (Call × Reply)
listening listen_fd =
    (listen listen_fd servers_num, done 0)
    ∷ (bind listen_fd inner_port, done 0)
    ∷ (setsockopt listen_fd reuse_addr 1, done 0)
    ∷ (socket, done listen_fd)
    ∷ []

abbrev pub fds : List Server → List ℕ
fds = map (λ (s : Server). s.fd)

contains-insert :
    (a : ℕ) (xs : List ℕ) (b : ℕ) → contains (insert a xs) b ≡ ((a == b) || contains xs b)
contains-insert a xs b = elim (Bool-cases (contains xs a)) [
  | inl old ↦ rw old (present (Bool-cases (a == b)) old)
  | inr new ↦ rw new
]
  where
    present :
        ((a == b) ≡ true) ⊎ ((a == b) ≡ false)
        → contains xs a ≡ true
        → contains xs b ≡ ((a == b) || contains xs b)
    present (inl same) old = rw same (subst (λ c. contains xs c ≡ true) ((==_iff a b).0 same) old)
    present (inr other) old = rw other

or_left_comm : (a b c : Bool) → (a || (b || c)) ≡ ((b || a) || c)
or_left_comm a b c = ground arith

or_false : (a : Bool) → (a || false) ≡ a
or_false a = ground arith

contains_step :
    (servers : List Server) (fd new : ℕ) (old : List ℕ)
    → (contains (fds servers) fd || contains (insert new old) fd)
      ≡ (((new == fd) || contains (fds servers) fd) || contains old fd)
contains_step servers fd new old =
    rw (contains-insert new old fd)
      (or_left_comm (contains (fds servers) fd) (new == fd) (contains old fd))

module _ {N : Numbers} where
  abbrev after_admit : ℕ → ℕ → Server → List Reply → World (Vars N) → World (Vars N)
  after_admit listen_fd i s rest w = record {
    vars = register i s.fd s.monitor w.vars;
    script = rest;
    trace = calls_of listen_fd s ++ w.trace;
  }

  admit_server_lem :
      (listen_fd i : ℕ) (s : Server) (rest : List Reply) (w : World (Vars N))
      → w.script ≡ replies_of (s ∷ []) rest
      → admit_server listen_fd i w ≡ returns tt (after_admit listen_fd i s rest w)
  unfolding admit_server socket_connect set_tcp_no_delay syscall
  admit_server_lem listen_fd i s rest w e = simp e

  abbrev after_admits : ℕ → ℕ → List Server → List Reply → World (Vars N) → World (Vars N)
  after_admits listen_fd i [] rest w = w
  after_admits listen_fd i (s ∷ servers) rest w =
      after_admits listen_fd (suc i) servers rest
        (after_admit listen_fd i s (replies_of servers rest) w)

  admit_servers_lem :
      (listen_fd : ℕ) (servers : List Server) (i : ℕ) (rest : List Reply) (w : World (Vars N))
      → w.script ≡ replies_of servers rest
      → for_range (length servers) i (admit_server listen_fd) w
        ≡ returns tt (after_admits listen_fd i servers rest w)
  unfolding for_range
  admit_servers_lem listen_fd [] i rest w e = refl
  admit_servers_lem listen_fd (s ∷ servers) i rest w e =
      ap (λ r. and_then r (λ _. for_range (length servers) (suc i) (admit_server listen_fd)))
        (admit_server_lem listen_fd i s (replies_of servers rest) w e)
      ∙ admit_servers_lem listen_fd servers (suc i) rest
          (after_admit listen_fd i s (replies_of servers rest) w) refl

  after_admits-servers_inner :
      (listen_fd : ℕ) (servers : List Server) (olds : List (ℕ × ℕ)) (rest : List Reply)
      (w : World (Vars N))
      → length servers ≡ servers_num
      → length olds ≡ servers_num
      → w.vars.servers_inner ≡ olds
      → (after_admits listen_fd 0 servers rest w).vars.servers_inner
        ≡ map (λ (s : Server). (s.fd, s.monitor)) servers
  unfolding register
  after_admits-servers_inner listen_fd (a ∷ b ∷ c ∷ d ∷ []) (x ∷ y ∷ z ∷ u ∷ []) rest w n m e =
      simp e
  after_admits-servers_inner listen_fd _ _ rest w n m e = absurd (omega arith)

  -- The set of descriptors grows by those of the servers.
  after_admits-server_fd_set :
      (listen_fd : ℕ) (servers : List Server) (i : ℕ) (rest : List Reply) (w : World (Vars N))
      (fd : ℕ)
      → contains (after_admits listen_fd i servers rest w).vars.server_fd_set fd
        ≡ (contains (fds servers) fd || contains w.vars.server_fd_set fd)
  unfolding register
  after_admits-server_fd_set listen_fd [] i rest w fd = refl
  after_admits-server_fd_set listen_fd (s ∷ servers) i rest w fd =
      after_admits-server_fd_set listen_fd servers (suc i) rest
        (after_admit listen_fd i s (replies_of servers rest) w) fd
      ∙ contains_step servers fd s.fd w.vars.server_fd_set

  after_admits-trace :
      (listen_fd : ℕ) (servers : List Server) (i : ℕ) (rest : List Reply) (w : World (Vars N))
      → (after_admits listen_fd i servers rest w).trace
        ≡ admission_calls listen_fd servers ++ w.trace
  after_admits-trace listen_fd [] i rest w = refl
  after_admits-trace listen_fd (s ∷ servers) i rest w =
      after_admits-trace listen_fd servers (suc i) rest _
      ∙ sym (append_assoc (admission_calls listen_fd servers) (calls_of listen_fd s) w.trace)

  pub init_inner_mon-servers :
      (listen_fd : ℕ) (servers : List Server) (rest : List Reply) (w : World (Vars N)) (fd : ℕ)
      → length servers ≡ servers_num
      → length w.vars.servers_inner ≡ servers_num
      → w.vars.server_fd_set ≡ []
      → w.script ≡ done listen_fd ∷ done 0 ∷ done 0 ∷ done 0 ∷ replies_of servers rest
      → (v : World (Vars N)) × (init_inner_mon w ≡ returns tt v)
        × (v.vars.servers_inner ≡ map (λ (s : Server). (s.fd, s.monitor)) servers)
        × (contains v.vars.server_fd_set fd ≡ contains (fds servers) fd)
        × (v.trace ≡ admission_calls listen_fd servers ++ (listening listen_fd ++ w.trace))
  unfolding init_inner_mon get_listen_fd set_reuse_addr syscall
  init_inner_mon-servers listen_fd servers rest w fd n m empty e =
      let u : World (Vars N) = record w {
        script = replies_of servers rest;
        trace = listening listen_fd ++ w.trace;
      } in
      (
        after_admits listen_fd 0 servers rest u,
        simp e (
            subst
              (λ k.
                for_range k 0 (admit_server listen_fd) u
                ≡ returns tt (after_admits listen_fd 0 servers rest u))
              n (admit_servers_lem listen_fd servers 0 rest u refl)),
        after_admits-servers_inner listen_fd servers w.vars.servers_inner rest u n m refl,
        after_admits-server_fd_set listen_fd servers 0 rest u fd
            ∙ rw empty (or_false (contains (fds servers) fd)),
        after_admits-trace listen_fd servers 0 rest u,
      )
