-- ===== src/Algorithm/Threads/Rounds.antt =====
-- What every turn of the two threads leaves true of the weights and of the distribution.
use gra_project.Base.{
  ℕ, ◌==◌, leb, ◌≡◌, ◌<◌, refl, sym, ap, ◌∙◌, subst, true, List, [], ◌∷◌, ◌++◌, append-nil, map,
  get_or, arith, length, length-map, set, drop, drop-length,
}
use gra_project.Sys.{Halt, Outcome, result, peer, ok, error, final, Run, World, returns, M}
use gra_project.Sys.Steady.{
  Covers, Steady, Steady-returns, Steady-bind, Steady-seq, Steady-pure, Steady-get, Steady-modify,
  Steady-if, Steady-exit, Steady-syscall, Steady-run_call, Steady-for_range, Steady-ok_or_exit,
  Steady-get_listen_fd, Steady-socket_connect, Steady-set_tcp_no_delay,
}
use gra_project.Sys.Hoare.{Post, Hoare, Hoare-seq, Hoare-modify}
use gra_project.Numbers.{Numbers}
use gra_project.Algorithm.{Vars, servers_num}
use gra_project.Algorithm.Choose.{set_distribution, get_cur_selected_server_fd}
use gra_project.Algorithm.Startup.{admit_server, init_inner_mon, register}
use gra_project.Algorithm.Monitor.{
  Usage, weight, whole_or_exit, ask, receive, record_usage, save_usages, finish_if_full,
}
use gra_project.Algorithm.Threads.{
  Point, pausing, asking, waiting_for, recording, finishing, System, start, Serves, call, store,
  choose, Monitors, pause, request, answer, note, finish, Step, serving, monitoring, distribute,
  begin, Reach, here, next,
}

set-map :
    {A B : Type 0} (f : A → B) (xs : List A) (a : A) (bs : List B)
    → length xs < length bs
    → set (map f xs ++ drop (length xs) bs) (length xs) (f a)
      ≡ map f (xs ++ a ∷ []) ++ drop (length (xs ++ a ∷ [])) bs
set-map f [] a [] h = absurd (omega (arith, h))
set-map f [] a (b ∷ bs) h = refl
set-map f (x ∷ xs) a [] h = absurd (omega (arith, h))
set-map f (x ∷ xs) a (b ∷ bs) h = ap (◌∷◌ (f x)) (set-map f xs a bs (omega (arith, h)))

module _ {N : Numbers} where
  abbrev usages_of : Point N → List (Usage N)
  usages_of pausing = []
  usages_of (asking us) = us
  usages_of (waiting_for us fd) = us
  usages_of (recording us u) = us
  usages_of finishing = []

  -- The weights of the last whole round; before the first, those of the start.
  abbrev pub weights_of : List N.Double → List (List (Usage N)) → List N.Double
  weights_of ps [] = ps
  weights_of ps (us ∷ rounds) = map weight us

  abbrev mixed : List N.Double → List (Usage N) → List N.Double
  mixed ws us = map weight us ++ drop (length us) ws

  -- A server that is being polled is one of the four.
  abbrev HasRoom : Point N → Type 0
  HasRoom (waiting_for us fd) = length us < servers_num
  HasRoom (recording us u) = length us < servers_num
  HasRoom _ = Unit

  -- What the turns of the two threads keep.
  record IsWhole (servers : List (ℕ × ℕ)) (ps : List N.Double) (s : System N) : Type 0 where
    same : s.world.vars.servers_inner ≡ servers
    d : s.world.vars.d ≡ N.discrete (weights_of ps s.rounds)
    p : s.world.vars.p ≡ mixed (weights_of ps s.rounds) (usages_of s.point)
    four : length (weights_of ps s.rounds) ≡ servers_num
    room : HasRoom s.point

  abbrev Any : Halt → Vars N → Type 0
  Any h s = Unit

  covers : (P : Vars N → Type 0) → Covers P Any
  covers P h s n p = tt

  -- What leaves the variables alone.
  abbrev Calls : {A : Type 0} → Vars N → M (Vars N) A → Type 0
  Calls s m = Steady (λ t. t ≡ s) Any m

  Calls-ask : (s : Vars N) (i : ℕ) → Calls s (ask i)
  unfolding ask
  Calls-ask s i =
      Steady-bind Steady-get λ t. Steady-seq (Steady-run_call (covers _) _) (Steady-pure _)

  Calls-whole_or_exit : (s : Vars N) (i : Outcome) → Calls s (whole_or_exit i)
  Calls-whole_or_exit s (ok n) = Steady-if (n == 24) (Steady-pure tt) (Steady-exit (covers _) 1)
  Calls-whole_or_exit s (error e) = Steady-exit (covers _) 1

  Calls-receive : (s : Vars N) (fd : ℕ) → Calls s (receive fd)
  unfolding receive
  Calls-receive s fd =
      Steady-bind (Steady-syscall (covers _) _)
        λ r. Steady-seq (Calls-whole_or_exit s (result r)) (Steady-pure _)

  Calls-save_usages : (s : Vars N) (i : ℕ) → Calls s (save_usages i)
  unfolding save_usages
  Calls-save_usages s i = Steady-bind Steady-get λ t.
      Steady-seq (Steady-run_call (covers _) _)
        (Steady-seq (Steady-run_call (covers _) _) (Steady-run_call (covers _) _))

  Calls-finish_if_full : (s : Vars N) → Calls s finish_if_full
  unfolding finish_if_full
  Calls-finish_if_full s = Steady-bind Steady-get λ t.
      Steady-if (leb 100 (length (get_or t.cpu_usage 0 [])))
        (Steady-seq (Steady-for_range (covers _) servers_num 0 save_usages (Calls-save_usages s))
          (Steady-exit (covers _) 1))
        (Steady-pure tt)

  Calls-returns :
      {A : Type 0} {m : M (Vars N) A} {w v : World (Vars N)} {a : A}
      → Calls w.vars m
      → m w ≡ returns a v
      → v.vars ≡ w.vars
  Calls-returns h e = Steady-returns h e refl

  module _ {servers : List (ℕ × ℕ)} {ps : List N.Double} where
    -- A turn that changes neither the servers nor the weights nor the distribution.
    IsWhole-same :
        {s t : System N}
        → IsWhole servers ps s
        → t.world.vars ≡ s.world.vars
        → t.rounds ≡ s.rounds
        → usages_of t.point ≡ usages_of s.point
        → HasRoom t.point
        → IsWhole servers ps t
    IsWhole-same {s} {t} h e r u room = record {
      same = ap (λ v. v.servers_inner) e ∙ h.same;
      d = ap (λ v. v.d) e ∙ rw r h.d;
      p = ap (λ v. v.p) e ∙ rw (r, u) h.p;
      four = rw r h.four;
      room = room;
    }

    Serves-IsWhole :
        (s : System N) (v : World (Vars N))
        → Serves s.world v
        → IsWhole servers ps s
        → IsWhole servers ps (record s { world = v })
    unfolding get_cur_selected_server_fd
    Serves-IsWhole s v (call c r e) h =
        IsWhole-same h (Calls-returns (Steady-syscall (covers _) c) e) refl refl h.room
    Serves-IsWhole s v (store mess e) h =
        rw e (record { same = h.same; d = h.d; p = h.p; four = h.four; room = h.room })
    Serves-IsWhole s v (choose fd e) h =
        subst (λ v. IsWhole servers ps (record s { world = v })) (ap final e)
          (record { same = h.same; d = h.d; p = h.p; four = h.four; room = h.room })

    -- A report takes the place of the weight of its server.
    note-IsWhole :
        (w : World (Vars N)) (us : List (Usage N)) (u : Usage N) (rounds : List (List (Usage N)))
        → IsWhole servers ps (record { world = w; point = recording us u; rounds = rounds })
        → IsWhole servers ps (record {
          world = record w { vars = record_usage (length us) u w.vars };
          point = asking (us ++ u ∷ []);
          rounds = rounds;
        })
    unfolding record_usage
    note-IsWhole w us u rounds h = record {
      same = h.same;
      d = h.d;
      p =
          ap (λ p. set p (length us) (weight u)) h.p
          ∙ set-map weight us u (weights_of ps rounds) (rw h.four h.room);
      four = h.four;
      room = tt;
    }

    Monitors-IsWhole :
        (w v : World (Vars N)) (p q : Point N) (rounds : List (List (Usage N)))
        → Monitors w v p q
        → IsWhole servers ps (record { world = w; point = p; rounds = rounds })
        → IsWhole servers ps (record { world = v; point = q; rounds = rounds })
    Monitors-IsWhole w v _ _ rounds (pause e) h =
        IsWhole-same h (Calls-returns (Steady-run_call (covers _) _) e) refl refl tt
    Monitors-IsWhole w v _ _ rounds (request {us} fd n e) h =
        IsWhole-same h (Calls-returns (Calls-ask _ (length us)) e) refl refl n
    Monitors-IsWhole w v _ _ rounds (answer {fd} u e) h =
        IsWhole-same h (Calls-returns (Calls-receive _ fd) e) refl refl h.room
    Monitors-IsWhole w v _ _ rounds (note {us} {u} e) h = rw e (note-IsWhole w us u rounds h)
    Monitors-IsWhole w v _ _ rounds (finish e) h =
        IsWhole-same h (Calls-returns (Calls-finish_if_full _) e) refl refl tt

    distribute-IsWhole :
        (s : System N) (us : List (Usage N)) (v : World (Vars N))
        → s.point ≡ asking us
        → length us ≡ servers_num
        → set_distribution s.world ≡ returns tt v
        → IsWhole servers ps s
        → IsWhole servers ps (record { world = v; point = finishing; rounds = us ∷ s.rounds })
    unfolding set_distribution
    distribute-IsWhole s us v at n e h =
        subst
          (λ v.
            IsWhole servers ps (record { world = v; point = finishing; rounds = us ∷ s.rounds }))
          (ap final e)
          (record {
            same = h.same;
            d = ap N.discrete p;
            p = p;
            four = length-map weight us ∙ n;
            room = tt;
          })
      where
        ws : List N.Double
        ws = weights_of ps s.rounds

        p : s.world.vars.p ≡ map (weight {N = N}) us
        p =
            h.p
            ∙ ap (λ a. mixed ws (usages_of a)) at
            ∙ ap (λ rest. map weight us ++ rest)
                (ap (λ k. drop k ws) (n ∙ sym h.four) ∙ drop-length ws)
            ∙ append-nil (map weight us)

    Step-IsWhole : {s t : System N} → Step s t → IsWhole servers ps s → IsWhole servers ps t
    Step-IsWhole {s} (serving v turn) h = Serves-IsWhole s v turn h
    Step-IsWhole {s} (monitoring v q turn) h = Monitors-IsWhole s.world v s.point q s.rounds turn h
    Step-IsWhole {s} (distribute us v at n e) h = distribute-IsWhole s us v at n e h

    Reach-IsWhole :
        {w : World (Vars N)} {s : System N}
        → IsWhole servers ps (begin w)
        → Reach w s
        → IsWhole servers ps s
    Reach-IsWhole h here = h
    Reach-IsWhole h (next r turn) = Step-IsWhole turn (Reach-IsWhole h r)

  -- The start of the process leaves the weights alone.
  admit_server-Steady :
      (ps : List N.Double) (listen_fd i : ℕ) → Steady (λ s. s.p ≡ ps) Any (admit_server listen_fd i)
  unfolding admit_server register
  admit_server-Steady ps listen_fd i = Steady-bind (Steady-syscall (covers _) _) λ r.
      Steady-bind (Steady-ok_or_exit (covers _) (result r)) λ fd.
        Steady-bind (Steady-socket_connect (covers _) _ (peer r)) λ mon_fd.
          Steady-seq (Steady-set_tcp_no_delay (covers _) mon_fd true)
            (Steady-seq (Steady-set_tcp_no_delay (covers _) fd true) (Steady-modify _ (λ s e. e)))

  start-Steady :
      (ps : List N.Double)
      → Hoare {S = Vars N}
          (λ w. w.vars.p ≡ ps)
          start
          (λ _ w. (w.vars.p ≡ ps) × (w.vars.d ≡ N.discrete ps))
          (λ h w. Unit)
  unfolding start init_inner_mon set_distribution
  start-Steady ps =
      Hoare-seq {R = λ w. w.vars.p ≡ ps}
        (Steady.hoare (
          Steady-bind (Steady-get_listen_fd (covers _) _ _) λ listen_fd.
            Steady-for_range (covers _) servers_num 0 _ (admit_server-Steady ps listen_fd)))
        (Hoare-modify _ (λ w e. (e, ap N.discrete e)))

  -- The run of a choice that draws with the weights `ws` from the servers.
  abbrev pub chosen : List (ℕ × ℕ) → List N.Double → World (Vars N) → Run (Vars N) ℕ
  chosen servers ws v =
      let r = N.draw (N.discrete ws) v.vars.e in
      returns (get_or servers r.0 (0, 0)).0 (record v { vars = record v.vars { e = r.1 } })

  choose_lem :
      {servers : List (ℕ × ℕ)} {ps : List N.Double} {s : System N}
      → IsWhole servers ps s
      → get_cur_selected_server_fd s.world ≡ chosen servers (weights_of ps s.rounds) s.world
  unfolding get_cur_selected_server_fd
  choose_lem {s} h = rw (h.d, h.same) refl

  -- However the two threads take turns after a start with four weights, a choice that the serving
  -- thread makes draws from the servers of the start with four weights: those of the reports of the
  -- last whole round, or those of the start if there was none; never with weights of two rounds.
  pub choices_follow_rounds :
      (u w : World (Vars N)) (s : System N)
      → length u.vars.p ≡ servers_num
      → start u ≡ returns tt w
      → Reach w s
      → (length (weights_of u.vars.p s.rounds) ≡ servers_num)
        × (get_cur_selected_server_fd s.world
            ≡ chosen w.vars.servers_inner (weights_of u.vars.p s.rounds) s.world)
  choices_follow_rounds u w s n e r =
      let (p, d) =
        subst (Post (λ _ w. (w.vars.p ≡ u.vars.p) × (w.vars.d ≡ N.discrete u.vars.p)) (λ h w. Unit))
          e ((start-Steady u.vars.p).at u refl) in
      let h : IsWhole w.vars.servers_inner u.vars.p s =
        Reach-IsWhole (record { same = refl; d = d; p = p; four = n; room = tt }) r in
      (h.four, choose_lem h)
