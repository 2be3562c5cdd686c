-- ===== src/Algorithm/Serve/Honest.antt =====
-- What a kernel may reply, and predicates that hold of the runs in which it keeps to that.
use gra_project.Base.{
  ℕ, ◌≡◌, subst, ◌∙◌, ◌≢◌, true, false, List, [], ◌∷◌, ◌++◌, All, contains, ◌==◌, Bool-cases, inl,
  inr, ==_iff,
}
use gra_project.Sys.{
  Call, socket, accept, epoll_wait, epoll_add, write, Event, Reply, Outcome, ok, error, result,
  delivered, World, final, Trace, M, and_then, ◌>>=◌, get, modify, fit, answer, syscall,
}
use gra_project.Sys.Keeps.{Keeps}
use gra_project.Numbers.{Numbers}
use gra_project.Algorithm.{Vars}
use gra_project.Algorithm.Serve.{correct_res}

-- The descriptors that a call adds to an epoll set, and those that the calls of a trace added.
abbrev pub added_by : Call → List ℕ
added_by (epoll_add epoll_fd fd events) = fd ∷ []
added_by _ = []

abbrev pub added : Trace → List ℕ
added [] = []
added ((c, r) ∷ trace) = added_by c ++ added trace

-- No call of a trace writes `correct_res`.
abbrev pub NotReply : Call → Type 0
NotReply c = (fd : ℕ) → c ≢ write fd correct_res

abbrev pub NoReplies : Trace → Type 0
NoReplies [] = Unit
NoReplies ((c, r) ∷ trace) = NotReply c × NoReplies trace

module _ (servers : List ℕ) where
  abbrev pub Outside : ℕ → Type 0
  Outside fd = contains servers fd ≡ false

  abbrev pub Fresh : Outcome → Type 0
  Fresh (ok fd) = Outside fd
  Fresh (error e) = Unit

  -- New descriptors differ from those of the inner servers, which stay open, and `epoll_wait`
  -- delivers events of descriptors that were added.
  abbrev pub Fair : Call → Reply → Trace → Type 0
  Fair socket r trace = Fresh (result r)
  Fair (accept fd) r trace = Fresh (result r)
  Fair (epoll_wait epoll_fd capacity) r trace =
      All (λ (e : Event). contains (added trace) e.fd ≡ true) (delivered r)
  Fair _ r trace = Unit

  abbrev pub IsHonest : Trace → Type 0
  IsHonest [] = Unit
  IsHonest ((c, r) ∷ trace) = Fair c r trace × IsHonest trace

  -- What the replies to a call tell, in an honest run.
  abbrev pub Learnt : Call → Reply → Type 0
  Learnt socket r = Fresh (result r)
  Learnt (accept fd) r = Fresh (result r)
  Learnt (epoll_wait epoll_fd capacity) r = All (λ (e : Event). Outside e.fd) (delivered r)
  Learnt _ r = Unit

  -- A call that neither answers a client with success nor adds a server's descriptor.
  abbrev pub Allowed : Call → Type 0
  Allowed c = NotReply c × All Outside (added_by c)

  Outside-of_contains : (xs : List ℕ) (fd : ℕ) → All Outside xs → contains xs fd ≡ true → Outside fd
  Outside-of_contains [] fd h c = cc
  Outside-of_contains (x ∷ xs) fd h c = elim (Bool-cases (x == fd)) [
    | inl same ↦ subst (λ y. Outside y) ((==_iff x fd).0 same) h.0
    | inr other ↦ Outside-of_contains xs fd h.1 (rw other at c)
  ]

  Outside-events :
      (trace : Trace) (events : List Event)
      → All Outside (added trace)
      → All (λ (e : Event). contains (added trace) e.fd ≡ true) events
      → All (λ (e : Event). Outside e.fd) events
  Outside-events trace [] h f = tt
  Outside-events trace (e ∷ events) h f =
      (Outside-of_contains (added trace) e.fd h f.0, Outside-events trace events h f.1)

  learn :
      (c : Call) (r : Reply) (trace : Trace)
      → Fair c r trace
      → All Outside (added trace)
      → Learnt c r
  learn socket r trace f h = f
  learn (accept fd) r trace f h = f
  learn (epoll_wait epoll_fd capacity) r trace f h = Outside-events trace (delivered r) h f
  learn _ r trace f h = tt

  All-append : (xs ys : List ℕ) → All Outside xs → All Outside ys → All Outside (xs ++ ys)
  All-append [] ys h g = g
  All-append (x ∷ xs) ys h g = (h.0, All-append xs ys h.1 g)

module _ (servers : List ℕ) {N : Numbers} where
  -- No success has been answered, the set of servers is as it was, and none of them was added.
  pub record Clean (w : World (Vars N)) : Type 0 where
    pub no_replies : NoReplies w.trace
    pub known : w.vars.server_fd_set ≡ servers
    pub outside : All (Outside servers) (added w.trace)

  -- In an honest run the world is clean, and `K` is known.
  abbrev pub Knows : Type 0 → World (Vars N) → Type 0
  Knows K w = IsHonest servers w.trace → Clean w × K

  pub Knows-weaken : (K L : Type 0) (w : World (Vars N)) → Knows (K × L) w → Knows K w
  Knows-weaken K L w h = λ honest. ((h honest).0, (h honest).1.0)

  pub Knows-call :
      (K : Type 0) (c : Call) (r : Reply) (rest : List Reply) (w : World (Vars N))
      → (K → Allowed servers c)
      → Knows K w
      → Knows (K × Learnt servers c r) (record w { script = rest; trace = (c, r) ∷ w.trace })
  Knows-call K c r rest w allow h (fair, honest) =
      let (clean, k) = h honest in
      let allowed = allow k in
      (
        record {
          no_replies = (allowed.0, clean.no_replies);
          known = clean.known;
          outside = All-append servers (added_by c) (added w.trace) allowed.1 clean.outside;
        },
        (k, learn servers c r w.trace fair clean.outside),
      )

  Knows-answer :
      {A : Type 0} (K : Type 0) (c : Call) (f : Reply → M (Vars N) A) (script : List Reply)
      (w : World (Vars N))
      → (K → Allowed servers c)
      → ((r : Reply) → Keeps (Knows (K × Learnt servers c r)) (f r))
      → Knows K w
      → Knows K (final (and_then (answer c w script) f))
  Knows-answer K c f [] w allow k h = h
  Knows-answer K c f (r ∷ rest) w allow k h =
      let r' = fit c r in
      Knows-weaken K (Learnt servers c r') _ (
        (k r').at (record w { script = rest; trace = (c, r') ∷ w.trace })
          (Knows-call K c r' rest w allow h))

  -- After a call its replies are known.
  pub Knows-syscall :
      {A : Type 0} (K : Type 0) (c : Call) (f : Reply → M (Vars N) A)
      → (K → Allowed servers c)
      → ((r : Reply) → Keeps (Knows (K × Learnt servers c r)) (f r))
      → Keeps (Knows K) (syscall c >>= f)
  unfolding syscall
  Knows-syscall K c f allow k = record { at = λ w h. Knows-answer K c f w.script w allow k h }

  -- The set of servers is known where the program looks.
  pub Knows-get :
      {A : Type 0} (K : Type 0) (f : Vars N → M (Vars N) A)
      → ((s : Vars N) → Keeps (Knows (K × (s.server_fd_set ≡ servers))) (f s))
      → Keeps (Knows K) (get >>= f)
  Knows-get K f k = record {
    at = λ w h.
        Knows-weaken K (w.vars.server_fd_set ≡ servers) _
          ((k w.vars).at w (λ honest. ((h honest).0, ((h honest).1, (h honest).0.known))));
  }

  -- A change of the variables that leaves the set of servers alone.
  pub Knows-modify :
      (K : Type 0) (f : Vars N → Vars N)
      → ((s : Vars N) → (f s).server_fd_set ≡ s.server_fd_set)
      → Keeps (Knows K) (modify f)
  Knows-modify K f same = record {
    at = λ w h honest.
        let (clean, k) = h honest in
        (
          record {
            no_replies = clean.no_replies;
            known = same w.vars ∙ clean.known;
            outside = clean.outside;
          },
          k,
        );
  }
