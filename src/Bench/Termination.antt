-- ===== src/Bench/Termination.antt =====
-- test_bench/someip_bench/someip_bench.c: rules for the termination of the bench.
use gra_project.Base.{ℕ, zero, suc, ◌≡◌, true, false, Option, none, some, Bytes, arith}
use gra_project.Sys.{
  Call, result, Outcome, ok, error, unfinished, World, halts, M, ◌>>=◌, run_call, pure,
}
use gra_project.Sys.Consumes.{
  Takes-finishes, Takes, Takes-first, Takes-seq_first, Takes-pure, Takes-exit, Takes-get,
  Takes-modify, Takes-syscall, Takes-weaken, Takes-loop, Takes-if, Takes-Outcome,
}
use gra_project.Net.Rules.{Takes-call, takes_rules}
use gra_project.Bench.{Settings}
use gra_project.Bench.Core.{
  Counts, someip_socket, connect_to, close_answered, read_answer, half_close, send_request, attempt,
  bench_turn, benchcore, give_up,
}
use gra_project.Bench.Parent.{
  fork_clients, counts_in, collect, run_client, run_parent, play_role, bench,
}

abbrev Ends : {A : Type 0} → M Counts A → Type 0
Ends m = Takes 0 m

Ends-give_up : (fd : ℕ) → Ends (give_up fd)
Ends-give_up fd = search takes_rules

Ends-close_answered : (fd : ℕ) → Ends (close_answered fd)
unfolding close_answered
Ends-close_answered fd = search takes_rules

Ends-read_answer : (fd : ℕ) → Ends (read_answer fd)
unfolding read_answer
Ends-read_answer fd =
    Takes-first (Takes-call _) (λ r. Takes-if _ (Ends-close_answered fd) (Ends-give_up fd))

Ends-half_close : (fd : ℕ) → Ends (half_close fd)
unfolding half_close
Ends-half_close fd =
    Takes-first (Takes-call _) (λ r. Takes-if _ (Ends-read_answer fd) (Ends-give_up fd))

Ends-send_request : (fd : ℕ) (req : Bytes) → Ends (send_request fd req)
unfolding send_request
Ends-send_request fd req =
    Takes-first (Takes-call _) (λ r. Takes-if _ (Ends-half_close fd) (Ends-give_up fd))

Ends-connect_to : (address port : ℕ) → Ends (connect_to address port)
unfolding connect_to
Ends-connect_to address port = Takes-first (Takes-call _) λ s.
    Takes-Outcome (result s)
      (λ sock.
        Takes-first (Takes-call _)
          λ r. Takes-Outcome (result r) (λ n. Takes-pure _) (λ e. Takes-pure _))
      (λ e. Takes-pure _)

Ends-someip_socket : (host : Bytes) (port : ℕ) → Ends (someip_socket host port)
unfolding someip_socket
Ends-someip_socket host port = Takes-first (Takes-call _) λ r.
    Takes-Outcome (result r) (λ address. Ends-connect_to address port)
      (λ e. Takes-first (Takes-call _) λ hp.
        Takes-Outcome (result hp) (λ address. Ends-connect_to address port) (λ e. Takes-pure _))

Ends-attempt : (host : Bytes) (port : ℕ) (req : Bytes) → Ends (attempt host port req)
unfolding attempt
Ends-attempt host port req =
    Takes-first (Ends-someip_socket host port)
      λ s. Takes-Outcome s (λ fd. Ends-send_request fd req) (λ e. Takes-pure false)

Takes-bench_turn : (host : Bytes) (port : ℕ) (req : Bytes) → Takes 1 (bench_turn host port req)
unfolding bench_turn
Takes-bench_turn host port req = Takes-first (Takes-syscall _) λ flag.
    Takes-if _
      (Takes-first (Ends-attempt host port req)
        λ answered. Takes-seq_first (Takes-modify _) (Takes-pure true))
      (Takes-seq_first (Takes-modify _) (Takes-pure false))

Ends-benchcore :
    (host : Bytes) (port : ℕ) (req : Bytes) (benchtime : ℕ)
    → Ends (benchcore host port req benchtime)
unfolding benchcore
Ends-benchcore host port req benchtime = Takes-first (Takes-call _) λ r.
    Takes-seq_first (Takes-if _ (Takes-pure tt) (Takes-exit 0 3)) (
      Takes-seq_first (Takes-first (Takes-call _) λ r. Takes-pure tt)
        (Takes-weaken (Takes-loop (Takes-bench_turn host port req)) (omega arith)))

Ends-fork_clients : (n pid : ℕ) → Ends (fork_clients n pid)
unfolding fork_clients
Ends-fork_clients zero pid = Takes-pure _
Ends-fork_clients (suc n) pid =
    Takes-first (Takes-call _) λ r. after (Ends-fork_clients n) (result r)
  where
    stopped : (r : Outcome) → Ends (run_call {S = Counts} (Call.sleep 1) >>= (λ x. pure r))
    stopped r = Takes-first (Takes-first (Takes-call _) λ r. Takes-pure tt) λ x. Takes-pure r

    after :
        ((pid : ℕ) → Ends (fork_clients n pid))
        → (r : Outcome)
        → Ends (elim r [
          | error e ↦ run_call (Call.sleep 1) >>= (λ x. pure (error e))
          | ok zero ↦ run_call (Call.sleep 1) >>= (λ x. pure (ok 0))
          | ok (suc p) ↦ fork_clients n (suc p)
        ])
    after h (error e) = stopped (error e)
    after h (ok zero) = stopped (ok 0)
    after h (ok (suc p)) = h (suc p)

Takes-Option :
    {A : Type 0} {k : ℕ} {m : M Counts A} {f : ℕ × ℕ → M Counts A} (o : Option (ℕ × ℕ))
    → Takes k m
    → ((x : ℕ × ℕ) → Takes k (f x))
    → Takes k (elim o [ none ↦ m | some x ↦ f x ])
Takes-Option none h g = h
Takes-Option (some x) h g = g x

Ends-collect : (n last : ℕ) → Ends (collect n last)
unfolding collect
Ends-collect zero last = Takes-first (Takes-call _) λ r.
    Takes-Option (counts_in r) (Takes-pure last)
      (λ (i, j). Takes-seq_first (Takes-modify _) (Takes-pure i))
Ends-collect (suc n) last = Takes-first (Takes-call _) λ r.
    Takes-Option (counts_in r) (Takes-pure last)
      (λ (i, j). Takes-seq_first (Takes-modify _) (Ends-collect n i))

Ends-run_call : (c : Call) → Ends (run_call c)
Ends-run_call c = search takes_rules

Ends-run_client : (set : Settings) → Ends (run_client set)
unfolding run_client
Ends-run_client set = Takes-seq_first (Ends-benchcore _ _ _ _) (
    Takes-first (Takes-call _) λ r.
      Takes-Outcome (result r)
        (λ f.
          Takes-first Takes-get λ c.
            Takes-seq_first (Ends-run_call _) (Takes-seq_first (Ends-run_call _) (Takes-pure 0)))
        (λ e. Takes-pure 3))

Ends-run_parent : (clients : ℕ) → Ends (run_parent clients)
unfolding run_parent
Ends-run_parent clients = Takes-first (Takes-call _) λ r.
    Takes-Outcome (result r)
      (λ f.
        Takes-seq_first (Takes-modify _)
          (Takes-first (Ends-collect _ _) λ i. Takes-seq_first (Ends-run_call _) (Takes-pure i)))
      (λ e. Takes-pure 3)

Ends-play_role : (set : Settings) (pid : Outcome) → Ends (play_role set pid)
unfolding play_role
Ends-play_role set (error e) = Takes-pure 3
Ends-play_role set (ok zero) = Ends-run_client set
Ends-play_role set (ok (suc pid)) = Ends-run_parent _

Ends-bench : (set : Settings) → Ends (bench set)
unfolding bench
Ends-bench set = Takes-first (Ends-someip_socket _ _) λ s.
    Takes-Outcome s
      (λ fd. Takes-seq_first (Ends-run_call _) (
        Takes-first (Takes-call _) λ r.
          Takes-if _ (Takes-first (Ends-fork_clients _ 0) λ pid. Ends-play_role set pid)
            (Takes-pure 3)))
      (λ e. Takes-pure 1)

pub bench_finishes : (set : Settings) (w v : World Counts) → ¬ (bench set w ≡ halts unfinished v)
bench_finishes set w v = Takes-finishes (Ends-bench set) w v
