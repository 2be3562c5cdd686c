-- ===== src/Tests/Reuseport.antt =====
-- A worker on small inputs, with an allocator that never gives an address twice.
use gra_project.Base.{
  ℕ, suc, ◌+◌, ◌%◌, ◌^◌, ◌≤◌, ◌≡◌, refl, arith, List, [], ◌∷◌, ◌++◌, none, replicate, length, ne→==,
}
use gra_project.Sys.{
  Event, Reply, done, accepted, input, ready, undefined, World, halts, final, text,
}
use gra_project.Sys.{syscall}
use gra_project.Sys.Loop.{loop, for_each}
use gra_project.Net.{set_reuse_addr, set_reuse_port, set_nonblock, set_tcp_no_delay, epoll_ctl_add}
use gra_project.Reuseport.{
  open_listener, on_event, load, found_or_undefined, accept_client, add_client, on_client,
  after_read, log_request, conn_of, Vars, initial, serve_turn, do_work,
}
use gra_project.Reuseport.Objects.{Heap, lookup, Allocator}
use gra_project.Reuseport.Safety.{serve_turn_safe}
use gra_project.Reuseport.Log.{AreNumbered, do_work_numbers}

abbrev above : {A : Type 0} → Heap A → ℕ
above [] = 1
above ((p, a) ∷ heap) = suc p + above heap

lookup-above : {A : Type 0} (heap : Heap A) (k : ℕ) → above heap ≤ k → lookup heap k ≡ none
unfolding lookup
lookup-above [] k h = refl
lookup-above ((p, a) ∷ heap) k h =
    let rest : lookup heap k ≡ none = lookup-above heap k (omega arith) in
    rw (ne→== p k (λ e. omega arith)) rest

lookup-fresh : {A : Type 0} (heap : Heap A) → lookup heap (above heap) ≡ none
lookup-fresh heap = lookup-above heap (above heap) (omega arith)

abbrev rising : Allocator
rising = record { fresh = above; free = lookup-fresh }

-- The listener at the address 1 and two clients.
abbrev three_objects : Vars
three_objects = record initial { heap = (1, conn_of 3) ∷ (2, conn_of 6) ∷ (4, conn_of 7) ∷ [] }

-- The first client has closed its end, the second sends two bytes.
abbrev two_events : List Event
two_events = record { fd = 2; events = 1 } ∷ record { fd = 4; events = 1 } ∷ []

abbrev replies : List Reply
replies = input [] ∷ done 0 ∷ done 0 ∷ input (text "hi") ∷ []

abbrev begun : List Reply → World Vars
begun script = record { vars = three_objects; script = script; trace = [] }

serve_turn_safe_example :
    ¬ (serve_turn rising 5 3 (begun (ready two_events ∷ replies)) ≡ halts undefined (begun []))
unfolding lookup
serve_turn_safe_example =
    serve_turn_safe rising 5 3 two_events replies (begun (ready two_events ∷ replies)) (begun [])
      (omega arith) (((λ e. omega arith), tt), (tt, tt))
      ((conn_of 6, refl), ((conn_of 7, refl), tt)) refl

-- A worker that gets ready, accepts a client and reads from it twice; the third reply never comes.
abbrev working : List Reply
working =
    replicate 5 (done 3)
    ++ (done 0
        ∷ done 0
        ∷ done 0
        ∷ done 5
        ∷ done 0
        ∷ ready (record { fd = 1; events = 1 } ∷ [])
        ∷ accepted 6 0
        ∷ done 0
        ∷ done 0
        ∷ done 0
        ∷ done 0
        ∷ ready (record { fd = 3; events = 1 } ∷ [])
        ∷ input (text "hi")
        ∷ ready (record { fd = 3; events = 1 } ∷ [])
        ∷ input (text "ho")
        ∷ [])

do_work_numbers_example :
    let v = final (do_work rising 0 (record { vars = initial; script = working; trace = [] })) in
    AreNumbered 0 v.vars.out × (v.vars.counter ≡ length v.vars.out % 2 ^ 64)
do_work_numbers_example = do_work_numbers rising 0 working

worker_log :
    (final (do_work rising 0 (record { vars = initial; script = working; trace = [] }))).vars.out
    ≡ (1, text "hi") ∷ (2, text "ho") ∷ []
unfolding do_work open_listener set_reuse_addr set_reuse_port set_nonblock set_tcp_no_delay
    epoll_ctl_add loop serve_turn for_each on_event load found_or_undefined accept_client add_client
    on_client after_read log_request syscall lookup
worker_log = refl
