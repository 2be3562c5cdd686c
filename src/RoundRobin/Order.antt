-- ===== src/RoundRobin/Order.antt =====
-- servers/round_robin_distributor.cc: which server gets which request.
use gra_project.Base.{
  ℕ, zero, suc, ◌+◌, ◌-◌, ◌*◌, ◌/◌, ◌%◌, ◌≤◌, ◌<◌, ◌≡◌, refl, sym, ap, ◌∙◌, List, [], ◌∷◌, ◌++◌,
  append_assoc, arith, length, take-length, ◌==◌, if◌then◌else◌, Bytes, eq→==, ne→==,
}
use gra_project.Sys.{Call, read, write, Reply, done, input, World, returns, and_then, syscall}
use gra_project.Sys.Loop.{for_each}
use gra_project.RoundRobin.{
  Vars, servers_num, bufsiz, correct_res, next_index, advance, server_at, select_server,
  answer_client, forward, after_read, on_client,
}

-- A request of a client that the server takes whole, and the reply to the client's answer.
pub record Request : Type 0 where
  pub fd : ℕ
  pub bytes : Bytes
  pub told : Reply
  pub some_bytes : 0 < length bytes
  pub fits : length bytes ≤ bufsiz

abbrev pub replies_of : List Request → List Reply → List Reply
replies_of [] rest = rest
replies_of (q ∷ requests) rest =
    input q.bytes ∷ done (length q.bytes) ∷ q.told ∷ replies_of requests rest

-- The calls for a request that is sent to a server, newest first.
abbrev pub calls_of : ℕ → Request → List (Call × Reply)
calls_of server_fd q =
    (write q.fd correct_res, q.told)
    ∷ (write server_fd q.bytes, done (length q.bytes))
    ∷ (read q.fd bufsiz, input q.bytes)
    ∷ []

-- The calls for requests of which the first is number `k`: number k goes to server k mod 4.
abbrev pub calls_from : List (ℕ × ℕ) → ℕ → List Request → List (Call × Reply)
calls_from servers k [] = []
calls_from servers k (q ∷ requests) =
    calls_from servers (suc k) requests ++ calls_of (server_at servers (k % servers_num)).0 q

next_index_mod : (k : ℕ) → next_index (k % servers_num) ≡ suc k % servers_num
unfolding next_index
next_index_mod k = ground arith

next_index_bound : (i : ℕ) → next_index i < servers_num
unfolding next_index
next_index_bound i = ground arith

abbrev after_request : Request → List Reply → World Vars → World Vars
after_request q rest w = record {
  vars = advance w.vars;
  script = rest;
  trace = calls_of (server_at w.vars.servers_inner w.vars.cur_selected_server_index).0 q ++ w.trace;
}

on_client_lem :
    (epoll_fd : ℕ) (q : Request) (rest : List Reply) (w : World Vars)
    → w.script ≡ replies_of (q ∷ []) rest
    → on_client epoll_fd q.fd w ≡ returns tt (after_request q rest w)
unfolding on_client after_read forward select_server answer_client syscall
on_client_lem epoll_fd q rest w e = simp (
  e,
  take-length q.bytes 8192 (omega (arith, q.fits)),
  ne→== (length q.bytes) 0 (omega (arith, q.some_bytes)),
  eq→== (length q.bytes) (length q.bytes) refl,
)

-- Whole requests that the servers take whole go round the servers: request number k, counted from
-- the index at the start, is written to server k mod 4, and its client hears of success; the index
-- moves on by one for each.
pub requests_rotate :
    (epoll_fd k : ℕ) (requests : List Request) (rest : List Reply) (w : World Vars)
    → w.vars.cur_selected_server_index ≡ k % servers_num
    → w.script ≡ replies_of requests rest
    → (v : World Vars) × (for_each requests (λ q. on_client epoll_fd q.fd) w ≡ returns tt v)
      × (v.vars.cur_selected_server_index ≡ (k + length requests) % servers_num)
      × (v.trace ≡ calls_from w.vars.servers_inner k requests ++ w.trace)
unfolding for_each advance
requests_rotate epoll_fd k [] rest w i e = (w, refl, omega arith, refl)
requests_rotate epoll_fd k (q ∷ requests) rest w i e =
    let u : World Vars = after_request q (replies_of requests rest) w in
    let (v, run, index, trace) =
      requests_rotate epoll_fd (suc k) requests rest u (ap next_index i ∙ next_index_mod k) refl in
    (
      v,
      ap (λ r. and_then r (λ _. for_each requests (λ q. on_client epoll_fd q.fd)))
            (on_client_lem epoll_fd q (replies_of requests rest) w e)
          ∙ run,
      omega (arith, index),
      trace
          ∙ (ap
                (λ j.
                  calls_from w.vars.servers_inner (suc k) requests
                  ++ (calls_of (server_at w.vars.servers_inner j).0 q ++ w.trace))
                i
              ∙ sym (
                  append_assoc (calls_from w.vars.servers_inner (suc k) requests)
                    (calls_of (server_at w.vars.servers_inner (k % servers_num)).0 q) w.trace)),
    )

-- How many of the next `n` requests go to server `j`.
pub share : ℕ → ℕ → Vars → ℕ
share j zero s = 0
share j (suc n) s = (if s.cur_selected_server_index == j then 1 else 0) + share j n (advance s)

turns : ℕ → ℕ → ℕ → ℕ
turns j n i = (n + 3 - (j + 4 - i) % 4) / 4

turns-suc :
    (j n i : ℕ)
    → j < servers_num
    → i < servers_num
    → (if i == j then 1 else 0) + turns j n (next_index i) ≡ turns j (suc n) i
unfolding next_index turns
turns-suc j n i h l = ground arith

share_lem :
    (j n : ℕ) (s : Vars)
    → j < servers_num
    → s.cur_selected_server_index < servers_num
    → share j n s ≡ turns j n s.cur_selected_server_index
unfolding share advance turns
share_lem j zero s h i = omega arith
share_lem j (suc n) s h i =
    ap (λ m. (if s.cur_selected_server_index == j then 1 else 0) + m)
      (share_lem j n (advance s) h (next_index_bound s.cur_selected_server_index))
    ∙ turns-suc j n s.cur_selected_server_index h i

-- Of any number of requests in a row, each server gets a quarter, rounded up or down.
pub share_fair :
    (j n : ℕ) (s : Vars)
    → j < servers_num
    → s.cur_selected_server_index < servers_num
    → (4 * share j n s ≤ n + 3) × (n ≤ 4 * share j n s + 3)
unfolding turns
share_fair j n s h i = (omega (arith, share_lem j n s h i), omega (arith, share_lem j n s h i))
