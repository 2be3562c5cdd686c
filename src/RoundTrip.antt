-- ===== src/RoundTrip.antt =====
-- A request on its way from a client through the distributor to an inner server and back: the parts
-- of servers/algorithm_distributor.cc and servers/inner_server.cc that speak to one another.
use gra_project.Base.{ℕ, ◌<◌, ◌^◌, ◌≡◌, ap, Option, none, some, [], ◌∷◌, arith, length, Bytes}
use gra_project.Sys.{Call, write, Reply, ok, input, result, World, Run, final, Trace}
use gra_project.Numbers.{Numbers}
use gra_project.Wire.{mess_len, normal_len, message, length-message}
use gra_project.Algorithm.{Vars}
use gra_project.Algorithm.Serve.{correct_res, on_client, on_server}
use gra_project.Algorithm.Serve.Requests.{chosen, request_forwarded, reply_answered}
use gra_project.Inner
use gra_project.Inner.{work_turn}
use gra_project.Inner.Echo.{work_turn_echoes}

-- The newest call of a run.
abbrev pub newest : Trace → Option Call
newest [] = none
newest ((c, r) ∷ trace) = some c

abbrev pub last_call : {S A : Type 0} → Run S A → Option Call
last_call r = newest (final r).trace

pub request_round_trip :
    {N : Numbers} (epoll_fd fd server_fd work_fd : ℕ) (buf : Bytes)
    (sent opened written closed echoed told : Reply) (w v : World (Vars N)) (u : World Inner.Vars)
    → length buf ≡ normal_len
    → 0 < fd
    → fd < 2 ^ 31
    → w.script ≡ input buf ∷ sent ∷ []
    → result sent ≡ ok mess_len
    → u.script ≡ input (message fd buf) ∷ opened ∷ written ∷ closed ∷ echoed ∷ []
    → length u.vars.mess ≡ mess_len
    → v.script ≡ input (message fd buf) ∷ told ∷ []
    → length v.vars.mess ≡ mess_len
    → (last_call (on_client epoll_fd fd w) ≡ some (write (chosen w.vars) (message fd buf)))
      × (last_call (work_turn work_fd u) ≡ some (write work_fd (message fd buf)))
      × (last_call (on_server server_fd v) ≡ some (write fd correct_res))
request_round_trip epoll_fd fd server_fd work_fd buf sent opened written closed echoed told w v u n
      p q ws s us um vs vm =
    (
      ap last_call (request_forwarded epoll_fd fd buf sent [] w n ws s),
      ap last_call (
          work_turn_echoes work_fd (message fd buf) opened written closed echoed [] u
            (omega (arith, length-message fd buf)) um us),
      ap last_call (reply_answered server_fd fd buf told [] v n vm p q vs),
    )
