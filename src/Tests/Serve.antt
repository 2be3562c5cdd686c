-- ===== src/Tests/Serve.antt =====
-- The event loop of the distributor on small inputs, and a request there and back.
use gra_project.Base.{◌≡◌, refl, some, List, [], ◌∷◌, arith, inl, replicate, Bytes}
use gra_project.Sys.{
  read, write, Reply, done, failed, accepted, input, ready, World, Run, returns, final, syscall,
  eagain,
}
use gra_project.Sys.Endless.{Halts}
use gra_project.Sys.Loop.{loop, repeat, for_each}
use gra_project.Net.{set_reuse_addr, set_nonblock, set_tcp_no_delay, get_listen_fd, epoll_ctl_add}
use gra_project.Wire.{int_bytes, message, normal_len}
use gra_project.Inner
use gra_project.Inner.{work_turn}
use gra_project.Algorithm.{Vars}
use gra_project.Algorithm.Choose.{get_cur_selected_server_fd}
use gra_project.Algorithm.Serve.{
  correct_res, err_res, accept_one, forward, on_client, on_server, on_event, serve_turn,
  thread_func,
}
use gra_project.Algorithm.Serve.Honest.{NoReplies}
use gra_project.Algorithm.Serve.Requests.{piece_refused}
use gra_project.Algorithm.Serve.Silence.{thread_func-NoReplies}
use gra_project.Algorithm.Serve.Termination.{thread_func-Halts}
use gra_project.RoundTrip.{last_call, request_round_trip}
use gra_project.Tests.Sample.{tenths, started}

-- A client, descriptor 9, connects and sends a request; the listening socket is 3, the epoll set 8.
abbrev session : List Reply
session =
    done 3
    ∷ done 0
    ∷ done 0
    ∷ done 0
    ∷ done 0
    ∷ done 0
    ∷ done 8
    ∷ done 0
    ∷ ready (record { fd = 3; events = 1 } ∷ [])
    ∷ accepted 9 1
    ∷ done 0
    ∷ done 0
    ∷ done 0
    ∷ done 0
    ∷ failed eagain
    ∷ ready (record { fd = 9; events = 1 } ∷ [])
    ∷ input (replicate 16 5)
    ∷ done 20
    ∷ []

session_run : Run (Vars tenths) (Unit {0})
unfolding thread_func serve_turn on_event on_client forward accept_one get_cur_selected_server_fd
    loop repeat for_each set_nonblock set_tcp_no_delay set_reuse_addr get_listen_fd epoll_ctl_add
    syscall message int_bytes
session_run = thread_func (started session)

-- The request reaches the first server.
session_forwards : last_call session_run ≡ some (write 4 (message 9 (replicate 16 5)))
unfolding session_run
session_forwards = refl

thread_func-Halts_example : Halts (thread_func (started session))
thread_func-Halts_example = thread_func-Halts (started session)

thread_func-NoReplies_example : NoReplies (final (thread_func (started session))).trace
unfolding session_run
thread_func-NoReplies_example =
    thread_func-NoReplies {servers = 7 ∷ 6 ∷ 5 ∷ 4 ∷ []} (started session) refl refl (
      tt,
      (
        tt,
        (
          (refl, tt),
          (
            tt,
            (
              tt,
              (
                tt,
                (
                  tt,
                  (tt, (refl, ((refl, tt), (tt, (tt, (tt, (tt, (tt, (tt, (tt, (refl, tt))))))))))),
                ),
              ),
            ),
          ),
        ),
      ),
    )

abbrev fives : Bytes
fives = replicate 16 5

piece_refused_example :
    on_client 8 9 (started (input (1 ∷ 2 ∷ []) ∷ done 16 ∷ []))
    ≡ returns tt (record (started []) {
      trace = (write 9 err_res, done 16) ∷ (read 9 normal_len, input (1 ∷ 2 ∷ [])) ∷ [];
    })
piece_refused_example =
    piece_refused 8 9 (input (1 ∷ 2 ∷ [])) (done 16) []
      (started (input (1 ∷ 2 ∷ []) ∷ done 16 ∷ []))
      (inl (1 ∷ 2 ∷ [], omega arith, omega arith, refl)) refl

abbrev worker : World Inner.Vars
worker = record {
  vars = record { mess = replicate 20 0 };
  script = input (message 9 fives) ∷ done 5 ∷ done 100 ∷ done 0 ∷ done 20 ∷ [];
  trace = [];
}

request_round_trip_example :
    (last_call (on_client 8 9 (started (input fives ∷ done 20 ∷ [])))
      ≡ some (write 4 (message 9 fives)))
    × (last_call (work_turn 3 worker) ≡ some (write 3 (message 9 fives)))
    × (last_call (on_server 4 (started (input (message 9 fives) ∷ done 16 ∷ [])))
        ≡ some (write 9 correct_res))
request_round_trip_example =
    request_round_trip 8 9 4 3 fives (done 20) (done 5) (done 100) (done 0) (done 20) (done 16)
      (started (input fives ∷ done 20 ∷ [])) (started (input (message 9 fives) ∷ done 16 ∷ []))
      worker refl (omega arith) (omega arith) refl refl refl refl refl refl
