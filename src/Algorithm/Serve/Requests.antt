-- ===== src/Algorithm/Serve/Requests.antt =====
-- servers/algorithm_distributor.cc: what the distributor does with what clients and servers send.
use gra_project.Base.{
  ℕ, ◌^◌, ◌<◌, ◌≡◌, refl, ap, ◌≢◌, List, [], ◌∷◌, arith, length, take-length, ne→==, Bytes, ◌==◌,
  if◌then◌else◌, ◌⊎◌, inl, inr,
}
use gra_project.Sys.{
  read, write, close, epoll_del, eagain, Reply, Outcome, ok, error, failed, done, input, result,
  World, returns, M, syscall, pure, run_call,
}
use gra_project.Net.{close_connect}
use gra_project.Numbers.{Numbers}
use gra_project.Wire.{
  mess_len, normal_len, message, overwrite_whole, is_positive_lem, int_at-message, length-message,
}
use gra_project.Algorithm.{Vars}
use gra_project.Algorithm.Choose.{drawn, fd_at, get_cur_selected_server_fd}
use gra_project.Algorithm.Serve.{
  correct_res, err_res, forward, on_client, store_reply, answer_client, on_server,
}

module _ {N : Numbers} where
  -- The server that the next draw chooses.
  abbrev pub chosen : Vars N → ℕ
  chosen s = fd_at s (drawn s).0

  -- The variables after a request was passed on.
  abbrev pub requested : ℕ → Bytes → Vars N → Vars N
  requested fd buf s = record s { mess = message fd buf; e = (drawn s).1 }

  -- What `forward` does with the result of its write.
  abbrev pub after_write : ℕ → Outcome → M (Vars N) (Unit {0})
  after_write fd (ok n) = if n == mess_len then pure tt else run_call (write fd err_res)
  after_write fd (error e) = run_call (write fd err_res)

  taken-Outcome :
      (fd : ℕ) (i : Outcome) (v : World (Vars N))
      → i ≡ ok mess_len
      → after_write fd i v ≡ returns tt v
  taken-Outcome fd i v h = ap (λ j. after_write fd j v) h

  refused-Outcome :
      (fd : ℕ) (i : Outcome) (v : World (Vars N))
      → i ≢ ok mess_len
      → after_write fd i v ≡ run_call (write fd err_res) v
  refused-Outcome fd (ok n) v h = simp (ne→== n 20 (λ e. h (ap ok e)))
  refused-Outcome fd (error e) v h = refl

  forward_lem :
      (fd : ℕ) (buf : Bytes) (sent : Reply) (rest : List Reply) (w : World (Vars N))
      → w.script ≡ sent ∷ rest
      → result sent ≡ ok mess_len
      → forward fd buf w
        ≡ returns tt (record w {
          vars = requested fd buf w.vars;
          script = rest;
          trace = (write (chosen w.vars) (message fd buf), sent) ∷ w.trace;
        })
  unfolding forward get_cur_selected_server_fd syscall
  forward_lem fd buf sent rest w e h = simp e (taken-Outcome fd (result sent) _ h)

  -- A whole request goes, behind the client's descriptor, to the server that the draw chooses; when
  -- the write takes all of it, nothing else is called and the client hears nothing yet.
  pub request_forwarded :
      (epoll_fd fd : ℕ) (buf : Bytes) (sent : Reply) (rest : List Reply) (w : World (Vars N))
      → length buf ≡ normal_len
      → w.script ≡ input buf ∷ sent ∷ rest
      → result sent ≡ ok mess_len
      → on_client epoll_fd fd w
        ≡ returns tt (record w {
          vars = requested fd buf w.vars;
          script = rest;
          trace =
              (write (chosen w.vars) (message fd buf), sent)
              ∷ (read fd normal_len, input buf)
              ∷ w.trace;
        })
  unfolding on_client syscall
  request_forwarded epoll_fd fd buf sent rest w n e h =
      simp (e, take-length buf 16 (omega arith), n) (forward_lem fd buf sent rest _ refl h)

  -- A whole request whose message is not taken whole by the server, or not at all, is answered by
  -- `err_res` at once, after the one write to the server.
  pub request_refused :
      (epoll_fd fd : ℕ) (buf : Bytes) (sent told : Reply) (rest : List Reply) (w : World (Vars N))
      → length buf ≡ normal_len
      → w.script ≡ input buf ∷ sent ∷ told ∷ rest
      → result sent ≢ ok mess_len
      → on_client epoll_fd fd w
        ≡ returns tt (record w {
          vars = requested fd buf w.vars;
          script = rest;
          trace =
              (write fd err_res, told)
              ∷ (write (chosen w.vars) (message fd buf), sent)
              ∷ (read fd normal_len, input buf)
              ∷ w.trace;
        })
  unfolding on_client forward get_cur_selected_server_fd syscall
  request_refused epoll_fd fd buf sent told rest w n e h =
      simp (e, take-length buf 16 (omega arith), n) (refused-Outcome fd (result sent) _ h)

  pub piece_refused :
      (epoll_fd fd : ℕ) (r told : Reply) (rest : List Reply) (w : World (Vars N))
      → ((buf : Bytes) × (0 < length buf) × (length buf < normal_len) × (r ≡ input buf))
        ⊎ (r ≡ failed eagain)
      → w.script ≡ r ∷ told ∷ rest
      → on_client epoll_fd fd w
        ≡ returns tt (record w {
          script = rest;
          trace = (write fd err_res, told) ∷ (read fd normal_len, r) ∷ w.trace;
        })
  unfolding on_client syscall
  piece_refused epoll_fd fd r told rest w (inl (buf, p, q, i)) e = simp (
    e,
    i,
    take-length buf 16 (omega arith),
    ne→== (length buf) 0 (omega arith),
    ne→== (length buf) 16 (omega arith),
  )
  piece_refused epoll_fd fd r told rest w (inr i) e = simp (e, i)

  -- A client that has closed its end, or whose read fails otherwise, is taken out of the epoll set
  -- and closed, and no byte is written to anyone.
  pub client_closed :
      (epoll_fd fd errno : ℕ) (r closed : Reply) (rest : List Reply) (w : World (Vars N))
      → (r ≡ input []) ⊎ ((r ≡ failed errno) × (errno ≢ eagain))
      → w.script ≡ r ∷ done 0 ∷ closed ∷ rest
      → on_client epoll_fd fd w
        ≡ returns tt (record w {
          script = rest;
          trace =
              (close fd, closed)
              ∷ (epoll_del epoll_fd fd, done 0)
              ∷ (read fd normal_len, r)
              ∷ w.trace;
        })
  unfolding on_client close_connect syscall
  client_closed epoll_fd fd errno r closed rest w (inl i) e = simp (e, i)
  client_closed epoll_fd fd errno r closed rest w (inr (i, ne)) e = simp (e, i, ne→== errno 11 ne)

  -- A whole message from a server, under a descriptor that is a positive int, is answered to that
  -- client by `correct_res`; the payload is not looked at.
  pub reply_answered :
      (server_fd fd : ℕ) (payload : Bytes) (told : Reply) (rest : List Reply) (w : World (Vars N))
      → length payload ≡ normal_len
      → length w.vars.mess ≡ mess_len
      → 0 < fd
      → fd < 2 ^ 31
      → w.script ≡ input (message fd payload) ∷ told ∷ rest
      → on_server server_fd w
        ≡ returns tt (record w {
          vars = record w.vars { mess = message fd payload };
          script = rest;
          trace =
              (write fd correct_res, told)
              ∷ (read server_fd mess_len, input (message fd payload))
              ∷ w.trace;
        })
  unfolding on_server store_reply answer_client syscall
  reply_answered server_fd fd payload told rest w n k p q e = simp (
    e,
    take-length (message fd payload) 20 (omega (arith, length-message fd payload)),
    length-message fd payload,
    n,
    overwrite_whole (message fd payload) w.vars.mess (omega (arith, length-message fd payload)),
    int_at-message fd payload (omega arith),
    is_positive_lem fd p q,
  )
