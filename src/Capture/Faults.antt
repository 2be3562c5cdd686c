-- ===== src/Capture/Faults.antt =====
-- tcpdump_my/my_grub.c: packets that are not split as they should be.
use gra_project.Base.{
  ℕ, suc, ◌+◌, ◌≤◌, ◌<◌, ◌≡◌, refl, sym, ap, ◌∙◌, true, false, none, some, List, ◌∷◌, ◌++◌,
  append_assoc, arith, Bytes, length, drop, get_or, lt→ltb, length-append,
}
use gra_project.Wire.{overwrite}
use gra_project.Sys.{
  write, recvfrom, input, failed, eagain, undefined, Reply, World, returns, halts, pure, and_then,
  syscall,
}
use gra_project.Sys.Loop.{repeat}
use gra_project.Capture.{
  Vars, buffer_size, headers_len, byte_at, piece_length, found_at, message_at, after_write,
  send_found, send_one, is_wanted, capture_turn,
}
use gra_project.Capture.Split.{
  IsMessage, byte_of, joined, packet, message_at-append, overwrite-packet, is_wanted-append,
  after_receive, capture_turn-wanted,
}

-- A length field whose high byte is 0 and whose low byte has its highest bit set.
pub record IsLong (m : Bytes) : Type 0 where
  pub high : get_or m 6 0 ≡ 0
  pub low : 128 ≤ get_or m 7 0
  pub low_max : get_or m 7 0 < 248
  pub long : 8 ≤ length m

piece_length-IsLong : (hi lo : ℕ) → hi ≡ 0 → 128 ≤ lo → lo < 248 → piece_length hi lo ≡ none
unfolding piece_length
piece_length-IsLong hi lo e l h = ground arith

message_at-IsLong :
    (before m after : Bytes) → IsLong m → message_at (before ++ (m ++ after)) (length before) ≡ none
unfolding message_at found_at
message_at-IsLong before m after h =
    ap
      (λ b.
        found_at (before ++ (m ++ after)) (length before)
          (piece_length b (byte_at (before ++ (m ++ after)) (length before + 7))))
      (byte_of before m after 6 (omega (arith, h.long)))
    ∙ (ap (λ b. found_at (before ++ (m ++ after)) (length before) (piece_length (byte_at m 6) b))
          (byte_of before m after 7 (omega (arith, h.long)))
        ∙ ap (found_at (before ++ (m ++ after)) (length before))
            (piece_length-IsLong (byte_at m 6) (byte_at m 7) h.high h.low h.low_max))

-- What the first message of a packet becomes.
first_message :
    (headers m : Bytes) (ms : List Bytes) (old : Bytes)
    → length headers ≡ headers_len
    → message_at (overwrite (packet headers (m ∷ ms)) old) headers_len
      ≡ message_at
          (headers ++ (m ++ (joined ms ++ drop (length (packet headers (m ∷ ms))) old)))
          (length headers)
first_message headers m ms old n =
    ap (λ b. message_at b headers_len)
      (overwrite-packet headers (m ∷ ms) old ∙ ap (◌++◌ headers) (append_assoc m (joined ms) _))
    ∙ ap (message_at (headers ++ (m ++ (joined ms ++ drop (length (packet headers (m ∷ ms))) old))))
        (sym n)

send_one-undefined :
    (fd n : ℕ) (w : World Vars)
    → w.vars.cur < n
    → message_at w.vars.buffer w.vars.cur ≡ none
    → send_one fd n w ≡ halts undefined w
unfolding send_one send_found
send_one-undefined fd n w l e = simp (lt→ltb w.vars.cur n l, e)

wanted_packet :
    (headers : Bytes) (ms : List Bytes) (old : Bytes)
    → length headers ≡ headers_len
    → is_wanted headers ≡ true
    → is_wanted (overwrite (packet headers ms) old) ≡ true
wanted_packet headers ms old n wanted =
    ap is_wanted (overwrite-packet headers ms old) ∙ is_wanted-append headers _ n ∙ wanted

pub capture_turn_negative :
    (fd sock : ℕ) (headers m : Bytes) (ms : List Bytes) (rest : List Reply) (w : World Vars)
    → length headers ≡ headers_len
    → is_wanted headers ≡ true
    → IsLong m
    → length (packet headers (m ∷ ms)) ≤ buffer_size
    → w.script ≡ input (packet headers (m ∷ ms)) ∷ rest
    → capture_turn fd sock w ≡ halts undefined (after_receive sock (packet headers (m ∷ ms)) rest w)
unfolding repeat
capture_turn_negative fd sock headers m ms rest w n wanted h fits e =
    let bytes : Bytes = packet headers (m ∷ ms) in
    let u : World Vars = after_receive sock bytes rest w in
    capture_turn-wanted fd sock bytes rest w fits
      (wanted_packet headers (m ∷ ms) w.vars.buffer n wanted) e
    ∙ ap
        (λ r. and_then r (λ more. elim more [
          | true ↦ repeat (length rest) (send_one fd (length bytes))
          | false ↦ pure tt
        ]))
        (send_one-undefined fd (length bytes) u
          (omega (
            arith,
            n,
            h.long,
            length-append headers (joined (m ∷ ms)),
            length-append m (joined ms),
          ))
          (first_message headers m ms w.vars.buffer n ∙ message_at-IsLong headers m _ h))

send_one-blocked :
    (fd n : ℕ) (m : Bytes) (rest : List Reply) (w : World Vars)
    → w.vars.cur < n
    → message_at w.vars.buffer w.vars.cur ≡ some m
    → w.script ≡ failed eagain ∷ rest
    → send_one fd n w
      ≡ returns false (record w { script = rest; trace = (write fd m, failed eagain) ∷ w.trace })
unfolding send_one send_found after_write syscall
send_one-blocked fd n m rest w l f e = simp (lt→ltb w.vars.cur n l, f, e)

-- When the first write of a packet would block, the whole packet is lost: the turn ends with no other
-- write.
pub capture_turn_drops :
    (fd sock : ℕ) (headers m : Bytes) (ms : List Bytes) (rest : List Reply) (w : World Vars)
    → length headers ≡ headers_len
    → is_wanted headers ≡ true
    → IsMessage m
    → length (packet headers (m ∷ ms)) ≤ buffer_size
    → w.script ≡ input (packet headers (m ∷ ms)) ∷ failed eagain ∷ rest
    → (v : World Vars) × (capture_turn fd sock w ≡ returns tt v)
      × (v.script ≡ rest)
      × (v.trace
          ≡ (write fd m, failed eagain)
            ∷ (recvfrom sock buffer_size, input (packet headers (m ∷ ms)))
            ∷ w.trace)
unfolding repeat
capture_turn_drops fd sock headers m ms rest w n wanted h fits e =
    let bytes : Bytes = packet headers (m ∷ ms) in
    let u : World Vars = after_receive sock bytes (failed eagain ∷ rest) w in
    (
      record u { script = rest; trace = (write fd m, failed eagain) ∷ u.trace },
      capture_turn-wanted fd sock bytes (failed eagain ∷ rest) w fits
            (wanted_packet headers (m ∷ ms) w.vars.buffer n wanted) e
          ∙ ap
              (λ r. and_then r (λ more. elim more [
                | true ↦ repeat (suc (length rest)) (send_one fd (length bytes))
                | false ↦ pure tt
              ]))
              (send_one-blocked fd (length bytes) m rest u
                (omega (
                  arith,
                  n,
                  h.long,
                  length-append headers (joined (m ∷ ms)),
                  length-append m (joined ms),
                ))
                (first_message headers m ms w.vars.buffer n ∙ message_at-append headers m _ h)
                refl),
      refl,
      refl,
    )
