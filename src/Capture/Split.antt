-- ===== src/Capture/Split.antt =====
-- tcpdump_my/my_grub.c: the messages of a packet.
use gra_project.Base.{
  take-length, lt→ltb, le→leb, le→ltb, ℕ, zero, suc, ◌+◌, ◌*◌, ◌≤◌, ◌<◌, ◌≡◌, refl, sym, ap, ◌∙◌,
  true, false, some, List, [], ◌∷◌, ◌++◌, append_assoc, arith, All, Bytes, length, drop, get_or,
  take-append, drop-append, length-append,
}
use gra_project.Sys.{
  recvfrom, input, write, Reply, done, Trace, World, returns, pure, and_then, syscall,
}
use gra_project.Sys.Loop.{repeat, loop}
use gra_project.Wire.{overwrite}
use gra_project.Capture.{
  capture_turn, store_packet, is_wanted, Vars, found_at, buffer_size, headers_len, byte_at,
  piece_length, message_at, advance, after_write, send_found, send_one, send_messages,
}

-- A SOME/IP message: its length field counts what follows it, and neither byte of the field has its
-- highest bit set.
pub record IsMessage (m : Bytes) : Type 0 where
  pub high : get_or m 6 0 < 128
  pub low : get_or m 7 0 < 128
  pub long : 8 ≤ length m
  pub counted : length m ≡ 8 + 256 * get_or m 6 0 + get_or m 7 0

get_or-append :
    (before rest : Bytes) (i : ℕ) → get_or (before ++ rest) (length before + i) 0 ≡ get_or rest i 0
get_or-append [] rest i =
    let e : length {A = ℕ} [] + i ≡ i = omega arith in ap (λ n. get_or rest n 0) e
get_or-append (x ∷ before) rest i =
    let e : length (x ∷ before) + i ≡ suc (length before + i) = omega arith in
    ap (λ n. get_or (x ∷ (before ++ rest)) n 0) e ∙ get_or-append before rest i

get_or-front : (m after : Bytes) (i : ℕ) → i < length m → get_or (m ++ after) i 0 ≡ get_or m i 0
get_or-front [] after i h = absurd (omega arith)
get_or-front (x ∷ m) after zero h = refl
get_or-front (x ∷ m) after (suc i) h = get_or-front m after i (omega arith)

pub byte_of :
    (before m after : Bytes) (i : ℕ)
    → i < length m
    → byte_at (before ++ (m ++ after)) (length before + i) ≡ byte_at m i
byte_of before m after i h = get_or-append before (m ++ after) i ∙ get_or-front m after i h

piece_length-small :
    (hi lo : ℕ) → hi < 128 → lo < 128 → piece_length hi lo ≡ some (8 + 256 * hi + lo)
unfolding piece_length
piece_length-small hi lo h l = ground arith

found_at-append :
    (before m after : Bytes)
    → 8 ≤ length m
    → found_at (before ++ (m ++ after)) (length before) (some (length m)) ≡ some m
unfolding found_at
found_at-append before m after h = simp (
  le→leb (length before + length m) (length (before ++ (m ++ after)))
      (omega (arith, length-append before (m ++ after), length-append m after)),
  lt→ltb (length before + 7) (length (before ++ (m ++ after)))
      (omega (arith, length-append before (m ++ after), length-append m after)),
  drop-append before (m ++ after) (length before) refl,
  take-append m after (length m) refl,
)

pub message_at-append :
    (before m after : Bytes)
    → IsMessage m
    → message_at (before ++ (m ++ after)) (length before) ≡ some m
unfolding message_at
message_at-append before m after h =
    ap
      (λ b.
        found_at (before ++ (m ++ after)) (length before)
          (piece_length b (byte_at (before ++ (m ++ after)) (length before + 7))))
      (byte_of before m after 6 (omega (arith, h.long)))
    ∙ (ap (λ b. found_at (before ++ (m ++ after)) (length before) (piece_length (byte_at m 6) b))
          (byte_of before m after 7 (omega (arith, h.long)))
        ∙ (ap (found_at (before ++ (m ++ after)) (length before)) (
              piece_length-small (byte_at m 6) (byte_at m 7) h.high h.low ∙ ap some (sym h.counted))
            ∙ found_at-append before m after h.long))

abbrev pub joined : List Bytes → Bytes
joined [] = []
joined (m ∷ ms) = m ++ joined ms

-- The writes that send messages whole, newest first.
abbrev pub writes : ℕ → List Bytes → Trace
writes fd [] = []
writes fd (m ∷ ms) = writes fd ms ++ ((write fd m, done (length m)) ∷ [])

abbrev pub taken : List Bytes → List Reply → List Reply
taken [] rest = rest
taken (m ∷ ms) rest = done (length m) ∷ taken ms rest

abbrev after_one : ℕ → Bytes → List Reply → World Vars → World Vars
after_one fd m rest w = record {
  vars = record w.vars { cur = w.vars.cur + length m };
  script = rest;
  trace = (write fd m, done (length m)) ∷ w.trace;
}

send_one_lem :
    (fd n : ℕ) (m : Bytes) (rest : List Reply) (w : World Vars)
    → w.vars.cur < n
    → message_at w.vars.buffer w.vars.cur ≡ some m
    → w.script ≡ done (length m) ∷ rest
    → send_one fd n w ≡ returns true (after_one fd m rest w)
unfolding send_one send_found after_write advance syscall
send_one_lem fd n m rest w l f e = simp (lt→ltb w.vars.cur n l, f, e)

send_one_end : (fd n : ℕ) (w : World Vars) → n ≤ w.vars.cur → send_one fd n w ≡ returns false w
unfolding send_one
send_one_end fd n w h = simp (le→ltb w.vars.cur n h)

message_here :
    (before m rest : Bytes) (s : Vars)
    → IsMessage m
    → s.buffer ≡ before ++ (m ++ rest)
    → s.cur ≡ length before
    → message_at s.buffer s.cur ≡ some m
message_here before m rest s h b c =
    ap (λ x. message_at x s.cur) b
    ∙ (ap (message_at (before ++ (m ++ rest))) c ∙ message_at-append before m rest h)

repeat-send_one :
    (fd n fuel : ℕ) (before : Bytes) (ms : List Bytes) (after : Bytes) (rest : List Reply)
    (w : World Vars)
    → n ≡ length before + length (joined ms)
    → length ms < fuel
    → All IsMessage ms
    → w.vars.buffer ≡ before ++ (joined ms ++ after)
    → w.vars.cur ≡ length before
    → w.script ≡ taken ms rest
    → (v : World Vars) × (repeat fuel (send_one fd n) w ≡ returns tt v)
      × (v.script ≡ rest)
      × (v.trace ≡ writes fd ms ++ w.trace)
      × (v.vars.buffer ≡ w.vars.buffer)
unfolding repeat
repeat-send_one fd n zero before ms after rest w l f h b c e = absurd (omega arith)
repeat-send_one fd n (suc fuel) before [] after rest w l f h b c e = (
  w,
  ap (λ r. and_then r (λ more. elim more [ true ↦ repeat fuel (send_one fd n) | false ↦ pure tt ]))
      (send_one_end fd n w (omega arith)),
  e,
  refl,
  refl,
)
repeat-send_one fd n (suc fuel) before (m ∷ ms) after rest w l f h b c e =
    let bytes : w.vars.buffer ≡ before ++ (m ++ (joined ms ++ after)) =
      b ∙ ap (λ x. before ++ x) (append_assoc m (joined ms) after) in
    let here : length before < n = omega (arith, l, h.0.long, length-append m (joined ms)) in
    let u : World Vars = after_one fd m (taken ms rest) w in
    let (v, run, script, trace, buffer) =
      repeat-send_one fd n fuel (before ++ m) ms after rest u
        (omega (arith, l, length-append before m, length-append m (joined ms))) (omega (arith, f))
        h.1 (bytes ∙ sym (append_assoc before m (joined ms ++ after)))
        (omega (arith, c, length-append before m)) refl in
    (
      v,
      ap
            (λ r.
              and_then r
                (λ more. elim more [ true ↦ repeat fuel (send_one fd n) | false ↦ pure tt ]))
            (send_one_lem fd n m (taken ms rest) w (omega (arith, here, c))
              (message_here before m _ w.vars h.0 bytes c) e)
          ∙ run,
      script,
      trace ∙ sym (append_assoc (writes fd ms) ((write fd m, done (length m)) ∷ []) w.trace),
      buffer,
    )

length-taken : (ms : List Bytes) (rest : List Reply) → length ms ≤ length (taken ms rest)
length-taken [] rest = omega arith
length-taken (m ∷ ms) rest = omega (arith, length-taken ms rest)

-- The packet: headers that pass the tests, and the messages.
abbrev pub packet : Bytes → List Bytes → Bytes
packet headers ms = headers ++ joined ms

pub overwrite-packet :
    (headers : Bytes) (ms : List Bytes) (old : Bytes)
    → overwrite (packet headers ms) old
      ≡ headers ++ (joined ms ++ drop (length (packet headers ms)) old)
unfolding overwrite
overwrite-packet headers ms old =
    append_assoc headers (joined ms) (drop (length (packet headers ms)) old)

-- The tests look at the headers only.
pub is_wanted-append :
    (headers rest : Bytes)
    → length headers ≡ headers_len
    → is_wanted (headers ++ rest) ≡ is_wanted headers
unfolding is_wanted
is_wanted-append headers rest n =
    rw
      (
        get_or-front headers rest 26 (omega (arith, n)),
        get_or-front headers rest 14 (omega (arith, n)),
        get_or-front headers rest 46 (omega (arith, n)),
        get_or-front headers rest 16 (omega (arith, n)),
        get_or-front headers rest 17 (omega (arith, n)),
        get_or-front headers rest 36 (omega (arith, n)),
        get_or-front headers rest 37 (omega (arith, n)),
      )
      refl

-- The world after a packet of `bytes` has been received.
abbrev pub after_receive : ℕ → Bytes → List Reply → World Vars → World Vars
after_receive sock bytes rest w = record {
  vars = record { buffer = overwrite bytes w.vars.buffer; cur = headers_len };
  script = rest;
  trace = (recvfrom sock buffer_size, input bytes) ∷ w.trace;
}

pub capture_turn-wanted :
    (fd sock : ℕ) (bytes : Bytes) (rest : List Reply) (w : World Vars)
    → length bytes ≤ buffer_size
    → is_wanted (overwrite bytes w.vars.buffer) ≡ true
    → w.script ≡ input bytes ∷ rest
    → capture_turn fd sock w
      ≡ repeat (suc (length rest)) (send_one fd (length bytes)) (after_receive sock bytes rest w)
unfolding capture_turn store_packet send_messages loop syscall
capture_turn-wanted fd sock bytes rest w fits wanted e =
    simp (e, take-length bytes 2048 fits, wanted)

-- A packet whose headers are wanted, and that holds whole messages and nothing else, with length
-- fields whose bytes are below 128, is split into just these messages: each is written to the
-- distributor, in their order, when each write takes its message whole, whatever the buffer held.
pub capture_turn_splits :
    (fd sock : ℕ) (headers : Bytes) (ms : List Bytes) (rest : List Reply) (w : World Vars)
    → length headers ≡ headers_len
    → is_wanted headers ≡ true
    → All IsMessage ms
    → length (packet headers ms) ≤ buffer_size
    → w.script ≡ input (packet headers ms) ∷ taken ms rest
    → (v : World Vars) × (capture_turn fd sock w ≡ returns tt v)
      × (v.script ≡ rest)
      × (v.trace
          ≡ writes fd ms ++ ((recvfrom sock buffer_size, input (packet headers ms)) ∷ w.trace))
capture_turn_splits fd sock headers ms rest w n wanted h fits e =
    let bytes : Bytes = packet headers ms in
    let whole : overwrite bytes w.vars.buffer
        ≡ headers ++ (joined ms ++ drop (length bytes) w.vars.buffer) =
      overwrite-packet headers ms w.vars.buffer in
    let (v, run, script, trace, buffer) =
      repeat-send_one fd (length bytes) (suc (length (taken ms rest))) headers ms
        (drop (length bytes) w.vars.buffer) rest (after_receive sock bytes (taken ms rest) w)
        (length-append headers (joined ms)) (omega (arith, length-taken ms rest)) h whole (sym n)
        refl in
    (
      v,
      capture_turn-wanted fd sock bytes (taken ms rest) w fits
            (ap is_wanted whole ∙ is_wanted-append headers _ n ∙ wanted) e
          ∙ run,
      script,
      trace,
    )
