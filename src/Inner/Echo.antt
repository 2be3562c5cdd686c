-- ===== src/Inner/Echo.antt =====
-- What the inner server does with a message, whole or in pieces.
use gra_project.Base.{
  ℕ, ◌<◌, ◌≡◌, refl, sym, ap, ◌∙◌, List, [], ◌∷◌, ◌++◌, arith, length, length-append, take-length,
  replicate, Bytes, ne→==,
}
use gra_project.Sys.{
  Call, open_file, read, write, close, Reply, input, result, bits, text, World, returns, and_then,
  ◌>>◌, syscall,
}
use gra_project.Wire.{mess_len, overwrite, overwrite_whole}
use gra_project.Inner.{Vars, work_turn}

-- The calls of `do_something`, newest first, given the replies to them.
abbrev pub work_calls : Reply → Reply → Reply → List (Call × Reply)
work_calls opened written closed =
    (close (bits (result opened)), closed)
    ∷ (write (bits (result opened)) (b'a' ∷ replicate 99 0), written)
    ∷ (open_file (text "do_something"), opened)
    ∷ []

-- A whole message is worked on and sent back as it came, whatever the work's calls reply.
pub work_turn_echoes :
    (fd : ℕ) (m : Bytes) (opened written closed sent : Reply) (rest : List Reply) (w : World Vars)
    → length m ≡ mess_len
    → length w.vars.mess ≡ mess_len
    → w.script ≡ input m ∷ opened ∷ written ∷ closed ∷ sent ∷ rest
    → work_turn fd w
      ≡ returns tt (record w {
        vars = record w.vars { mess = m };
        script = rest;
        trace =
            (write fd m, sent)
            ∷ (work_calls opened written closed ++ ((read fd mess_len, input m) ∷ w.trace));
      })
unfolding work_turn syscall
work_turn_echoes fd m opened written closed sent rest w n k e =
    simp (e, take-length m 20 (omega arith), n, overwrite_whole m w.vars.mess (n ∙ sym k)) refl

-- A piece of a message, neither empty nor whole, is dropped: nothing is written.
work_turn-piece :
    (fd : ℕ) (m : Bytes) (rest : List Reply) (w : World Vars)
    → 0 < length m
    → length m < mess_len
    → w.script ≡ input m ∷ rest
    → work_turn fd w
      ≡ returns tt (record w {
        vars = record w.vars { mess = overwrite m w.vars.mess };
        script = rest;
        trace = (read fd mess_len, input m) ∷ w.trace;
      })
unfolding work_turn syscall
work_turn-piece fd m rest w p q e = simp (
  e,
  take-length m 20 (omega arith),
  ne→== (length m) 0 (omega arith),
  ne→== (length m) 20 (omega arith),
)

-- A message that arrives in two pieces is never answered: each piece is read by a turn of its own,
-- which writes nothing, and the next message is read behind them.
pub split_message_unanswered :
    (fd : ℕ) (head tail : Bytes) (rest : List Reply) (w : World Vars)
    → 0 < length head
    → 0 < length tail
    → length (head ++ tail) ≡ mess_len
    → w.script ≡ input head ∷ input tail ∷ rest
    → (v : World Vars) × ((work_turn fd >> work_turn fd) w ≡ returns tt v)
      × (v.script ≡ rest)
      × (v.trace ≡ (read fd mess_len, input tail) ∷ (read fd mess_len, input head) ∷ w.trace)
split_message_unanswered fd head tail rest w p q n e =
    let first =
      work_turn-piece fd head (input tail ∷ rest) w p (omega (arith, length-append head tail)) e in
    let v : World Vars = record w {
      vars = record w.vars { mess = overwrite head w.vars.mess };
      script = input tail ∷ rest;
      trace = (read fd mess_len, input head) ∷ w.trace;
    } in
    let second = work_turn-piece fd tail rest v q (omega (arith, length-append head tail)) refl in
    (
      record v {
        vars = record v.vars { mess = overwrite tail v.vars.mess };
        script = rest;
        trace = (read fd mess_len, input tail) ∷ v.trace;
      },
      ap (λ r. and_then r (λ _. work_turn fd)) first ∙ second,
      refl,
      refl,
    )
