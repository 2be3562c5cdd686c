-- ===== src/Procmon/Devices.antt =====
-- servers/pm.h: the time of the disks, as `IoData::parse` adds it up.
use gra_project.Base.{ℕ, zero, suc, ◌≡◌, refl, ap, ◌∙◌, true, false, some, Bytes, []}
use gra_project.Procmon.{
  IoState, Parsed, parsed, read_device, read_fields, io_turn, io_loop, add_tenth, add_long,
  last_char, and_parsed,
}
use gra_project.Streams.{skip_blanks, read_long, read_word, is_digit}

-- The state when only blanks are left, as after the last device of a text that ends with a newline.
abbrev pub at_blanks : Bytes → Bytes → ℕ → ℕ → IoState
at_blanks blanks name t io_run = record {
  stream = record { rest = blanks; fail = false; eof = false };
  name = name;
  tmp = some t;
  io_run = io_run;
}

-- The state once the stream has ended in a failure.
abbrev pub at_end : Bytes → ℕ → ℕ → IoState
at_end name t io_run = record {
  stream = record { rest = []; fail = true; eof = true };
  name = name;
  tmp = some t;
  io_run = io_run;
}

pub read_fields-at_end :
    (n : ℕ) (name : Bytes) (t io_run : ℕ)
    → read_fields n (at_end name t io_run) ≡ at_end name t io_run
unfolding read_fields read_long
read_fields-at_end zero name t io_run = refl
read_fields-at_end (suc n) name t io_run = read_fields-at_end n name t io_run

pub read_device-at_blanks :
    (blanks name : Bytes) (t io_run : ℕ)
    → skip_blanks blanks ≡ []
    → read_device (at_blanks blanks name t io_run) ≡ at_end name t io_run
unfolding read_device read_long read_word
read_device-at_blanks blanks name t io_run b = simp b

add_tenth-at_end :
    (name : Bytes) (t io_run c : ℕ)
    → last_char name ≡ some c
    → is_digit c ≡ false
    → add_tenth (last_char name) (at_end name t io_run) ≡ parsed (at_end name t (add_long io_run t))
unfolding add_tenth
add_tenth-at_end name t io_run c l d = simp (l, d)

io_turn-at_blanks :
    (blanks name : Bytes) (t io_run c : ℕ)
    → skip_blanks blanks ≡ []
    → last_char name ≡ some c
    → is_digit c ≡ false
    → io_turn (at_blanks blanks name t io_run) ≡ parsed (at_end name t (add_long io_run t))
unfolding io_turn
io_turn-at_blanks blanks name t io_run c b l d =
    ap after_device (
      ap (read_fields 10) (read_device-at_blanks blanks name t io_run b)
      ∙ read_fields-at_end 10 name t io_run)
    ∙ (ap after_tenth (add_tenth-at_end name t io_run c l d)
        ∙ ap parsed (read_fields-at_end 7 name t (add_long io_run t)))
  where
    after_tenth : Parsed → Parsed
    after_tenth r = and_parsed r (λ u. parsed (read_fields 7 u))

    after_device : IoState → Parsed
    after_device u = after_tenth (add_tenth (last_char u.name) u)

-- When only blanks are left of the text behind a device whose name does not end with a digit, the
-- loop takes one turn more, which reads nothing and adds the last field of that device to the sum.
pub io_loop_stale :
    (blanks name : Bytes) (t io_run c fuel : ℕ)
    → skip_blanks blanks ≡ []
    → last_char name ≡ some c
    → is_digit c ≡ false
    → io_loop (suc (suc fuel)) (at_blanks blanks name t io_run)
      ≡ parsed (at_end name t (add_long io_run t))
unfolding io_loop
io_loop_stale blanks name t io_run c fuel b l d =
    ap (λ r. and_parsed r (io_loop (suc fuel))) (io_turn-at_blanks blanks name t io_run c b l d)
