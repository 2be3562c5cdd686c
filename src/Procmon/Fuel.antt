-- ===== src/Procmon/Fuel.antt =====
-- servers/pm.h: the loop of `IoData::parse` has enough turns.
use gra_project.Base.{
  ℕ, zero, suc, ◌≡◌, ◌≤◌, ◌<◌, ◌⊎◌, refl, sym, ap, ◌∙◌, Bool, true, false, Option, none, some, [],
  Bytes, length, arith, Bool-cases, inl, inr,
}
use gra_project.Procmon.{
  IoState, Parsed, parsed, unset, never, read_device, read_fields, io_turn, io_loop, parse_io,
  add_tenth, add_long, last_char, and_parsed,
}
use gra_project.Streams.{stream_of, is_digit, read_number, read_word, read_long}
use gra_project.Procmon.Needs.{need, flagged, at_good, Leaves, Leaves-io_turn}

-- The state with a stream that has failed before its end.
abbrev at_failure : Bytes → Bytes → Option ℕ → ℕ → IoState
at_failure rest name tmp io_run = record {
  stream = flagged rest true false;
  name = name;
  tmp = tmp;
  io_run = io_run;
}

read_fields-at_failure :
    (n : ℕ) (rest name : Bytes) (tmp : Option ℕ) (io_run : ℕ)
    → read_fields n (at_failure rest name tmp io_run) ≡ at_failure rest name tmp io_run
unfolding read_fields read_long read_number
read_fields-at_failure zero rest name tmp io_run = refl
read_fields-at_failure (suc n) rest name tmp io_run = read_fields-at_failure n rest name tmp io_run

-- After a failure every turn does the same: none has a number to add, or all go on.
abbrev Repeats : Bytes → Bytes → Option ℕ → Type 0
Repeats rest name tmp =
    ((io_run : ℕ) → io_turn (at_failure rest name tmp io_run) ≡ unset)
    ⊎ ((io_run : ℕ)
        → (sum : ℕ) × (io_turn (at_failure rest name tmp io_run)
            ≡ parsed (at_failure rest name tmp sum)))

io_turn-at_failure :
    (rest name : Bytes) (tmp : Option ℕ) (io_run : ℕ)
    → io_turn (at_failure rest name tmp io_run)
      ≡ and_parsed
          (add_tenth (last_char name) (at_failure rest name tmp io_run))
          (λ u. parsed (read_fields 7 u))
unfolding io_turn read_device read_long read_number read_word
io_turn-at_failure rest name tmp io_run =
    ap (λ t. and_parsed (add_tenth (last_char t.name) t) (λ u. parsed (read_fields 7 u)))
      (read_fields-at_failure 10 rest name tmp io_run)

repeats : (rest name : Bytes) (tmp : Option ℕ) → Repeats rest name tmp
unfolding add_tenth
repeats rest name tmp = by_last (last_char name) refl
  where
    goes_on :
        (io_run sum : ℕ)
        → add_tenth (last_char name) (at_failure rest name tmp io_run)
          ≡ parsed (at_failure rest name tmp sum)
        → io_turn (at_failure rest name tmp io_run) ≡ parsed (at_failure rest name tmp sum)
    goes_on io_run sum e =
        io_turn-at_failure rest name tmp io_run
        ∙ ap (λ p. and_parsed p (λ u. parsed (read_fields 7 u))) e
        ∙ ap parsed (read_fields-at_failure 7 rest name tmp sum)

    stops :
        (io_run : ℕ)
        → add_tenth (last_char name) (at_failure rest name tmp io_run) ≡ unset
        → io_turn (at_failure rest name tmp io_run) ≡ unset
    stops io_run e =
        io_turn-at_failure rest name tmp io_run
        ∙ ap (λ p. and_parsed p (λ u. parsed (read_fields 7 u))) e

    by_tmp :
        (t : Option ℕ) (c : ℕ)
        → tmp ≡ t
        → last_char name ≡ some c
        → is_digit c ≡ false
        → Repeats rest name tmp
    by_tmp none c d l n = inl (λ io_run. stops io_run (simp (l, n, d)))
    by_tmp (some t) c d l n = inr (λ io_run. (add_long io_run t, goes_on io_run _ (simp (l, n, d))))

    by_last : (c : Option ℕ) → last_char name ≡ c → Repeats rest name tmp
    by_last none l = inl (λ io_run. stops io_run (simp l))
    by_last (some c) l = elim (Bool-cases (is_digit c)) [
      | inl e ↦ inr (λ io_run. (io_run, goes_on io_run io_run (simp (l, e))))
      | inr e ↦ by_tmp tmp c refl l e
    ]

io_loop-never :
    (fuel : ℕ) (rest name : Bytes) (tmp : Option ℕ) (io_run : ℕ)
    → ((io_run : ℕ)
        → (sum : ℕ) × (io_turn (at_failure rest name tmp io_run)
            ≡ parsed (at_failure rest name tmp sum)))
    → io_loop fuel (at_failure rest name tmp io_run) ≡ never
unfolding io_loop
io_loop-never zero rest name tmp io_run h = refl
io_loop-never (suc fuel) rest name tmp io_run h =
    ap (λ p. and_parsed p (io_loop fuel)) (h io_run).1
    ∙ io_loop-never fuel rest name tmp (h io_run).0 h

io_loop-at_failure :
    (m n : ℕ) (rest name : Bytes) (tmp : Option ℕ) (io_run : ℕ)
    → io_loop (suc m) (at_failure rest name tmp io_run)
      ≡ io_loop (suc n) (at_failure rest name tmp io_run)
unfolding io_loop
io_loop-at_failure m n rest name tmp io_run = elim (repeats rest name tmp) [
  | inl stop ↦
      ap (λ p. and_parsed p (io_loop m)) (stop io_run)
      ∙ sym (ap (λ p. and_parsed p (io_loop n)) (stop io_run))
  | inr go ↦
      io_loop-never (suc m) rest name tmp io_run go
      ∙ sym (io_loop-never (suc n) rest name tmp io_run go)
]

io_loop-at_eof :
    (fuel : ℕ) (rest : Bytes) (fail : Bool) (name : Bytes) (tmp : Option ℕ) (io_run : ℕ)
    → let s : IoState = record {
      stream = flagged rest fail true;
      name = name;
      tmp = tmp;
      io_run = io_run;
    } in
      io_loop fuel s ≡ parsed s
unfolding io_loop
io_loop-at_eof zero rest fail name tmp io_run = refl
io_loop-at_eof (suc fuel) rest fail name tmp io_run = refl

and_parsed-agree :
    (k : ℕ) (p : Parsed) (f g : IoState → Parsed)
    → Leaves k p
    → ((t : IoState) → need t.stream ≤ k → f t ≡ g t)
    → and_parsed p f ≡ and_parsed p g
and_parsed-agree k (parsed t) f g h e = e t h
and_parsed-agree k unset f g h e = refl
and_parsed-agree k never f g h e = refl

-- Fuel beyond what is needed changes nothing.
io_loop-enough :
    (m n : ℕ) (rest : Bytes) (fail eof : Bool) (name : Bytes) (tmp : Option ℕ) (io_run : ℕ)
    → need (flagged rest fail eof) ≤ m
    → need (flagged rest fail eof) ≤ n
    → let s : IoState = record {
      stream = flagged rest fail eof;
      name = name;
      tmp = tmp;
      io_run = io_run;
    } in
      io_loop m s ≡ io_loop n s
unfolding io_loop
io_loop-enough m n rest fail true name tmp io_run h k =
    io_loop-at_eof m rest fail name tmp io_run ∙ sym (io_loop-at_eof n rest fail name tmp io_run)
io_loop-enough (suc m) (suc n) rest true false name tmp io_run h k =
    io_loop-at_failure m n rest name tmp io_run
io_loop-enough (suc m) (suc n) rest false false name tmp io_run h k =
    and_parsed-agree (length rest) (io_turn (at_good rest name tmp io_run)) (io_loop m) (io_loop n)
      (Leaves-io_turn rest name tmp io_run)
      (λ t l.
        io_loop-enough m n t.stream.rest t.stream.fail t.stream.eof t.name t.tmp t.io_run
          (omega (arith, h, l)) (omega (arith, k, l)))
io_loop-enough zero n rest true false name tmp io_run h k = absurd (omega (arith, h))
io_loop-enough zero n rest false false name tmp io_run h k = absurd (omega (arith, h))
io_loop-enough (suc m) zero rest true false name tmp io_run h k = absurd (omega (arith, k))
io_loop-enough (suc m) zero rest false false name tmp io_run h k = absurd (omega (arith, k))

pub parse_io_enough :
    (text : Bytes) (turns : ℕ)
    → length text < turns
    → io_loop turns (record { stream = stream_of text; name = []; tmp = none; io_run = 0 })
      ≡ parse_io text
unfolding parse_io
parse_io_enough text turns h =
    io_loop-enough turns (suc (length text)) text false false [] none 0 (omega (arith, h))
      (omega arith)
