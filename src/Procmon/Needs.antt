-- ===== src/Procmon/Needs.antt =====
-- servers/pm.h: what is left to read after the reads of `IoData::parse`, and so how many turns of its loop
-- are needed.
use gra_project.Base.{
  ℕ, zero, suc, ◌+◌, ◌≡◌, ◌≤◌, Bool, true, false, Option, none, some, [], ◌∷◌, Bytes, length, arith,
  ltb, leb, ◌==◌, ◌^◌, ◌-◌, ◌*◌, if◌then◌else◌, Bool-cases, inl, inr,
}
use gra_project.Procmon.{
  IoState, Parsed, parsed, unset, never, read_device, read_fields, io_turn, add_tenth, add_long,
  last_char, and_parsed,
}
use gra_project.Streams.{
  Stream, Found, is_blank, is_digit, skip_blanks, word, number, behind, take_word, take_number,
  store_positive, store_negative, read_number, read_word, read_long,
}

-- The turns that a stream is good for: none at its end, one after a failure, else one more than the
-- characters that are left.
abbrev pub need : Stream → ℕ
need s = if s.eof then 0 else if s.fail then 1 else suc (length s.rest)

length-skip_blanks : (cs : Bytes) → length (skip_blanks cs) ≤ length cs
unfolding skip_blanks
length-skip_blanks [] = omega arith
length-skip_blanks (c ∷ cs) = elim (Bool-cases (is_blank c)) [
  | inl e ↦ rw e (omega (arith, length-skip_blanks cs))
  | inr e ↦ rw e (omega arith)
]

length-word : (cs : Bytes) → length (word cs).1 ≤ length cs
unfolding word
length-word [] = omega arith
length-word (c ∷ cs) = elim (Bool-cases (is_blank c)) [
  | inl e ↦ rw e (omega arith)
  | inr e ↦ rw e (omega (arith, length-word cs))
]

-- Every digit is a character.
length-number : (n : ℕ) (cs : Bytes) → (number n cs).1 + length (number n cs).2 ≡ length cs
unfolding number
length-number n [] = omega arith
length-number n (c ∷ cs) = elim (Bool-cases (is_digit c)) [
  | inl e ↦ rw e (omega (arith, length-number (10 * n + (c - b'0')) cs))
  | inr e ↦ rw e (omega arith)
]

-- A failure that is not the end has characters left, and a number that is there takes some.
need-failed : (rest : Bytes) → need (behind true rest) ≤ length rest
need-failed [] = omega arith
need-failed (c ∷ cs) = omega arith

need-good : (rest : Bytes) → need (behind false rest) ≤ suc (length rest)
need-good [] = omega arith
need-good (c ∷ cs) = omega arith

need-store_positive : (w k : ℕ) (f : Found) → f.1 + length f.2 ≤ k → need (store_positive w f).0 ≤ k
unfolding store_positive
need-store_positive w k (n, zero, rest) h = omega (arith, h, need-failed rest)
need-store_positive w k (n, suc j, rest) h = elim (Bool-cases (ltb n (2 ^ (w - 1)))) [
  | inl e ↦ rw e (omega (arith, h, need-good rest))
  | inr e ↦ rw e (omega (arith, h, need-failed rest))
]

need-store_negative : (w k : ℕ) (f : Found) → f.1 + length f.2 ≤ k → need (store_negative w f).0 ≤ k
unfolding store_negative
need-store_negative w k (n, zero, rest) h = omega (arith, h, need-failed rest)
need-store_negative w k (n, suc j, rest) h = elim (Bool-cases (leb n (2 ^ (w - 1)))) [
  | inl e ↦ rw e (omega (arith, h, need-good rest))
  | inr e ↦ rw e (omega (arith, h, need-failed rest))
]

need-take_number : (w : ℕ) (cs : Bytes) (old : Option ℕ) → need (take_number w cs old).0 ≤ length cs
unfolding take_number
need-take_number w [] old = omega arith
need-take_number w (c ∷ cs) old = elim (Bool-cases (c == b'-')) [
  | inl e ↦
      rw e
        (need-store_negative w (suc (length cs)) (number 0 cs) (omega (arith, length-number 0 cs)))
  | inr e ↦ rw e (elim (Bool-cases (c == b'+')) [
    | inl e' ↦
        rw e' (
          need-store_positive w (suc (length cs)) (number 0 cs) (omega (arith, length-number 0 cs)))
    | inr e' ↦ rw e' (
        need-store_positive w (suc (length cs)) (number 0 (c ∷ cs))
          (omega (arith, length-number 0 (c ∷ cs))))
  ])
]

-- From a good stream, a number takes one turn off what is needed.
need-read_first :
    (rest : Bytes) (old : Option ℕ)
    → need (read_long (record { rest = rest; fail = false; eof = false }) old).0 ≤ length rest
unfolding read_long read_number
need-read_first rest old =
    omega (arith, need-take_number 64 (skip_blanks rest) old, length-skip_blanks rest)

-- A read from a stream with these flags.
abbrev pub flagged : Bytes → Bool → Bool → Stream
flagged rest fail eof = record { rest = rest; fail = fail; eof = eof }

need-read_long :
    (rest : Bytes) (fail eof : Bool) (old : Option ℕ)
    → need (read_long (flagged rest fail eof) old).0 ≤ need (flagged rest fail eof)
unfolding read_long read_number
need-read_long rest true true old = omega arith
need-read_long rest true false old = omega arith
need-read_long rest false true old = omega arith
need-read_long rest false false old = omega (arith, need-read_first rest old)

need-take_word : (cs old : Bytes) → need (take_word cs old).0 ≤ suc (length cs)
need-take_word [] old = omega arith
need-take_word (c ∷ cs) old = omega (arith, need-good (word (c ∷ cs)).1, length-word (c ∷ cs))

need-read_word :
    (rest : Bytes) (fail eof : Bool) (old : Bytes)
    → need (read_word (flagged rest fail eof) old).0 ≤ need (flagged rest fail eof)
unfolding read_word
need-read_word rest true true old = omega arith
need-read_word rest true false old = omega arith
need-read_word rest false true old = omega arith
need-read_word rest false false old =
    omega (arith, need-take_word (skip_blanks rest) old, length-skip_blanks rest)

need-read_fields : (n : ℕ) (s : IoState) → need (read_fields n s).stream ≤ need s.stream
unfolding read_fields
need-read_fields zero s = omega arith
need-read_fields (suc n) s =
    let r = read_long s.stream s.tmp in
    omega (
      arith,
      need-read_long s.stream.rest s.stream.fail s.stream.eof s.tmp,
      need-read_fields n (record s { stream = r.0; tmp = r.1 }),
    )

-- The state with a stream that is good.
abbrev pub at_good : Bytes → Bytes → Option ℕ → ℕ → IoState
at_good rest name tmp io_run = record {
  stream = flagged rest false false;
  name = name;
  tmp = tmp;
  io_run = io_run;
}

need-read_device :
    (rest name : Bytes) (tmp : Option ℕ) (io_run : ℕ)
    → need (read_device (at_good rest name tmp io_run)).stream ≤ length rest
unfolding read_device
need-read_device rest name tmp io_run =
    let p1 = read_long (flagged rest false false) none in
    let p2 = read_long p1.0 none in
    omega (
      arith,
      need-read_first rest none,
      need-read_long p1.0.rest p1.0.fail p1.0.eof none,
      need-read_word p2.0.rest p2.0.fail p2.0.eof name,
    )

-- A state that is reached needs at most `k` turns.
abbrev pub Leaves : ℕ → Parsed → Type 0
Leaves k (parsed t) = need t.stream ≤ k
Leaves k unset = Unit
Leaves k never = Unit

Leaves-add_tenth :
    (k : ℕ) (c : Option ℕ) (s : IoState) → need s.stream ≤ k → Leaves k (add_tenth c s)
unfolding add_tenth
Leaves-add_tenth k none s h = tt
Leaves-add_tenth k (some c) s h = elim (Bool-cases (is_digit c)) [
  | inl e ↦ rw e h
  | inr e ↦ rw e (added s.tmp)
]
  where
    added :
        (t : Option ℕ)
        → Leaves k
            (elim t [ none ↦ unset | some n ↦ parsed (record s { io_run = add_long s.io_run n }) ])
    added none = tt
    added (some n) = h

Leaves-and_parsed :
    (k : ℕ) (p : Parsed) (f : IoState → IoState)
    → Leaves k p
    → ((t : IoState) → need (f t).stream ≤ need t.stream)
    → Leaves k (and_parsed p (λ t. parsed (f t)))
Leaves-and_parsed k (parsed t) f h g = omega (arith, h, g t)
Leaves-and_parsed k unset f h g = tt
Leaves-and_parsed k never f h g = tt

pub Leaves-io_turn :
    (rest name : Bytes) (tmp : Option ℕ) (io_run : ℕ)
    → Leaves (length rest) (io_turn (at_good rest name tmp io_run))
unfolding io_turn
Leaves-io_turn rest name tmp io_run =
    let t = read_fields 10 (read_device (at_good rest name tmp io_run)) in
    Leaves-and_parsed (length rest) (add_tenth (last_char t.name) t) (read_fields 7)
      (Leaves-add_tenth (length rest) (last_char t.name) t (
        omega (
          arith,
          need-read_fields 10 (read_device (at_good rest name tmp io_run)),
          need-read_device rest name tmp io_run,
        )))
      (need-read_fields 7)
