-- ===== src/Streams/Texts.antt =====
-- Numbers and words as the kernel prints them into the files of /proc, and what `>>` reads of them.
use native.Mathlib.Nat.{pow-suc}
use gra_project.Base.{
  ℕ, zero, suc, ◌+◌, ◌-◌, ◌*◌, ◌/◌, ◌%◌, ◌^◌, ◌≡◌, ◌<◌, refl, ap, ◌∙◌, Bool, true, false, some,
  Option, [], ◌∷◌, ◌++◌, Bytes, All, ltb, ◌==◌, arith, lt→ltb, Bool-cases, inl, inr,
}
use gra_project.Streams.{
  Stream, is_digit, is_blank, skip_blanks, word, number, behind, is_empty, take_number,
  store_positive, read_number, read_long, read_word, take_word, decimal, Found,
}

-- A text that begins with a digit.
data BeginsDigit : Bytes → Type 0 where
  digit : (c : ℕ) (cs : Bytes) → is_digit c ≡ true → BeginsDigit (c ∷ cs)

decimal-BeginsDigit :
    (fuel n : ℕ) (rest : Bytes) → BeginsDigit rest → BeginsDigit (decimal fuel n rest)
unfolding decimal
decimal-BeginsDigit zero n rest h = h
decimal-BeginsDigit (suc fuel) n rest h = elim (Bool-cases (ltb n 10)) [
  | inl e ↦ rw e (digit _ _ (ground arith))
  | inr e ↦ rw e (decimal-BeginsDigit fuel (n / 10) _ (digit _ _ (ground arith)))
]

begins_digit : (fuel n : ℕ) (rest : Bytes) → BeginsDigit (decimal (suc fuel) n rest)
unfolding decimal
begins_digit fuel n rest = elim (Bool-cases (ltb n 10)) [
  | inl e ↦ rw e (digit _ _ (ground arith))
  | inr e ↦ rw e (decimal-BeginsDigit fuel (n / 10) _ (digit _ _ (ground arith)))
]

-- `k` digits more.
abbrev longer : ℕ → Found → Found
longer zero f = f
longer (suc k) f = let g = longer k f in (g.0, suc g.1, g.2)

longer-longer : (k : ℕ) (f : Found) → longer k (longer 1 f) ≡ longer (suc k) f
longer-longer zero f = refl
longer-longer (suc k) f = ap (longer 1) (longer-longer k f)

longer-none : (k n : ℕ) (rest : Bytes) → longer k (n, 0, rest) ≡ (n, k, rest)
longer-none zero n rest = refl
longer-none (suc k) n rest = ap (longer 1) (longer-none k n rest)

number-digit :
    (m n d : ℕ) (rest : Bytes)
    → d < 10
    → 10 * m + d ≡ n
    → number m ((b'0' + d) ∷ rest) ≡ longer 1 (number n rest)
unfolding number
number-digit m n d rest h e =
    let is : is_digit (b'0' + d) ≡ true = ground arith in
    let v : 10 * m + (b'0' + d - b'0') ≡ n = omega (arith, e) in simp (is, v) refl

tenth_bound : (fuel n : ℕ) → n < 10 ^ suc fuel → n / 10 < 10 ^ fuel
tenth_bound fuel n h = omega (arith, h, pow-suc 10 fuel)

-- The digits of a number are read as that number.
number-decimal :
    (fuel n : ℕ) (rest : Bytes)
    → n < 10 ^ suc fuel
    → (k : ℕ) × (number 0 (decimal (suc fuel) n rest) ≡ longer (suc k) (number n rest))
unfolding decimal
number-decimal zero n rest h =
    (0, rw (lt→ltb n 10 h) (number-digit 0 n (n % 10) rest (omega arith) (omega (arith, h))))
number-decimal (suc fuel) n rest h = elim (Bool-cases (ltb n 10)) [
  | inl e ↦ (0, rw e (number-digit 0 n (n % 10) rest (omega arith) (ground arith)))
  | inr e ↦
      let bound = tenth_bound (suc fuel) n h in
      let (k, ih) = number-decimal fuel (n / 10) ((b'0' + n % 10) ∷ rest) bound in
      (
        suc k,
        rw e (
            ih
            ∙ ap (longer (suc k))
                (number-digit (n / 10) n (n % 10) rest (omega arith) (omega arith))
            ∙ longer-longer (suc k) (number n rest)),
      )
]

-- A text that begins with a character that ends a number and a word.
pub data BeginsBlank : Bytes → Type 0 where
  blank : (c : ℕ) (cs : Bytes) → is_blank c ≡ true → is_digit c ≡ false → BeginsBlank (c ∷ cs)

number-BeginsBlank : (n : ℕ) (cs : Bytes) → BeginsBlank cs → number n cs ≡ (n, 0, cs)
unfolding number
number-BeginsBlank n _ (blank c cs b d) = simp d

behind-BeginsBlank :
    (fail : Bool) (cs : Bytes)
    → BeginsBlank cs
    → behind fail cs ≡ record { rest = cs; fail = fail; eof = false }
behind-BeginsBlank fail _ (blank c cs b d) = refl

-- Blanks before a token.
abbrev pub Blanks : Bytes → Type 0
Blanks = All (λ c. is_blank c ≡ true)

skip_blanks-Blanks : (gap rest : Bytes) → Blanks gap → skip_blanks (gap ++ rest) ≡ skip_blanks rest
unfolding skip_blanks
skip_blanks-Blanks [] rest h = refl
skip_blanks-Blanks (c ∷ gap) rest h = simp (h.0, skip_blanks-Blanks gap rest h.1)

skip_blanks-BeginsDigit : (cs : Bytes) → BeginsDigit cs → skip_blanks cs ≡ cs
unfolding skip_blanks
skip_blanks-BeginsDigit _ (digit c cs h) = let n : is_blank c ≡ false = ground arith in rw n refl

take_number-BeginsDigit :
    (cs : Bytes) (old : Option ℕ)
    → BeginsDigit cs
    → take_number 64 cs old ≡ store_positive 64 (number 0 cs)
unfolding take_number
take_number-BeginsDigit _ old (digit c cs h) =
    let minus : (c == b'-') ≡ false = ground arith in
    let plus : (c == b'+') ≡ false = ground arith in rw (minus, plus) refl

store_positive-small :
    (n k : ℕ) (rest : Bytes)
    → n < 2 ^ 63
    → BeginsBlank rest
    → store_positive 64 (n, suc k, rest)
      ≡ (record { rest = rest; fail = false; eof = false }, some n)
unfolding store_positive
store_positive-small n k rest small h =
    rw (lt→ltb n (2 ^ 63) small) (ap (λ s. (s, some n)) (behind-BeginsBlank false rest h))

-- A stream that is good, with this text left.
abbrev pub good : Bytes → Stream
good rest = record { rest = rest; fail = false; eof = false }

-- The digits of a `long long`.
abbrev pub digits : ℕ → Bytes → Bytes
digits = decimal 19

-- A number behind blanks and before one is read as itself.
pub read_long-digits :
    (gap rest : Bytes) (n : ℕ) (old : Option ℕ)
    → Blanks gap
    → n < 2 ^ 63
    → BeginsBlank rest
    → read_long (good (gap ++ digits n rest)) old ≡ (good rest, some n)
unfolding read_long read_number
read_long-digits gap rest n old g small ends =
    let begins : BeginsDigit (digits n rest) = begins_digit 18 n rest in
    let (j, read) = number-decimal 18 n rest (omega (arith, small)) in
    ap (λ cs. take_number 64 cs old)
      (skip_blanks-Blanks gap (digits n rest) g ∙ skip_blanks-BeginsDigit (digits n rest) begins)
    ∙ take_number-BeginsDigit (digits n rest) old begins
    ∙ ap (store_positive 64)
        (read ∙ ap (longer (suc j)) (number-BeginsBlank n rest ends) ∙ longer-none (suc j) n rest)
    ∙ store_positive-small n j rest small ends

-- A word has no blanks.
abbrev pub NoBlanks : Bytes → Type 0
NoBlanks = All (λ c. is_blank c ≡ false)

word-append :
    (name rest : Bytes) → NoBlanks name → BeginsBlank rest → word (name ++ rest) ≡ (name, rest)
unfolding word
word-append [] _ h (blank c cs b d) = simp b
word-append (x ∷ name) rest h ends = simp (h.0, word-append name rest h.1 ends)

skip_blanks-NoBlanks : (x : ℕ) (cs : Bytes) → is_blank x ≡ false → skip_blanks (x ∷ cs) ≡ x ∷ cs
unfolding skip_blanks
skip_blanks-NoBlanks x cs h = simp h

-- A word behind blanks and before one is read as itself.
pub read_word-name :
    (gap : Bytes) (x : ℕ) (name rest old : Bytes)
    → Blanks gap
    → NoBlanks (x ∷ name)
    → BeginsBlank rest
    → read_word (good (gap ++ (x ∷ (name ++ rest)))) old ≡ (good rest, x ∷ name)
unfolding read_word
read_word-name gap x name rest old g h ends =
    ap (λ cs. take_word cs old)
      (skip_blanks-Blanks gap (x ∷ (name ++ rest)) g ∙ skip_blanks-NoBlanks x (name ++ rest) h.0)
    ∙ ap (λ w. (record { rest = w.1; fail = false; eof = is_empty w.1 }, w.0))
        (word-append (x ∷ name) rest h ends)
    ∙ ap (λ (s : Stream). (s, x ∷ name)) (behind-BeginsBlank false rest ends)
