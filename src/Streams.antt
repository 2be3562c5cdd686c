-- ===== src/Streams.antt =====
-- Input streams of the C++ library, as far as `>>` of a string, a character and a signed integer goes;
-- the programs of servers/ and procmon/ read the texts of /proc through them.
pub mod Texts
use gra_project.Base.{
  ◌/◌, ℕ, zero, suc, ◌+◌, ◌-◌, ◌*◌, ◌%◌, ◌^◌, Bool, true, false, ◌&&◌, ◌||◌, Option, some, [], ◌∷◌,
  Bytes, ltb, leb, ◌==◌, if◌then◌else◌,
}

abbrev pub is_digit : ℕ → Bool
is_digit c = leb b'0' c && leb c b'9'

abbrev pub is_blank : ℕ → Bool
is_blank c = c == b' ' || leb 9 c && leb c 13

-- What is left of an `istringstream`, and its two flags.
pub record Stream : Type 0 where
  pub rest : Bytes
  pub fail : Bool
  pub eof : Bool

abbrev pub stream_of : Bytes → Stream
stream_of bytes = record { rest = bytes; fail = false; eof = false }

unfoldable pub skip_blanks : Bytes → Bytes
skip_blanks [] = []
skip_blanks (c ∷ cs) = let skipped = skip_blanks cs in if is_blank c then skipped else c ∷ cs

-- The characters up to a blank, and the rest.
unfoldable pub word : Bytes → Bytes × Bytes
word [] = ([], [])
word (c ∷ cs) = let rest = word cs in if is_blank c then ([], c ∷ cs) else (c ∷ rest.0, rest.1)

-- The digits at the front as a number added to `n`, how many there are, and the rest.
unfoldable pub number : ℕ → Bytes → ℕ × ℕ × Bytes
number n [] = (n, 0, [])
number n (c ∷ cs) =
    let more = number (10 * n + (c - b'0')) cs in
    if is_digit c then (more.0, suc more.1, more.2) else (n, 0, c ∷ cs)

abbrev pub is_empty : Bytes → Bool
is_empty [] = true
is_empty (c ∷ cs) = false

-- `iss >> name`: a stream that is not good, or has only blanks left, leaves the variable alone.
abbrev pub take_word : Bytes → Bytes → Stream × Bytes
take_word [] old = (record { rest = []; fail = true; eof = true }, old)
take_word (c ∷ cs) old =
    let w = word (c ∷ cs) in (record { rest = w.1; fail = false; eof = is_empty w.1 }, w.0)

unfoldable pub read_word : Stream → Bytes → Stream × Bytes
unfolding word skip_blanks
read_word s old =
    if s.fail || s.eof then (record s { fail = true }, old) else take_word (skip_blanks s.rest) old

-- What stands behind an optional sign: the number, and how the rest begins.
abbrev pub Found : Type 0
Found = ℕ × ℕ × Bytes

-- The stream behind a number, with its flags.
abbrev pub behind : Bool → Bytes → Stream
behind fail rest = record { rest = rest; fail = fail; eof = is_empty rest }

-- A number that is not there is a failure that stores 0; one that does not fit `w` bits is a failure
-- that stores the largest or the smallest. The bits are those of two's complement.
unfoldable pub store_positive : ℕ → Found → Stream × Option ℕ
store_positive w (n, zero, rest) = (behind true rest, some 0)
store_positive w (n, suc k, rest) =
    if ltb n (2 ^ (w - 1))
    then (behind false rest, some n)
    else (behind true rest, some (2 ^ (w - 1) - 1))

unfoldable pub store_negative : ℕ → Found → Stream × Option ℕ
store_negative w (n, zero, rest) = (behind true rest, some 0)
store_negative w (n, suc k, rest) =
    if leb n (2 ^ (w - 1))
    then (behind false rest, some ((2 ^ w - n) % 2 ^ w))
    else (behind true rest, some (2 ^ (w - 1)))

unfoldable pub take_number : ℕ → Bytes → Option ℕ → Stream × Option ℕ
unfolding number store_positive store_negative
take_number w [] old = (record { rest = []; fail = true; eof = true }, old)
take_number w (c ∷ cs) old =
    if c == b'-'
    then store_negative w (number 0 cs)
    else if c == b'+'
    then store_positive w (number 0 cs)
    else store_positive w (number 0 (c ∷ cs))

-- `iss >> n` for a signed `n` of `w` bits; a variable that nothing has set is `none`.
unfoldable pub read_number : ℕ → Stream → Option ℕ → Stream × Option ℕ
unfolding take_number skip_blanks
read_number w s old =
    if s.fail || s.eof
    then (record s { fail = true }, old)
    else take_number w (skip_blanks s.rest) old

abbrev pub take_char : Bytes → ℕ → Stream × ℕ
take_char [] old = (record { rest = []; fail = true; eof = true }, old)
take_char (c ∷ cs) old = (record { rest = cs; fail = false; eof = false }, c)

-- `iss >> c` for a `char`.
unfoldable pub read_char : Stream → ℕ → Stream × ℕ
unfolding skip_blanks
read_char s old =
    if s.fail || s.eof then (record s { fail = true }, old) else take_char (skip_blanks s.rest) old

-- A `long long`.
unfoldable pub read_long : Stream → Option ℕ → Stream × Option ℕ
unfolding read_number
read_long = read_number 64

-- A word, as `iss >> tmp` into a string of which nothing is used.
abbrev pub skip_word : Stream → Stream
skip_word s = (read_word s []).0

-- The decimal digits of a number below 10 ^ fuel, before `rest`.
unfoldable pub decimal : ℕ → ℕ → Bytes → Bytes
decimal zero n rest = rest
decimal (suc fuel) n rest =
    let d = (b'0' + n % 10) ∷ rest in
    let more = decimal fuel (n / 10) d in if ltb n 10 then d else more

-- `%d` of the 32 bits of an `int`
unfoldable pub decimal_int : ℕ → Bytes
unfolding decimal
decimal_int n = if ltb n (2 ^ 31) then decimal 10 n [] else b'-' ∷ decimal 10 (2 ^ 32 - n) []
