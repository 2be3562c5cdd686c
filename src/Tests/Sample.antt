-- ===== src/Tests/Sample.antt =====
-- A small machine for the tests: a double is a number of tenths, the first byte of its memory is its
-- value, and the engine always draws the first index that has a weight.
use mathlib.Core.Bool.{false≢true}
use gra_project.Base.{
  ℕ, zero, suc, ◌+◌, ◌-◌, ◌*◌, ◌/◌, ◌≢◌, List, [], ◌∷◌, leb, ◌==◌, if◌then◌else◌, get_or, replicate,
  Bool-cases, inl, inr, sym, ◌∙◌, eq→==, ne→==,
}
use gra_project.Sys.{World, Reply}
use gra_project.Numbers.{Numbers}
use gra_project.Algorithm.{Vars, initial}
use gra_project.Algorithm.Monitor.Selection.{Draws}

-- The first index whose weight is not 0, or the length of the list.
abbrev pub first_weight : List ℕ → ℕ
first_weight [] = 0
first_weight (x ∷ xs) = if x == 0 then suc (first_weight xs) else 0

abbrev pub tenths : Numbers
tenths = record {
  Double = ℕ;
  lit = λ n. n;
  add = λ a b. a + b;
  sub = λ a b. a - b;
  mul = λ a b. a * b / 10;
  div = λ a b. a * 10 / b;
  le = λ a b. leb a b;
  of_int = λ n. n * 10;
  of_bytes = λ bytes. get_or bytes 0 0 * 10;
  to_bytes = λ a. (a / 10) ∷ replicate 7 0;
  print = λ a. (b'0' + a / 100) ∷ [];
  Engine = ℕ;
  Distribution = List ℕ;
  discrete = λ ps. ps;
  draw = λ ps e. (first_weight ps, e + 1);
}

first_weight-ne : (ps : List ℕ) (i : ℕ) → get_or ps i 0 ≢ 0 → get_or ps (first_weight ps) 0 ≢ 0
first_weight-ne [] i h = h
first_weight-ne (x ∷ xs) zero h = rw (ne→== x 0 h) h
first_weight-ne (x ∷ xs) (suc i) h = elim (Bool-cases (x == 0)) [
  | inl empty ↦ rw empty (first_weight-ne xs i h)
  | inr full ↦ rw full (λ e. false≢true (sym full ∙ eq→== x 0 e))
]

pub tenths-Draws : Draws tenths
tenths-Draws = record { weighted = λ ps e i h. first_weight-ne ps i h }

-- Four servers, on the descriptors 4 to 7 and, for their monitors, 14 to 17.
abbrev pub four_servers : Vars tenths
four_servers = record (initial tenths 0) {
  servers_inner = (4, 14) ∷ (5, 15) ∷ (6, 16) ∷ (7, 17) ∷ [];
  server_fd_set = 7 ∷ 6 ∷ 5 ∷ 4 ∷ [];
}

abbrev pub started : List Reply → World (Vars tenths)
started script = record { vars = four_servers; script = script; trace = [] }
