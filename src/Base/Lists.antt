-- ===== src/Base/Lists.antt =====
-- Lists measured and indexed by native numbers, under the library's names; bytes.
use Prim.Native.Nat.{ℕ, zero, suc, ◌+◌, ◌-◌, ◌≤◌, min}
use mathlib.Core.Path.{◌≡◌, refl, ap}
use mathlib.Core.Bool.{Bool, false, ◌||◌}
use mathlib.Core.List.{List, [], ◌∷◌, ◌++◌, map}
use mathlib.Core.Option.{Option, none, some}
use native.Mathlib.Omega.{arith}
use gra_project.Base.Tests.{◌==◌}

abbrev pub Bytes : Type 0
Bytes = List ℕ

module _ {ℓ} {A : Type ℓ} where
  abbrev pub length : List A → ℕ
  length [] = 0
  length (x ∷ xs) = suc (length xs)

  abbrev pub get_elem? : List A → ℕ → Option A
  get_elem? [] i = none
  get_elem? (x ∷ xs) zero = some x
  get_elem? (x ∷ xs) (suc i) = get_elem? xs i

  abbrev pub get_or : List A → ℕ → A → A
  get_or [] i d = d
  get_or (x ∷ xs) zero d = x
  get_or (x ∷ xs) (suc i) d = get_or xs i d

  -- A write out of bounds changes nothing.
  abbrev pub set : List A → ℕ → A → List A
  set [] i v = []
  set (x ∷ xs) zero v = v ∷ xs
  set (x ∷ xs) (suc i) v = x ∷ set xs i v

  abbrev pub take : ℕ → List A → List A
  take zero xs = []
  take (suc n) [] = []
  take (suc n) (x ∷ xs) = x ∷ take n xs

  abbrev pub drop : ℕ → List A → List A
  drop zero xs = xs
  drop (suc n) [] = []
  drop (suc n) (x ∷ xs) = drop n xs

  abbrev pub replicate : ℕ → A → List A
  replicate zero a = []
  replicate (suc n) a = a ∷ replicate n a

  -- A predicate of every element.
  abbrev pub All {κ} : (A → Type κ) → List A → Type κ
  All P [] = Unit
  All P (x ∷ xs) = P x × All P xs

module _ {ℓ} {A : Type ℓ} where
  pub length-append : (xs ys : List A) → length (xs ++ ys) ≡ length xs + length ys
  length-append [] ys = omega arith
  length-append (x ∷ xs) ys = omega (arith, length-append xs ys)

  pub length-set : (xs : List A) (i : ℕ) (v : A) → length (set xs i v) ≡ length xs
  length-set [] i v = refl
  length-set (x ∷ xs) zero v = refl
  length-set (x ∷ xs) (suc i) v = ap suc (length-set xs i v)

  pub length-take : (n : ℕ) (xs : List A) → length (take n xs) ≡ min n (length xs)
  length-take zero xs = omega arith
  length-take (suc n) [] = omega arith
  length-take (suc n) (x ∷ xs) = omega (arith, length-take n xs)

  pub length-drop : (n : ℕ) (xs : List A) → length (drop n xs) ≡ length xs - n
  length-drop zero xs = omega arith
  length-drop (suc n) [] = omega arith
  length-drop (suc n) (x ∷ xs) = omega (arith, length-drop n xs)

  pub take-length : (xs : List A) (n : ℕ) → length xs ≤ n → take n xs ≡ xs
  take-length [] zero h = refl
  take-length [] (suc n) h = refl
  take-length (x ∷ xs) zero h = elim h [ ]
  take-length (x ∷ xs) (suc n) h = ap (◌∷◌ x) (take-length xs n (omega arith))

  pub drop-length : (xs : List A) → drop (length xs) xs ≡ []
  drop-length [] = refl
  drop-length (x ∷ xs) = drop-length xs

  pub take-append : (xs ys : List A) (n : ℕ) → length xs ≡ n → take n (xs ++ ys) ≡ xs
  take-append [] ys zero h = refl
  take-append [] ys (suc n) h = absurd (omega arith)
  take-append (x ∷ xs) ys zero h = absurd (omega arith)
  take-append (x ∷ xs) ys (suc n) h = ap (◌∷◌ x) (take-append xs ys n (omega arith))

  pub drop-append : (xs ys : List A) (n : ℕ) → length xs ≡ n → drop n (xs ++ ys) ≡ ys
  drop-append [] ys zero h = refl
  drop-append [] ys (suc n) h = absurd (omega arith)
  drop-append (x ∷ xs) ys zero h = absurd (omega arith)
  drop-append (x ∷ xs) ys (suc n) h = drop-append xs ys n (omega arith)

  pub length-replicate : (n : ℕ) (a : A) → length (replicate n a) ≡ n
  length-replicate zero a = refl
  length-replicate (suc n) a = ap suc (length-replicate n a)

-- Whether a number stands in a list: `count` of an `unordered_set<int>`.
abbrev pub contains : List ℕ → ℕ → Bool
contains [] a = false
contains (x ∷ xs) a = (x == a) || contains xs a

pub length-map : {A B : Type 0} (f : A → B) (xs : List A) → length (map f xs) ≡ length xs
length-map f [] = refl
length-map f (x ∷ xs) = ap suc (length-map f xs)
