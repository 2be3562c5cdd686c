-- ===== src/Reuseport/Objects.antt =====
-- Objects at addresses, as `new` and `delete` leave them.
use gra_project.Base.{
  arith, ℕ, ◌≡◌, refl, ◌∙◌, ◌≢◌, Option, none, some, List, [], ◌∷◌, ◌==◌, if◌then◌else◌, Bool-cases,
  inl, inr, ne→==,
}

abbrev pub Heap : Type 0 → Type 0
Heap A = List (ℕ × A)

unfoldable pub lookup : {A : Type 0} → Heap A → ℕ → Option A
lookup [] ptr = none
lookup ((p, a) ∷ heap) ptr = let rest = lookup heap ptr in if p == ptr then some a else rest

abbrev pub insert : {A : Type 0} → Heap A → ℕ → A → Heap A
insert heap ptr a = (ptr, a) ∷ heap

unfoldable pub remove : {A : Type 0} → Heap A → ℕ → Heap A
remove [] ptr = []
remove ((p, a) ∷ heap) ptr = let rest = remove heap ptr in if p == ptr then rest else (p, a) ∷ rest

-- `new` gives an address that no object has.
pub record Allocator : Type 1 where
  pub fresh : {A : Type 0} → Heap A → ℕ
  pub free : {A : Type 0} (heap : Heap A) → lookup heap (fresh heap) ≡ none

abbrev pub IsLive : {A : Type 0} → Heap A → ℕ → Type 0
IsLive {A} heap ptr = (a : A) × (lookup heap ptr ≡ some a)

module _ {A : Type 0} where
  pub lookup-remove :
      (heap : Heap A) (q ptr : ℕ)
      → lookup (remove heap q) ptr ≡ (if q == ptr then none else lookup heap ptr)
  unfolding lookup remove
  lookup-remove [] q ptr = ground arith
  lookup-remove ((p, a) ∷ heap) q ptr = ground (arith, lookup-remove heap q ptr)

  pub IsLive-remove :
      (heap : Heap A) (q ptr : ℕ) → q ≢ ptr → IsLive heap ptr → IsLive (remove heap q) ptr
  IsLive-remove heap q ptr n (a, e) = (a, lookup-remove heap q ptr ∙ rw (ne→== q ptr n) e)

  -- A new object hides none that is live.
  pub IsLive-insert :
      (heap : Heap A) (p : ℕ) (b : A) (ptr : ℕ)
      → lookup heap p ≡ none
      → IsLive heap ptr
      → IsLive (insert heap p b) ptr
  unfolding lookup
  IsLive-insert heap p b ptr n (a, e) = elim (Bool-cases (p == ptr)) [
    | inl s ↦ (b, rw s refl)
    | inr s ↦ (a, rw s e)
  ]
