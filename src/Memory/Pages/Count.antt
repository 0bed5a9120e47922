-- ===== src/Memory/Pages/Count.antt =====
-- How many pages of a pool are free.
use os_learning.Base.{
  ℕ, zero, suc, ◌+◌, ◌<◌, ◌≤◌, ◌≡◌, refl, ap₂, Bool-cases, inl, inr, true, false, arith, ◌==◌,
  if◌then◌else◌,
}
use os_learning.Bitmap.{Bitmap, is_free}

-- the free bits below `n`
abbrev pub count_free : Bitmap → (n : ℕ) → ℕ
count_free btmp zero = 0
count_free btmp (suc n) = (if is_free btmp n then 1 else 0) + count_free btmp n

pub some_free :
    (btmp : Bitmap) (n : ℕ) → 0 < count_free btmp n → (i : ℕ) × (i < n) × (is_free btmp i ≡ true)
some_free btmp zero any = absurd (omega arith)
some_free btmp (suc n) any = elim (Bool-cases (is_free btmp n)) [
  | inl free ↦ (n, omega arith, free)
  | inr taken ↦
      let (i, less, free) = some_free btmp n (ground (arith, any, taken)) in (i, omega arith, free)
]

-- The bit `j` of the second bitmap is not free, and the others agree.
module _ (btmp btmp' : Bitmap) (j : ℕ)
    (taken : (k : ℕ) → is_free btmp' k ≡ (if j == k then false else is_free btmp k)) where
  count-below : (n : ℕ) → n ≤ j → count_free btmp' n ≡ count_free btmp n
  count-below zero low = refl
  count-below (suc n) low =
      let same : is_free btmp' n ≡ is_free btmp n = ground (arith, taken n) in
      ap₂ (λ b c. (if b then 1 else 0) + c) same (count-below n (omega arith))

  pub count_free-taken : (n : ℕ) → count_free btmp n ≤ count_free btmp' n + 1
  count_free-taken zero = omega arith
  count_free-taken (suc n) = elim (Bool-cases (j == n)) [
    | inl here ↦ ground (arith, taken n, count-below n (ground arith), here)
    | inr there ↦ ground (arith, taken n, count_free-taken n, there)
  ]
