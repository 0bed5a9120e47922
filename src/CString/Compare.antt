-- ===== src/CString/Compare.antt =====
-- `strcmp` of lib/string.c.
use os_learning.Base.{
  ℕ, zero, suc, ◌+◌, ◌<◌, ◌≡◌, refl, ap, ◌∙◌, ◌≢◌, ◌↔◌, List, [], ◌∷◌, arith, ◌==◌, if◌then◌else◌,
  length, All,
}
use os_learning.Base.Int.{ℤ, pos, negsuc}
use os_learning.Base.Run.{ok}
use os_learning.CString.Defs.{Ptr, null, Memory, char_lt, strcmp_loop, strcmp, Holds}

-- the sign of the difference of two signed characters
abbrev pub compare_chars : ℕ → ℕ → ℤ
compare_chars a b = if char_lt a b then negsuc 0 else (if char_lt b a then pos 1 else pos 0)

-- The order of strings by their first difference, where a string's end counts as the character 0.
abbrev pub compare_strings : List ℕ → List ℕ → ℤ
compare_strings [] [] = pos 0
compare_strings [] (y ∷ ys) = compare_chars 0 y
compare_strings (x ∷ xs) [] = compare_chars x 0
compare_strings (x ∷ xs) (y ∷ ys) = if x == y then compare_strings xs ys else compare_chars x y

strcmp_loop-compare :
    (fuel : ℕ) (a b : Ptr) (m : Memory) (xs ys : List ℕ)
    → Holds m a xs
    → Holds m b ys
    → length xs < fuel
    → strcmp_loop fuel a b m ≡ ok (compare_strings xs ys)
unfolding strcmp_loop
strcmp_loop-compare zero a b m xs ys h k f = absurd (omega arith)
strcmp_loop-compare (suc fuel) a b m [] [] h k f = ground (arith, h, k)
strcmp_loop-compare (suc fuel) a b m [] (y ∷ ys) h k f = ground (arith, h, k)
strcmp_loop-compare (suc fuel) a b m (x ∷ xs) [] h k f = ground (arith, h, k)
strcmp_loop-compare (suc fuel) a b m (x ∷ xs) (y ∷ ys) h k f =
    ground (arith, h, k, strcmp_loop-compare fuel (a + 1) (b + 1) m xs ys h.2 k.2 (omega arith))

-- a byte of a string
abbrev pub IsChar : ℕ → Type 0
IsChar x = (x < 256) × (x ≢ 0)

compare_strings-zero :
    (xs ys : List ℕ) → All IsChar xs → All IsChar ys → compare_strings xs ys ≡ pos 0 → xs ≡ ys
compare_strings-zero [] [] hx hy e = refl
compare_strings-zero [] (y ∷ ys) hx hy e = absurd (ground arith)
compare_strings-zero (x ∷ xs) [] hx hy e = absurd (ground arith)
compare_strings-zero (x ∷ xs) (y ∷ ys) hx hy e =
    ground (arith, compare_strings-zero xs ys hx.1 hy.1)

compare_strings_self : (xs : List ℕ) → compare_strings xs xs ≡ pos 0
compare_strings_self [] = refl
compare_strings_self (x ∷ xs) = ground (arith, compare_strings_self xs)

module _ (fuel : ℕ) (a b : Ptr) (m : Memory) (xs ys : List ℕ) (h : Holds m a xs) (k : Holds m b ys)
    (ne : a ≢ null) (ne' : b ≢ null) (f : length xs < fuel) where
  -- For strings behind pointers that are not NULL, with more rounds than the first has characters,
  -- `strcmp` answers as the first difference of the two, as of signed characters, has it.
  pub strcmp-compare : strcmp fuel a b m ≡ ok (compare_strings xs ys)
  unfolding strcmp
  strcmp-compare = ground (arith, strcmp_loop-compare fuel a b m xs ys h k f)

  -- On strings of bytes `strcmp` answers 0 exactly when they are equal.
  pub strcmp-zero_iff : All IsChar xs → All IsChar ys → (strcmp fuel a b m ≡ ok (pos 0)) ↔ (xs ≡ ys)
  strcmp-zero_iff hx hy = (
    λ e. compare_strings-zero xs ys hx hy (cc (strcmp-compare)),
    λ e. strcmp-compare ∙ ap ok (rw e (compare_strings_self ys)),
  )
