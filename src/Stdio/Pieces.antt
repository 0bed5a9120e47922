-- ===== src/Stdio/Pieces.antt =====
-- What a format of `vsprintf` in lib/stdio.c stands for: its pieces, with the arguments that they show.
use os_learning.Base.{ℕ, suc, ◌+◌, ◌-◌, ◌^◌, ◌<◌, ◌≤◌, ◌≡◌, ◌≢◌, ◌⊎◌, List, [], ◌∷◌, ◌++◌, length}
use os_learning.Base.Int.{ℤ, pos, negsuc}
use os_learning.CString.{Ptr, Memory, Holds}
use os_learning.Stdio.Format.{word}
use os_learning.Stdio.Digits.{digits}

-- A character of its own, or a directive with the argument that it takes.
pub data Piece : Type 0 where
  text : (c : ℕ) → Piece
  string_at : (p : Ptr) → (xs : List ℕ) → Piece
  hex : (value : ℕ) → Piece
  decimal : ℤ → Piece
  letter : (c : ℕ) → Piece

abbrev pub spelled : List Piece → List ℕ
spelled [] = []
spelled (text c ∷ ps) = c ∷ spelled ps
spelled (string_at p xs ∷ ps) = b'%' ∷ b's' ∷ spelled ps
spelled (hex value ∷ ps) = b'%' ∷ b'x' ∷ spelled ps
spelled (decimal z ∷ ps) = b'%' ∷ b'd' ∷ spelled ps
spelled (letter c ∷ ps) = b'%' ∷ b'c' ∷ spelled ps

abbrev pub signed : ℤ → List ℕ
signed (pos n) = digits 32 10 n
signed (negsuc n) = b'-' ∷ digits 32 10 (suc n)

abbrev pub shown : Piece → List ℕ
shown (text c) = c ∷ []
shown (string_at p xs) = xs
shown (hex value) = digits 32 16 value
shown (decimal z) = signed z
shown (letter c) = c ∷ []

abbrev pub output : List Piece → List ℕ
output [] = []
output (piece ∷ ps) = shown piece ++ output ps

-- the word for an `int`
abbrev pub word_of : ℤ → ℕ
word_of (pos n) = n
word_of (negsuc n) = 2 ^ 32 - suc n

abbrev pub IsInt : ℤ → Type 0
IsInt (pos n) = n < 2 ^ 31
IsInt (negsuc n) = n < 2 ^ 31

-- `n` bytes from `p` on, outside the buffer from `lo` to `hi`
abbrev pub Away : (lo hi : ℕ) (p : Ptr) (n : ℕ) → Type 0
Away lo hi p n = (p + n ≤ lo) ⊎ (hi ≤ p)

module _ (lo hi : ℕ) (mem : Memory) where
  -- the argument behind `ap`, of 4 bytes
  abbrev pub Slot : (ap : Ptr) (value : ℕ) → Type 0
  Slot ap value = (word mem (ap + 4) ≡ value) × Away lo hi (ap + 4) 4

  -- The arguments behind `ap` are those of the pieces.
  abbrev pub Takes : (ap : Ptr) → List Piece → Type 0
  Takes ap [] = Unit
  Takes ap (text c ∷ ps) = (c ≢ 0) × (c ≢ b'%') × Takes ap ps
  Takes ap (string_at p xs ∷ ps) =
      Slot ap p
      × (p ≢ 0)
      × Holds mem p xs
      × (length xs < 2 ^ 32)
      × Away lo hi p (suc (length xs))
      × Takes (ap + 4) ps
  Takes ap (hex value ∷ ps) = Slot ap value × (value < 2 ^ 32) × Takes (ap + 4) ps
  Takes ap (decimal z ∷ ps) = Slot ap (word_of z) × IsInt z × Takes (ap + 4) ps
  Takes ap (letter c ∷ ps) =
      (mem (ap + 4) ≡ c) × (c ≢ 0) × Away lo hi (ap + 4) 4 × Takes (ap + 4) ps
