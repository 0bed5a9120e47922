-- ===== src/Stdio/Formats.antt =====
-- What `vsprintf` of lib/stdio.c prints for a format and its arguments.

use os_learning.Base.{
  ℕ, suc, ◌+◌, ◌^◌, ◌<◌, ◌≤◌, ◌≡◌, ◌≢◌, refl, ◌⊎◌, arith, List, [], ◌∷◌, All, All-append, length,
}
use os_learning.Base.Int.{ℤ, pos, negsuc}
use os_learning.Base.Run.{Returns}
use os_learning.CString.{Ptr, Memory, Holds}
use os_learning.CString.Strings.{strlen-length}
use os_learning.Stdio.Format.{vsprintf}
use os_learning.Stdio.Digits.{digits, digits-value, IsDigit}
use os_learning.Stdio.Wrote.{Clear, Holds-of_Bytes}
use os_learning.Stdio.Pieces.{
  Piece, text, string_at, hex, decimal, letter, signed, spelled, output, IsInt, Away, Takes,
}
use os_learning.Stdio.Loop.{format_loop-Wrote}

All-digits : (base : ℕ) (xs : List ℕ) → All (IsDigit base) xs → All (λ c. c ≢ 0) xs
All-digits base [] h = tt
All-digits base (x ∷ xs) h = (h.0.0, All-digits base xs h.1)

digits-full :
    (base value : ℕ)
    → 2 ≤ base
    → base ≤ 36
    → value < 2 ^ 32
    → All (λ c. c ≢ 0) (digits 32 base value)
digits-full base value lo hi h =
    All-digits base (digits 32 base value) (digits-value 32 base value lo hi (omega arith) h).0

signed-full : (z : ℤ) → IsInt z → All (λ c. c ≢ 0) (signed z)
signed-full (pos n) h = digits-full 10 n (omega arith) (omega arith) (omega arith)
signed-full (negsuc n) h =
    ((λ e. absurd (omega arith)), digits-full 10 (suc n) (omega arith) (omega arith) (omega arith))

Holds-full : (m : Memory) (p : Ptr) (xs : List ℕ) → Holds m p xs → All (λ c. c ≢ 0) xs
Holds-full m p [] h = tt
Holds-full m p (x ∷ xs) h = (h.1, Holds-full m (p + 1) xs h.2)

-- No piece shows a 0.
output-full :
    (lo hi : ℕ) (mem : Memory) (args : Ptr) (ps : List Piece)
    → Takes lo hi mem args ps
    → All (λ c. c ≢ 0) (output ps)
output-full lo hi mem args [] t = tt
output-full lo hi mem args (text c ∷ ps) (some_char, _, t) =
    (some_char, output-full lo hi mem args ps t)
output-full lo hi mem args (string_at p xs ∷ ps) (_, _, held, _, _, t) =
    All-append _ xs (output ps) (Holds-full mem p xs held) (output-full lo hi mem (args + 4) ps t)
output-full lo hi mem args (hex value ∷ ps) (_, small, t) =
    All-append _ (digits 32 16 value) (output ps)
      (digits-full 16 value (omega arith) (omega arith) small)
      (output-full lo hi mem (args + 4) ps t)
output-full lo hi mem args (decimal z ∷ ps) (_, int, t) =
    All-append _ (signed z) (output ps) (signed-full z int) (output-full lo hi mem (args + 4) ps t)
output-full lo hi mem args (letter c ∷ ps) (_, some_char, _, t) =
    (some_char, output-full lo hi mem (args + 4) ps t)

-- The text is printed and nothing outside the buffer has changed.
abbrev pub Formatted : (str room : ℕ) (ps : List Piece) (mem : Memory) → ℕ × Memory → Type 0
Formatted str room ps mem (len, mem') =
    (len ≡ length (output ps))
    × Holds mem' str (output ps)
    × ((a : Ptr) → (a < str) ⊎ (str + room ≤ a) → mem' a ≡ mem a)

module _ (ps : List Piece) (fuel room str format args : ℕ) (mem0 : Memory) (start : 0 < str)
    (enough : 32 ≤ fuel) (pieces : length ps < fuel) (short : length (output ps) < fuel)
    (held : Holds mem0 format (spelled ps))
    (out : Away str (str + room) format (suc (length (spelled ps))))
    (takes : Takes str (str + room) mem0 args ps) (fits : length (output ps) < room)
    (small : room ≤ 2 ^ 32) where
  -- for a memory that is as `mem0` outside the buffer
  pub vsprintf-prints :
      (mem : Memory)
      → Clear (str + room) mem str
      → ((a : Ptr) → (a < str) ⊎ (str + room ≤ a) → mem a ≡ mem0 a)
      → Returns (Formatted str room ps mem) (vsprintf fuel str format args mem)
  unfolding vsprintf
  vsprintf-prints mem clear same =
      let hi : ℕ = str + room in
      let (m, run, w) =
        format_loop-Wrote str hi fuel mem0 start enough ps fuel format args mem str pieces
          (omega arith) clear same held out takes short (omega arith) in
      let shows : Holds m str (output ps) =
        Holds-of_Bytes m str (output ps) w.bytes (output-full str hi mem0 args ps takes)
          (w.clear (str + length (output ps)) (omega arith) (omega arith)) in
      let len =
        strlen-length m fuel str (output ps) shows (λ e. absurd (omega arith)) short
          (omega arith) in
      ((length (output ps), m), rw (run, len) refl, (refl, shows, w.frame))

  -- For a format of characters other than 0 and %, and of the directives %s, %x, %d and %c, with an
  -- argument of its type on the stack for each, no letter being 0, format, arguments and strings
  -- outside a buffer of zeros that is longer than the text, of at most 2^32 bytes: with 32 rounds
  -- or more, and more than the pieces and the characters, `vsprintf` returns the number of the
  -- characters; the buffer holds the pieces' text, hexadecimal and decimal digits for the numbers,
  -- and no byte outside it has changed.
  pub vsprintf-Formats :
      Clear (str + room) mem0 str
      → Returns (Formatted str room ps mem0) (vsprintf fuel str format args mem0)
  vsprintf-Formats clear = vsprintf-prints mem0 clear (λ a o. refl)
