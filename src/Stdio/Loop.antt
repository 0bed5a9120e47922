-- ===== src/Stdio/Loop.antt =====
-- The loop of `vsprintf` in lib/stdio.c.

use os_learning.Base.{
  ℕ, zero, suc, ◌+◌, ◌<◌, ◌≤◌, ◌≡◌, refl, ◌∙◌, ◌⊎◌, inl, inr, true, false, ◌==◌, arith, List, [],
  ◌∷◌, ◌++◌, length, length-append,
}
use os_learning.Base.Run.{ok, Returns}
use os_learning.CString.{Ptr, Memory, write, Holds}
use os_learning.Stdio.Format.{directive, format_loop, put_string, put_hex, put_decimal, put_letter}
use os_learning.Stdio.Digits.{digits}
use os_learning.Stdio.Wrote.{Wrote, Wrote-one, Wrote-append, Wrote-nothing, Clear}
use os_learning.Stdio.Pieces.{
  Piece, text, string_at, hex, decimal, letter, signed, spelled, output, Away, Takes,
}
use os_learning.Stdio.Steps.{Puts, put_string-Puts, put_hex-Puts, put_decimal-Puts, put_letter-Puts}

module _ (lo hi fuel : ℕ) (mem0 : Memory) (start : 0 < lo) (enough : 32 ≤ fuel) where
  abbrev Outside : Memory → Type 0
  Outside mem = (a : Ptr) → (a < lo) ⊎ (hi ≤ a) → mem a ≡ mem0 a

  Outside-next :
      (mem mem1 : Memory) (buf : Ptr) (xs : List ℕ)
      → lo ≤ buf
      → Outside mem
      → Wrote hi mem buf xs mem1
      → Outside mem1
  Outside-next mem mem1 buf xs behind same w a (inl h) =
      w.frame a (inl (omega arith)) ∙ same a (inl h)
  Outside-next mem mem1 buf xs behind same w a (inr h) = w.frame a (inr h) ∙ same a (inr h)

  -- A character of the format.
  char-at :
      (mem : Memory) (index n c : ℕ)
      → Outside mem
      → Away lo hi index (suc n)
      → mem0 index ≡ c
      → mem index ≡ c
  char-at mem index n c same (inl h) e = same index (inl (omega arith)) ∙ e
  char-at mem index n c same (inr h) e = same index (inr h) ∙ e

  Away-next : (index n : ℕ) → Away lo hi index (suc n) → Away lo hi (index + 1) n
  Away-next index n (inl h) = inl (omega arith)
  Away-next index n (inr h) = inr (omega arith)

  -- A directive, and what the rest of the format writes behind it.
  directive-then :
      (rounds index args : ℕ) (mem : Memory) (buf : Ptr) (xs rest : List ℕ)
      → mem index ≡ b'%'
      → buf + length xs ≤ hi
      → (before : lo ≤ buf) (clear : Clear hi mem buf) (same : Outside mem)
      → Returns
          (Puts lo hi fuel mem0 start enough mem buf before clear same (index + 1) args xs)
          (directive fuel buf (index + 1) args mem)
      → ((mem1 : Memory)
          → Wrote hi mem buf xs mem1
          → Returns
              (Wrote hi mem1 (buf + length xs) rest)
              (format_loop rounds fuel (buf + length xs) (index + 1 + 1) (args + 4) mem1))
      → Returns (Wrote hi mem buf (xs ++ rest)) (format_loop (suc rounds) fuel buf index args mem)
  unfolding format_loop
  directive-then rounds index args mem buf xs rest percent fits before clear same
        ((buf1, index1, args1, mem1), run, (eb, ei, ea, w)) next =
      let (m, go, w') = next mem1 w in
      let goes : format_loop rounds fuel buf1 index1 args1 mem1 ≡ ok m = rw (eb, ei, ea) go in
      let some_char : (mem index == 0) ≡ false = rw percent refl in
      let is_percent : (mem index == b'%') ≡ true = rw percent refl in
      (
        m,
        rw (some_char, is_percent, run, format_loop) goes,
        Wrote-append hi mem buf xs rest mem1 m fits w w',
      )

  -- what each directive of the `switch` runs
  directive-string :
      (index args : ℕ) (mem : Memory) (buf : Ptr)
      → mem index ≡ b's'
      → directive fuel buf index args mem ≡ put_string fuel buf index args mem
  unfolding directive
  directive-string index args mem buf e = rw e refl

  directive-hex :
      (index args : ℕ) (mem : Memory) (buf : Ptr)
      → mem index ≡ b'x'
      → directive fuel buf index args mem ≡ put_hex fuel buf index args mem
  unfolding directive
  directive-hex index args mem buf e = rw e refl

  directive-decimal :
      (index args : ℕ) (mem : Memory) (buf : Ptr)
      → mem index ≡ b'd'
      → directive fuel buf index args mem ≡ put_decimal fuel buf index args mem
  unfolding directive
  directive-decimal index args mem buf e = rw e refl

  directive-letter :
      (index args : ℕ) (mem : Memory) (buf : Ptr)
      → mem index ≡ b'c'
      → directive fuel buf index args mem ≡ put_letter buf index args mem
  unfolding directive
  directive-letter index args mem buf e = rw e refl

  -- what is to show of the loop at a place of the format
  abbrev Shows : (ps : List Piece) (rounds index args : ℕ) → Type 0
  Shows ps rounds index args =
      (mem : Memory) (buf : Ptr)
      → length ps < rounds
      → lo ≤ buf
      → Clear hi mem buf
      → Outside mem
      → Holds mem0 index (spelled ps)
      → Away lo hi index (suc (length (spelled ps)))
      → Takes lo hi mem0 args ps
      → length (output ps) < fuel
      → buf + length (output ps) < hi
      → Returns (Wrote hi mem buf (output ps)) (format_loop rounds fuel buf index args mem)

  -- A directive `%k` in front of the rest of the format.
  directive-Shows :
      (ps : List Piece) (k : ℕ) (xs : List ℕ) (rounds index args : ℕ)
      → Shows ps rounds (index + 1 + 1) (args + 4)
      → (mem : Memory) (buf : Ptr) → length ps < rounds
      → (before : lo ≤ buf) (clear : Clear hi mem buf) (same : Outside mem)
      → Holds mem0 index (b'%' ∷ k ∷ spelled ps)
      → Away lo hi index (suc (suc (suc (length (spelled ps)))))
      → Takes lo hi mem0 (args + 4) ps
      → length (xs ++ output ps) < fuel
      → buf + length (xs ++ output ps) < hi
      → (mem (index + 1) ≡ k
          → length xs < fuel
          → buf + length xs < hi
          → Returns
              (Puts lo hi fuel mem0 start enough mem buf before clear same (index + 1) args xs)
              (directive fuel buf (index + 1) args mem))
      → Returns
          (Wrote hi mem buf (xs ++ output ps))
          (format_loop (suc rounds) fuel buf index args mem)
  directive-Shows ps k xs rounds index args next mem buf few before clear same held out takes short
        fits puts =
      let n : ℕ = length (spelled ps) in
      let sum = length-append xs (output ps) in
      let out1 = Away-next index (suc (suc n)) out in
      let percent = char-at mem index (suc (suc n)) b'%' same out held.0 in
      let kind = char-at mem (index + 1) (suc n) k same out1 held.2.0 in
      directive-then rounds index args mem buf xs (output ps) percent (omega (arith, sum)) before
        clear same (puts kind (omega (arith, sum)) (omega (arith, sum)))
        (λ mem1 w.
          next mem1 (buf + length xs) few (omega arith) w.clear
            (Outside-next mem mem1 buf xs before same w) held.2.2
            (Away-next (index + 1) (suc n) out1) takes (omega (arith, sum)) (omega (arith, sum)))

  -- The loop writes what the rest of the format shows.
  pub format_loop-Wrote : (ps : List Piece) (rounds index args : ℕ) → Shows ps rounds index args
  unfolding format_loop
  format_loop-Wrote ps zero index args mem buf few before clear same held out takes short fits =
      absurd (omega arith)
  format_loop-Wrote [] (suc rounds) index args mem buf few before clear same held out takes short
        fits =
      let end : (mem index == 0) ≡ true = rw (char-at mem index 0 0 same out held) refl in
      (mem, rw (end, format_loop) refl, Wrote-nothing hi mem buf clear)
  format_loop-Wrote (text c ∷ ps) (suc rounds) index args mem buf few before clear same held out
        (some_char, plain, takes) short fits =
      let n : ℕ = length (spelled ps) in
      let e : mem index ≡ c = char-at mem index (suc n) c same out held.0 in
      let not_end : (mem index == 0) ≡ false = ground (arith, e, some_char) in
      let not_percent : (mem index == b'%') ≡ false = ground (arith, e, plain) in
      let w = Wrote-one hi mem buf c clear (omega arith) in
      let (m, go, w') =
        format_loop-Wrote ps rounds (index + 1) args (write mem buf c) (buf + 1) (omega arith)
          (omega arith) w.clear (Outside-next mem (write mem buf c) buf (c ∷ []) before same w)
          held.2 (Away-next index (suc n) out) takes (omega arith) (omega arith) in
      (
        m,
        rw (not_end, not_percent, e, format_loop) go,
        Wrote-append hi mem buf (c ∷ []) (output ps) (write mem buf c) m (omega arith) w w',
      )
  format_loop-Wrote (string_at p xs ∷ ps) (suc rounds) index args mem buf few before clear same held
        out (slot, ne, string, small, away, takes) short fits =
      directive-Shows ps b's' xs rounds index args
        (format_loop-Wrote ps rounds (index + 1 + 1) (args + 4)) mem buf (omega arith) before clear
        same held out takes short fits
        (λ kind less room. rw (directive-string (index + 1) args mem buf kind) (
          put_string-Puts lo hi fuel mem0 start enough mem buf before clear same p xs (index + 1)
            args slot ne string small less away room))
  format_loop-Wrote (hex value ∷ ps) (suc rounds) index args mem buf few before clear same held out
        (slot, small, takes) short fits =
      directive-Shows ps b'x' (digits 32 16 value) rounds index args
        (format_loop-Wrote ps rounds (index + 1 + 1) (args + 4)) mem buf (omega arith) before clear
        same held out takes short fits
        (λ kind less room. rw (directive-hex (index + 1) args mem buf kind) (
          put_hex-Puts lo hi fuel mem0 start enough mem buf before clear same value (index + 1) args
            slot small room))
  format_loop-Wrote (decimal z ∷ ps) (suc rounds) index args mem buf few before clear same held out
        (slot, int, takes) short fits =
      directive-Shows ps b'd' (signed z) rounds index args
        (format_loop-Wrote ps rounds (index + 1 + 1) (args + 4)) mem buf (omega arith) before clear
        same held out takes short fits
        (λ kind less room. rw (directive-decimal (index + 1) args mem buf kind) (
          put_decimal-Puts lo hi fuel mem0 start enough mem buf before clear same z (index + 1) args
            slot int room))
  format_loop-Wrote (letter c ∷ ps) (suc rounds) index args mem buf few before clear same held out
        (read, some_char, away, takes) short fits =
      directive-Shows ps b'c' (c ∷ []) rounds index args
        (format_loop-Wrote ps rounds (index + 1 + 1) (args + 4)) mem buf (omega arith) before clear
        same held out takes short fits
        (λ kind less room. rw (directive-letter (index + 1) args mem buf kind) (
          put_letter-Puts lo hi fuel mem0 start enough mem buf before clear same c (index + 1) args
            read away room))
