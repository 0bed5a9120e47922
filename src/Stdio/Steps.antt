-- ===== src/Stdio/Steps.antt =====
-- The directives of `vsprintf` in lib/stdio.c, one at a time.
use native.Mathlib.Nat.{pow-le-pow_right}
use os_learning.Base.{
  ℕ, suc, ◌+◌, ◌-◌, ◌%◌, ◌^◌, ◌<◌, ◌≤◌, ◌≡◌, ◌≢◌, refl, ap, ◌∙◌, ◌⊎◌, inl, inr, true, false, leb,
  ◌==◌, Bool-cases, arith, List, [], ◌∷◌, length,
}
use os_learning.Base.Int.{ℤ, pos, negsuc}
use os_learning.Base.Run.{ok, Returns, ◌>>=◌}
use os_learning.CString.{Ptr, Memory, write, Holds}
use os_learning.CString.Block.{within}
use os_learning.CString.Strings.{Holds-frame, strcpy-Copied, strlen-length}
use os_learning.Stdio.Defs.{itoa}
use os_learning.Stdio.Format.{word, put_string, put_hex, put_decimal, put_letter, Printer}
use os_learning.Stdio.Digits.{digits, itoa-Wrote}
use os_learning.Stdio.Wrote.{Wrote, Wrote-one, Wrote-append, Clear, Bytes-of_Holds}
use os_learning.Stdio.Pieces.{signed, word_of, IsInt, Away, Slot}

-- A buffer from `lo` to `hi`, and the text so far ends at `buf`; outside the buffer the memory is `mem0`.
module _ (lo hi fuel : ℕ) (mem0 : Memory) (start : 0 < lo) (enough : 32 ≤ fuel) (mem : Memory)
    (buf : Ptr) (behind : lo ≤ buf) (clear : Clear hi mem buf)
    (same : (a : Ptr) → (a < lo) ⊎ (hi ≤ a) → mem a ≡ mem0 a) where
  -- the outcome of a directive that writes `xs`
  abbrev pub Puts : (index args : Ptr) → List ℕ → Printer → Type 0
  Puts index args xs (buf1, index1, args1, mem1) =
      (buf1 ≡ buf + length xs)
      × (index1 ≡ index + 1)
      × (args1 ≡ args + 4)
      × Wrote hi mem buf xs mem1

  Away-same : (p : Ptr) (n i : ℕ) → Away lo hi p n → i < n → mem (p + i) ≡ mem0 (p + i)
  Away-same p n i (inl h) less = same (p + i) (inl (omega arith))
  Away-same p n i (inr h) less = same (p + i) (inr (omega arith))

  word-same : (p : Ptr) → Away lo hi p 4 → word mem p ≡ word mem0 p
  word-same p out =
      let e : p + 0 ≡ p = omega arith in
      let first : mem p ≡ mem0 p = rw e at (Away-same p 4 0 out (omega arith)) in
      rw
        (
          first,
          Away-same p 4 1 out (omega arith),
          Away-same p 4 2 out (omega arith),
          Away-same p 4 3 out (omega arith),
        )
        refl

  slot : (args : Ptr) (value : ℕ) → Slot lo hi mem0 args value → word mem (args + 4) ≡ value
  slot args value (e, out) = word-same (args + 4) out ∙ e

  -- `itoa` on a number of 32 bits
  numeral :
      (value base : ℕ) (p : Ptr) (m : Memory)
      → 2 ≤ base
      → value < 2 ^ 32
      → Clear hi m p
      → p + length (digits 32 base value) ≤ hi
      → Returns
          (λ r. (r.0 ≡ p + length (digits 32 base value)) × Wrote hi m p (digits 32 base value) r.1)
          (itoa fuel value base p m)
  numeral value base p m lo2 small free fits =
      let wide : 2 ^ 32 ≤ 2 ^ fuel = pow-le-pow_right (omega arith) enough in
      itoa-Wrote fuel 32 value base hi p m lo2 (omega arith) (omega arith) (omega arith) small free
        fits

  pub put_hex-Puts :
      (value : ℕ) (index args : Ptr)
      → Slot lo hi mem0 args value
      → value < 2 ^ 32
      → buf + length (digits 32 16 value) < hi
      → Returns (Puts index args (digits 32 16 value)) (put_hex fuel buf index args mem)
  unfolding put_hex
  put_hex-Puts value index args arg small fits =
      let (r, run, (end, w)) = numeral value 16 buf mem (omega arith) small clear (omega arith) in
      ((r.0, index + 1, args + 4, r.1), rw (slot args value arg, run), (end, refl, refl, w))

  pub put_decimal-Puts :
      (z : ℤ) (index args : Ptr)
      → Slot lo hi mem0 args (word_of z)
      → IsInt z
      → buf + length (signed z) < hi
      → Returns (Puts index args (signed z)) (put_decimal fuel buf index args mem)
  unfolding put_decimal
  put_decimal-Puts (pos n) index args arg small fits =
      let sign : leb (2 ^ 31) n ≡ false = ground arith in
      let (r, run, (end, w)) =
        numeral n 10 buf mem (omega arith) (omega arith) clear (omega arith) in
      ((r.0, index + 1, args + 4, r.1), rw (slot args n arg, sign, run), (end, refl, refl, w))
  put_decimal-Puts (negsuc n) index args arg small fits =
      let sign : leb (2 ^ 31) (2 ^ 32 - suc n) ≡ true = ground arith in
      let back : (2 ^ 32 - (2 ^ 32 - suc n)) % 2 ^ 32 ≡ suc n = omega arith in
      let m : Memory = write mem buf b'-' in
      let minus = Wrote-one hi mem buf b'-' clear (omega arith) in
      let whole : put_decimal fuel buf index args mem
          ≡ (itoa fuel (suc n) 10 (buf + 1) m >>= λ r. ok (r.0, index + 1, args + 4, r.1)) =
        rw (slot args (2 ^ 32 - suc n) arg, sign, back) refl in
      let (r, run, (end, w)) =
        numeral (suc n) 10 (buf + 1) m (omega arith) (omega arith) minus.clear (omega arith) in
      (
        (r.0, index + 1, args + 4, r.1),
        whole ∙ ap (λ o. o >>= λ r. ok (r.0, index + 1, args + 4, r.1)) run,
        (
          omega (arith, end),
          refl,
          refl,
          Wrote-append hi mem buf (b'-' ∷ []) (digits 32 10 (suc n)) m r.1 (omega arith) minus w,
        ),
      )

  pub put_letter-Puts :
      (c : ℕ) (index args : Ptr)
      → mem0 (args + 4) ≡ c
      → Away lo hi (args + 4) 4
      → buf + 1 < hi
      → Returns (Puts index args (c ∷ [])) (put_letter buf index args mem)
  unfolding put_letter
  put_letter-Puts c index args arg out fits =
      let e : args + 4 + 0 ≡ args + 4 = omega arith in
      let read : mem (args + 4) ≡ c =
        (rw e at (Away-same (args + 4) 4 0 out (omega arith))) ∙ arg in
      (
        (buf + 1, index + 1, args + 4, write mem buf c),
        rw read refl,
        (refl, refl, refl, Wrote-one hi mem buf c clear (omega arith)),
      )

  within-same : (p : Ptr) (n : ℕ) (a : Ptr) → Away lo hi p n → within p n a ≡ true → mem a ≡ mem0 a
  within-same p n a (inl h) i = same a (inl (ground arith))
  within-same p n a (inr h) i = same a (inr (ground arith))

  -- The two strings are apart.
  apart :
      (p : Ptr) (n k : ℕ) (a : Ptr)
      → Away lo hi p n
      → buf + k ≤ hi
      → within p n a ≡ true
      → within buf k a ≡ false
  apart p n k a (inl h) fits i = ground arith
  apart p n k a (inr h) fits i = ground arith

  far : (p : Ptr) (n : ℕ) → buf ≤ hi → Away lo hi p (suc n) → (buf ≤ p) ⊎ (p + n < buf)
  far p n fits (inl h) = inr (omega arith)
  far p n fits (inr h) = inl (omega arith)

  -- A string and its 0 in the buffer are the text and the zeros behind it.
  Wrote-of_copy :
      (xs : List ℕ) (m : Memory)
      → buf + length xs < hi
      → Holds m buf xs
      → ((a : Ptr) → within buf (suc (length xs)) a ≡ false → m a ≡ mem a)
      → Wrote hi mem buf xs m
  Wrote-of_copy xs m fits copy frame =
      let (bytes, full, end) = Bytes-of_Holds m buf xs copy in
      record {
        bytes = bytes;
        frame = λ a out. frame a (outside a out);
        clear = λ a from to. elim (Bool-cases (a == buf + length xs)) [
          | inl last ↦ let here : a ≡ buf + length xs = ground arith in ap m here ∙ end
          | inr other ↦ frame a (ground arith) ∙ clear a (omega arith) to
        ];
      }
    where
      outside : (a : Ptr) → (a < buf) ⊎ (hi ≤ a) → within buf (suc (length xs)) a ≡ false
      outside a (inl h) = ground arith
      outside a (inr h) = ground arith

  pub put_string-Puts :
      (p : Ptr) (xs : List ℕ) (index args : Ptr)
      → Slot lo hi mem0 args p
      → p ≢ 0
      → Holds mem0 p xs
      → length xs < 2 ^ 32
      → length xs < fuel
      → Away lo hi p (suc (length xs))
      → buf + length xs < hi
      → Returns (Puts index args xs) (put_string fuel buf index args mem)
  unfolding put_string
  put_string-Puts p xs index args arg ne held short few out fits =
      let count : length xs + 1 ≡ suc (length xs) = omega arith in
      let here : Holds mem p xs =
        Holds-frame mem0 mem p xs held (λ a i. within-same p _ a out (rw count at i)) in
      let ((dst, m), run, (to, (copy, frame))) =
        strcpy-Copied fuel buf p mem xs here (λ e. absurd (omega arith)) ne few
          (far p _ (omega arith) out) in
      let there : Holds m p xs =
        Holds-frame mem m p xs here
          (λ a i. frame a (apart p _ (suc (length xs)) a out (omega arith) (rw count at i))) in
      (
        (buf + length xs, index + 1, args + 4, m),
        rw (slot args p arg, run, strlen-length m fuel p xs there ne few short),
        (refl, refl, refl, Wrote-of_copy xs m fits copy frame),
      )
