-- ===== src/CString/Search.antt =====
-- `strchr`, `strrchr` and `strchrs` of lib/string.c.
use mathlib.Core.Path.{subst}
use native.Mathlib.Nat.{add-zero}
use os_learning.Base.{
  ℕ, zero, suc, ◌+◌, ◌%◌, ◌^◌, ◌≤◌, ◌<◌, ◌≡◌, refl, ◌∙◌, ◌≢◌, ◌⊎◌, inl, inr, Bool, true, false,
  Option, none, some, List, [], ◌∷◌, arith, ◌==◌, Bool-cases, if◌then◌else◌, length,
}
use os_learning.Base.Run.{ok, Returns}
use os_learning.CString.Defs.{
  Ptr, null, Memory, byte_is_char, strchr_loop, strchr, strrchr_loop, strrchr, strchrs_loop,
  strchrs, Holds,
}

-- Among the `n` bytes at `p` the first that satisfies the test is at `q`, or there is none.
abbrev pub FirstAt : (ℕ → Bool) → Memory → Ptr → ℕ → Option Ptr → Type 0
FirstAt test m p n none = (i : ℕ) → i < n → test (m (p + i)) ≡ false
FirstAt test m p n (some q) =
    (k : ℕ) × (k < n)
    × (q ≡ p + k)
    × (test (m q) ≡ true)
    × ((i : ℕ) → i < k → test (m (p + i)) ≡ false)

-- The same for the last.
abbrev pub LastAt : (ℕ → Bool) → Memory → Ptr → ℕ → Option Ptr → Type 0
LastAt test m p n none = (i : ℕ) → i < n → test (m (p + i)) ≡ false
LastAt test m p n (some q) =
    (k : ℕ) × (k < n)
    × (q ≡ p + k)
    × (test (m q) ≡ true)
    × ((i : ℕ) → k < i → i < n → test (m (p + i)) ≡ false)

module _ (test : ℕ → Bool) (m : Memory) (p : Ptr) where
  -- a fact of the bytes behind `p` and of the byte at `p`
  miss-cons :
      (n : ℕ)
      → test (m p) ≡ false
      → ((i : ℕ) → i < n → test (m (p + 1 + i)) ≡ false)
      → (i : ℕ) → i < suc n
      → test (m (p + i)) ≡ false
  miss-cons n e all zero h = rw add-zero e
  miss-cons n e all (suc i) h =
      let q : p + 1 + i ≡ p + suc i = omega arith in rw (← q) (all i (omega arith))

  FirstAt-miss :
      (n : ℕ) (r : Option Ptr)
      → test (m p) ≡ false
      → FirstAt test m (p + 1) n r
      → FirstAt test m p (suc n) r
  FirstAt-miss n none e all = miss-cons n e all
  FirstAt-miss n (some q) e (k, lt, eq, hit, all) =
      (suc k, omega arith, omega arith, hit, miss-cons k e all)

strchr_loop-FirstAt :
    (fuel : ℕ) (p : Ptr) (ch : ℕ) (m : Memory) (xs : List ℕ)
    → Holds m p xs
    → length xs < fuel
    → Returns (FirstAt (λ c. c == ch) m p (length xs)) (strchr_loop fuel p ch m)
unfolding strchr_loop
strchr_loop-FirstAt zero p ch m xs h f = absurd (omega arith)
strchr_loop-FirstAt (suc fuel) p ch m [] h f =
    (none, ground (arith, h), λ i lt. absurd (omega arith))
strchr_loop-FirstAt (suc fuel) p ch m (x ∷ xs) h f = elim (Bool-cases (m p == ch)) [
  | inl hit ↦ (
    some p,
    ground (arith, h, hit),
    (0, omega arith, omega arith, hit, λ i lt. absurd (omega arith)),
  )
  | inr miss ↦
      let (r, run, at) = strchr_loop-FirstAt fuel (p + 1) ch m xs h.2 (omega arith) in
      (r, ground (arith, h, miss, run), FirstAt-miss (λ c. c == ch) m p (length xs) r miss at)
]

-- `strchr` finds the first byte of a string that is `ch`, and answers NULL where there is none.
pub strchr-FirstAt :
    (fuel : ℕ) (p : Ptr) (ch : ℕ) (m : Memory) (xs : List ℕ)
    → Holds m p xs
    → p ≢ null
    → length xs < fuel
    → Returns (FirstAt (λ c. c == ch) m p (length xs)) (strchr fuel p ch m)
unfolding strchr
strchr-FirstAt fuel p ch m xs h ne f =
    let (r, run, at) = strchr_loop-FirstAt fuel p ch m xs h f in (r, ground (arith, run), at)

-- The answer `r` of the search among the `n` bytes at `p`, where `last` was the last hit before them.
abbrev LastOr : (ℕ → Bool) → Memory → Ptr → ℕ → (last r : Option Ptr) → Type 0
LastOr test m p n last r =
    ((r ≡ last) × LastAt test m p n none) ⊎ ((q : Ptr) × (r ≡ some q) × LastAt test m p n (some q))

module _ (test : ℕ → Bool) (m : Memory) (p : Ptr) where
  behind :
      (k n : ℕ)
      → ((i : ℕ) → k < i → i < n → test (m (p + 1 + i)) ≡ false)
      → (i : ℕ) → suc k < i
      → i < suc n
      → test (m (p + i)) ≡ false
  behind k n all zero lo hi = absurd (omega arith)
  behind k n all (suc i) lo hi =
      let q : p + 1 + i ≡ p + suc i = omega arith in rw (← q) (all i (omega arith) (omega arith))

  only :
      (n : ℕ)
      → ((i : ℕ) → i < n → test (m (p + 1 + i)) ≡ false)
      → (i : ℕ) → 0 < i
      → i < suc n
      → test (m (p + i)) ≡ false
  only n all zero lo hi = absurd (omega arith)
  only n all (suc i) lo hi =
      let q : p + 1 + i ≡ p + suc i = omega arith in rw (← q) (all i (omega arith))

  LastOr-cons :
      (n : ℕ) (last r : Option Ptr)
      → LastOr test m (p + 1) n (if test (m p) then some p else last) r
      → LastOr test m p (suc n) last r
  LastOr-cons n last r (inr (q, e, (k, lt, eq, hit, all))) =
      inr (q, e, (suc k, omega arith, omega arith, hit, behind k n all))
  LastOr-cons n last r (inl (e, all)) = elim (Bool-cases (test (m p))) [
    | inl hit ↦ inr (p, e ∙ rw hit, (0, omega arith, omega arith, hit, only n all))
    | inr miss ↦ inl (e ∙ rw miss, miss-cons test m p n miss all)
  ]

strrchr_loop-LastOr :
    (fuel : ℕ) (p : Ptr) (ch : ℕ) (last : Option Ptr) (m : Memory) (xs : List ℕ)
    → Holds m p xs
    → length xs < fuel
    → Returns (LastOr (byte_is_char ch) m p (length xs) last) (strrchr_loop fuel p ch last m)
unfolding strrchr_loop
strrchr_loop-LastOr zero p ch last m xs h f = absurd (omega arith)
strrchr_loop-LastOr (suc fuel) p ch last m [] h f =
    (last, ground (arith, h), inl (refl, λ i lt. absurd (omega arith)))
strrchr_loop-LastOr (suc fuel) p ch last m (x ∷ xs) h f =
    let (r, run, at) = strrchr_loop-LastOr fuel (p + 1) ch _ m xs h.2 (omega arith) in
    (r, ground (arith, h, run), LastOr-cons (byte_is_char ch) m p (length xs) last r at)

-- `strrchr` finds the last byte of a string that is equal to `ch` as a signed character, and answers
-- NULL where there is none.
pub strrchr-LastAt :
    (fuel : ℕ) (p : Ptr) (ch : ℕ) (m : Memory) (xs : List ℕ)
    → Holds m p xs
    → p ≢ null
    → length xs < fuel
    → Returns (LastAt (byte_is_char ch) m p (length xs)) (strrchr fuel p ch m)
unfolding strrchr
strrchr-LastAt fuel p ch m xs h ne f =
    let (r, run, at) = strrchr_loop-LastOr fuel p ch none m xs h f in
    (r, ground (arith, run), found r at)
  where
    found :
        (r : Option Ptr)
        → LastOr (byte_is_char ch) m p (length xs) none r
        → LastAt (byte_is_char ch) m p (length xs) r
    found none (inl (e, all)) = all
    found none (inr (q, e, at)) = absurd (cc)
    found (some s) (inl (e, all)) = absurd (cc)
    found (some s) (inr (q, e, at)) =
        let same : q ≡ s = cc in
        subst (λ u. LastAt (byte_is_char ch) m p (length xs) (some u)) same at

-- For a `ch` of 128 or more `strrchr` answers NULL whatever the string holds: the `uint8_t` is never
-- equal to a negative `char`.
pub strrchr_high :
    (fuel : ℕ) (p : Ptr) (ch : ℕ) (m : Memory) (xs : List ℕ)
    → Holds m p xs
    → p ≢ null
    → length xs < fuel
    → 128 ≤ ch
    → strrchr fuel p ch m ≡ ok none
unfolding strrchr
strrchr_high fuel p ch m xs h ne f high = ground (arith, loop fuel p xs h f)
  where
    loop :
        (fuel : ℕ) (p : Ptr) (xs : List ℕ)
        → Holds m p xs
        → length xs < fuel
        → strrchr_loop fuel p ch none m ≡ ok none
    loop zero p xs h f = absurd (omega arith)
    loop (suc fuel) p [] h f = unfold strrchr_loop in ground (arith, h)
    loop (suc fuel) p (x ∷ xs) h f =
        unfold strrchr_loop in ground (arith, h, loop fuel (p + 1) xs h.2 (omega arith))

-- the number of bytes that are equal to `ch` as signed characters
abbrev pub count_chars : ℕ → List ℕ → ℕ
count_chars ch [] = 0
count_chars ch (x ∷ xs) = (if byte_is_char ch x then 1 else 0) + count_chars ch xs

strchrs_loop-count :
    (fuel : ℕ) (p : Ptr) (ch cnt : ℕ) (m : Memory) (xs : List ℕ)
    → Holds m p xs
    → length xs < fuel
    → cnt + length xs < 2 ^ 32
    → strchrs_loop fuel p ch cnt m ≡ ok (cnt + count_chars ch xs)
unfolding strchrs_loop
strchrs_loop-count zero p ch cnt m xs h f small = absurd (omega arith)
strchrs_loop-count (suc fuel) p ch cnt m [] h f small = ground (arith, h)
strchrs_loop-count (suc fuel) p ch cnt m (x ∷ xs) h f small =
    elim (Bool-cases (byte_is_char ch (m p))) [
      | inl hit ↦ ground (
        arith,
        h,
        hit,
        strchrs_loop-count fuel (p + 1) ch ((cnt + 1) % 2 ^ 32) m xs h.2 (omega arith)
            (omega arith),
      )
      | inr miss ↦ ground (
        arith,
        h,
        miss,
        strchrs_loop-count fuel (p + 1) ch cnt m xs h.2 (omega arith) (omega arith),
      )
    ]

-- `strchrs` counts the bytes of a string that are equal to `ch` as signed characters.
pub strchrs-count_chars :
    (fuel : ℕ) (p : Ptr) (ch : ℕ) (m : Memory) (xs : List ℕ)
    → Holds m p xs
    → p ≢ null
    → length xs < fuel
    → length xs < 2 ^ 32
    → strchrs fuel p ch m ≡ ok (count_chars ch xs)
unfolding strchrs
strchrs-count_chars fuel p ch m xs h ne f small =
    ground (arith, strchrs_loop-count fuel p ch 0 m xs h f (omega arith))
