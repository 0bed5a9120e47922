-- ===== src/Stdio/Digits.antt =====
-- The numerals that `itoa` of lib/stdio.c writes, as lists.
use native.Mathlib.Nat.{div-add-mod', mod-lt, mul-le-mul_left, pow-suc}
use mathlib.Core.Path.{subst}
use os_learning.Base.{
  ℕ, zero, suc, ◌+◌, ◌-◌, ◌*◌, ◌/◌, ◌%◌, ◌^◌, ◌<◌, ◌≤◌, ◌≡◌, ◌≢◌, refl, sym, ap, ap₂, ◌∙◌, inl, inr,
  true, false, ltb, ◌==◌, if◌then◌else◌, Bool-cases, arith, List, [], ◌∷◌, ◌++◌, All, All-append,
  length, length-append,
}
use os_learning.Base.Run.{Returns}
use os_learning.CString.{Ptr, Memory, write}
use os_learning.Stdio.Defs.{digit_char, itoa}
use os_learning.Stdio.Wrote.{Wrote, Wrote-one, Wrote-append, Clear}

-- the digits of a value, of which `places` are enough
unfoldable pub digits : (places base value : ℕ) → List ℕ
unfolding digit_char
digits zero base value = []
digits (suc places) base value =
    let above = digits places base (value / base) in
    (if value / base == 0 then [] else above) ++ (digit_char (value % base) ∷ [])

-- The quotient has a place less.
quotient-lt :
    (base value places : ℕ) → 2 ≤ base → value < 2 ^ suc places → value / base < 2 ^ places
quotient-lt base value places lo h =
    let sum = div-add-mod' value base in
    let twice = mul-le-mul_left (value / base) lo in omega (arith, pow-suc 2 places)

some_places : (n places : ℕ) → (n == 0) ≡ false → n < 2 ^ places → 0 < places
some_places n zero ne h = let none : n ≡ 0 = omega arith in absurd (ground arith)
some_places n (suc places) ne h = omega arith

digits-one :
    (places base value : ℕ)
    → (value / base == 0) ≡ true
    → digits (suc places) base value ≡ digit_char (value % base) ∷ []
unfolding digits
digits-one places base value e = rw e

digits-more :
    (places base value : ℕ)
    → (value / base == 0) ≡ false
    → digits (suc places) base value
      ≡ digits places base (value / base) ++ (digit_char (value % base) ∷ [])
unfolding digits
digits-more places base value e = rw e

-- one more character behind `xs`
Wrote-last :
    (hi : ℕ) (mem : Memory) (p : Ptr) (xs : List ℕ) (c : ℕ) (q : Ptr) (mem1 : Memory)
    → p + length (xs ++ (c ∷ [])) ≤ hi
    → q ≡ p + length xs
    → Wrote hi mem p xs mem1
    → (q + 1 ≡ p + length (xs ++ (c ∷ []))) × Wrote hi mem p (xs ++ (c ∷ [])) (write mem1 q c)
Wrote-last hi mem p xs c q mem1 fits end w =
    let sum = length-append xs (c ∷ []) in
    let here : p + length xs ≡ q = sym end in
    (
      omega (arith, sum),
      Wrote-append hi mem p xs (c ∷ []) mem1 (write mem1 q c) (omega (arith, sum)) w
          (rw here (Wrote-one hi mem1 q c (rw here at w.clear) (omega (arith, sum)))),
    )

-- With rounds and places enough for the value, `itoa` writes its digits.
pub itoa-Wrote :
    (fuel places value base hi : ℕ) (p : Ptr) (mem : Memory)
    → 2 ≤ base
    → 0 < fuel
    → 0 < places
    → value < 2 ^ fuel
    → value < 2 ^ places
    → Clear hi mem p
    → p + length (digits places base value) ≤ hi
    → Returns
        (λ r.
          (r.0 ≡ p + length (digits places base value))
          × Wrote hi mem p (digits places base value) r.1)
        (itoa fuel value base p mem)
unfolding itoa
itoa-Wrote zero places value base hi p mem lo f g hf hg clear fits = absurd (omega arith)
itoa-Wrote (suc fuel) zero value base hi p mem lo f g hf hg clear fits = absurd (omega arith)
itoa-Wrote (suc fuel) (suc places) value base hi p mem lo f g hf hg clear fits =
    let some_base : (base == 0) ≡ false = ground arith in
    let c : ℕ = digit_char (value % base) in
    elim (Bool-cases (value / base == 0)) [
      | inl last ↦
          let one = digits-one places base value last in
          let room : p + 1 ≤ hi = rw one at fits in
          (
            (p + 1, write mem p c),
            rw (some_base, last, itoa),
            rw one (refl, Wrote-one hi mem p c clear (omega arith)),
          )
      | inr more ↦
          let xs : List ℕ = digits places base (value / base) in
          let form = digits-more places base value more in
          let few = quotient-lt base value fuel lo hf in
          let short = quotient-lt base value places lo hg in
          let total : p + length (xs ++ (c ∷ [])) ≤ hi = rw form at fits in
          let ((q, mem1), run, (end, w)) =
            itoa-Wrote fuel places (value / base) base hi p mem lo (some_places _ fuel more few)
              (some_places _ places more short) few short clear
              (omega (arith, length-append xs (c ∷ []))) in
          (
            (q + 1, write mem1 q c),
            rw (some_base, more, run, itoa),
            subst (λ ds. (q + 1 ≡ p + length ds) × Wrote hi mem p ds (write mem1 q c)) (sym form)
                (Wrote-last hi mem p xs c q mem1 total end w),
          )
    ]

-- what digits mean: the value of a numeral, the first digit highest
abbrev pub char_value : ℕ → ℕ
char_value c = if ltb c 58 then c - 48 else c - 55

abbrev pub value_from : (acc base : ℕ) → List ℕ → ℕ
value_from acc base [] = acc
value_from acc base (c ∷ cs) = value_from (acc * base + char_value c) base cs

value_from-snoc :
    (acc base : ℕ) (cs : List ℕ) (c : ℕ)
    → value_from acc base (cs ++ (c ∷ [])) ≡ value_from acc base cs * base + char_value c
value_from-snoc acc base [] c = refl
value_from-snoc acc base (d ∷ cs) c = value_from-snoc (acc * base + char_value d) base cs c

-- each is a digit below the base
abbrev pub IsDigit : (base c : ℕ) → Type 0
IsDigit base c = (c ≢ 0) × (char_value c < base)

digit_char-IsDigit :
    (m base : ℕ)
    → m < base
    → base ≤ 36
    → IsDigit base (digit_char m) × (char_value (digit_char m) ≡ m)
unfolding digit_char
digit_char-IsDigit m base h hi = ground arith

pub digits-value :
    (places base value : ℕ)
    → 2 ≤ base
    → base ≤ 36
    → 0 < places
    → value < 2 ^ places
    → All (IsDigit base) (digits places base value)
      × (value_from 0 base (digits places base value) ≡ value)
digits-value zero base value lo hi g h = absurd (omega arith)
digits-value (suc places) base value lo hi g h =
    let low : value % base < base = mod-lt value (omega arith) in
    let c : ℕ = digit_char (value % base) in
    let (digit, same) = digit_char-IsDigit (value % base) base low hi in
    let sum = div-add-mod' value base in
    let P : List ℕ → Type 0 = λ ds. All (IsDigit base) ds × (value_from 0 base ds ≡ value) in
    elim (Bool-cases (value / base == 0)) [
      | inl last ↦
          let none : value / base ≡ 0 = ground arith in
          let alone : 0 * base + value % base ≡ value = rw none at sum in
          subst P (sym (digits-one places base value last))
            ((digit, tt), ap (λ d. 0 * base + d) same ∙ alone)
      | inr more ↦
          let xs : List ℕ = digits places base (value / base) in
          let short = quotient-lt base value places lo h in
          let (all, whole) =
            digits-value places base (value / base) lo hi (some_places _ places more short) short in
          subst P (sym (digits-more places base value more)) (
            All-append (IsDigit base) xs (c ∷ []) all (digit, tt),
            value_from-snoc 0 base xs c ∙ ap₂ (λ k d. k * base + d) whole same ∙ sum,
          )
    ]
