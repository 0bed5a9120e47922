-- ===== src/Stdio/Itoa.antt =====
-- What `itoa` of lib/stdio.c prints.
use native.Mathlib.Nat.{div-add-mod', mod-lt, mul-le-mul_left}
use mathlib.Core.Path.{subst}
use os_learning.Base.{
  ℕ, zero, suc, ◌+◌, ◌-◌, ◌*◌, ◌/◌, ◌%◌, ◌<◌, ◌≤◌, ◌≡◌, refl, sym, ap, ap₂, ◌∙◌, ◌≢◌, ◌⊎◌, inl, inr,
  false, ltb, ◌==◌, if◌then◌else◌, Bool-cases, arith,
}
use os_learning.Base.Run.{Returns}
use os_learning.CString.{Ptr, Memory, write}
use os_learning.Stdio.Defs.{digit_char, itoa}

-- The value of a digit, and of `n` of them from `p` on.
abbrev pub char_value : ℕ → ℕ
char_value c = if ltb c 58 then c - 48 else c - 55

abbrev pub number : (base : ℕ) → Memory → Ptr → (n : ℕ) → ℕ
number base mem p zero = 0
number base mem p (suc n) = number base mem p n * base + char_value (mem (p + n))

-- `n` characters have been written at `p`: they are a number's, with no 0 in front of another digit, and
-- nothing else has changed.
pub record Printed (base value : ℕ) (p : Ptr) (mem : Memory) (n : ℕ) (r : Ptr × Memory)
    : Type 0 where
  pub end : r.0 ≡ p + n
  pub some_digits : 0 < n
  pub value_of : number base r.1 p n ≡ value
  pub no_zero : 0 < value → char_value (r.1 p) ≢ 0
  pub frame : (a : Ptr) → (a < p) ⊎ (p + n ≤ a) → r.1 a ≡ mem a

digit_char-value : (m : ℕ) → m < 36 → char_value (digit_char m) ≡ m
unfolding digit_char
digit_char-value m h = ground arith

number-frame :
    (base : ℕ) (mem mem' : Memory) (p : Ptr) (n : ℕ)
    → ((a : Ptr) → a < p + n → mem' a ≡ mem a)
    → number base mem' p n ≡ number base mem p n
number-frame base mem mem' p zero same = refl
number-frame base mem mem' p (suc n) same =
    ap₂ ◌+◌ (ap (λ k. k * base) (number-frame base mem mem' p n (λ a h. same a (omega arith))))
      (ap char_value (same (p + n) (omega arith)))

-- one more digit behind those of the quotient
Printed-digit :
    (base value : ℕ) (p : Ptr) (mem : Memory) (n : ℕ) (mem1 : Memory)
    → 2 ≤ base
    → base ≤ 36
    → 0 < value / base
    → Printed base (value / base) p mem n (p + n, mem1)
    → Printed base value p mem (suc n) (p + n + 1, write mem1 (p + n) (digit_char (value % base)))
Printed-digit base value p mem n mem1 lo hi more w =
    let mem2 = write mem1 (p + n) (digit_char (value % base)) in
    let low : value % base < base = mod-lt value (omega arith) in
    let same : (a : Ptr) → a < p + n → mem2 a ≡ mem1 a = λ a h. ground arith in
    let last : mem2 (p + n) ≡ digit_char (value % base) = ground arith in
    record {
      end = omega arith;
      some_digits = omega arith;
      value_of =
          ap₂ (λ k c. k * base + char_value c) (number-frame base mem1 mem2 p n same ∙ w.value_of)
            last
          ∙ ap (λ d. value / base * base + d) (digit_char-value (value % base) (omega arith))
          ∙ div-add-mod' value base;
      no_zero = λ pos.
          λ e. w.no_zero more (ap char_value (sym (same p (omega (arith, w.some_digits)))) ∙ e);
      frame = λ a out. rw (apart a out) (w.frame a (nearer a out));
    }
  where
    apart : (a : Ptr) → (a < p) ⊎ (p + suc n ≤ a) → (p + n == a) ≡ false
    apart a (inl h) = ground arith
    apart a (inr h) = ground arith

    nearer : (a : Ptr) → (a < p) ⊎ (p + suc n ≤ a) → (a < p) ⊎ (p + n ≤ a)
    nearer a (inl h) = inl h
    nearer a (inr h) = inr (omega arith)

-- the only digit of a number below the base
Printed-one :
    (base value : ℕ) (p : Ptr) (mem : Memory)
    → 2 ≤ base
    → base ≤ 36
    → value < base
    → Printed base value p mem 1 (p + 1, write mem p (digit_char value))
Printed-one base value p mem lo hi h =
    let z : p + 0 ≡ p = omega arith in
    let here : write mem p (digit_char value) p ≡ digit_char value = ground arith in
    let digit : char_value (write mem p (digit_char value) p) ≡ value =
      ap char_value here ∙ digit_char-value value (omega arith) in
    record {
      end = refl;
      some_digits = omega arith;
      value_of = rw z (ap (λ d. 0 * base + d) digit ∙ omega arith);
      no_zero = λ pos. λ e. absurd (omega arith);
      frame = λ a out. rw (apart a out);
    }
  where
    apart : (a : Ptr) → (a < p) ⊎ (p + 1 ≤ a) → (p == a) ≡ false
    apart a (inl h) = ground arith
    apart a (inr h) = ground arith

-- With more rounds than the value, `itoa` in a base from 2 to 36 returns the place behind the `n`
-- characters that it has written: as digits of the base they are the value, the first is not 0
-- unless the value is, and no other byte has changed.
pub itoa-Printed :
    (fuel value base : ℕ) (p : Ptr) (mem : Memory)
    → value < fuel
    → 2 ≤ base
    → base ≤ 36
    → Returns (λ r. (n : ℕ) × Printed base value p mem n r) (itoa fuel value base p mem)
unfolding itoa
itoa-Printed zero value base p mem h lo hi = absurd (omega arith)
itoa-Printed (suc fuel) value base p mem h lo hi =
    let some_base : (base == 0) ≡ false = ground arith in
    let sum = div-add-mod' value base in
    let twice = mul-le-mul_left (value / base) lo in
    let low : value % base < base = mod-lt value (omega arith) in
    elim (Bool-cases (value / base == 0)) [
      | inl last ↦
          let none_above : value / base ≡ 0 = ground arith in
          let alone : 0 * base + value % base ≡ value = rw none_above at sum in
          let small : value % base ≡ value = omega arith in
          (
            (p + 1, write mem p (digit_char (value % base))),
            rw (some_base, last, itoa),
            (1, rw small (Printed-one base value p mem lo hi (rw small at low))),
          )
      | inr more ↦
          let ((q, mem1), run, (n, w)) =
            itoa-Printed fuel (value / base) base p mem (ground arith) lo hi in
          (
            (q + 1, write mem1 q (digit_char (value % base))),
            rw (some_base, more, run, itoa),
            (
              suc n,
              subst
                  (λ q'.
                    Printed base value p mem (suc n)
                      (q' + 1, write mem1 q' (digit_char (value % base))))
                  (sym w.end)
                  (Printed-digit base value p mem n mem1 lo hi (ground arith) (record {
                    end = refl;
                    some_digits = w.some_digits;
                    value_of = w.value_of;
                    no_zero = w.no_zero;
                    frame = w.frame;
                  })),
            ),
          )
    ]
