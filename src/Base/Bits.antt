-- ===== src/Base/Bits.antt =====
-- `bit_or` at a variable, by its digits.
use Prim.Native.Nat.{ℕ, zero, suc, ◌+◌, ◌*◌, ◌/◌, ◌%◌, ◌≤◌, max, bit_or, digits, bit_or-bitwise}
use mathlib.Core.Path.{◌≡◌, refl}
use native.Mathlib.Omega.{arith}

-- the digits of `x` and `y` together, `k` of them
abbrev or_digits : ℕ → ℕ → ℕ → ℕ
or_digits k x y = digits (λ y. y) max k x y

-- Any count of digits that is not too small gives the same.
or_digits_count : (x k l y : ℕ) → x ≤ l → x ≤ k → or_digits k x y ≡ or_digits l x y
or_digits_count zero (suc k) (suc l) y hl hk = refl
or_digits_count zero (suc k) zero y hl hk = refl
or_digits_count zero zero (suc l) y hl hk = refl
or_digits_count zero zero zero y hl hk = refl
or_digits_count (suc x) zero l y hl hk = absurd (omega arith)
or_digits_count (suc x) (suc k) zero y hl hk = absurd (omega arith)
or_digits_count (suc x) (suc k) (suc l) y hl hk =
    let halves = or_digits_count (suc x / 2) k l (y / 2) (omega arith) (omega arith) in
    omega (arith, halves)

bit_or_odd : (a b : ℕ) → b % 2 ≡ 1 → bit_or a b ≡ bit_or (a / 2) (b / 2) * 2 + 1
bit_or_odd zero b h =
    let whole = bit_or-bitwise 0 b in
    let half = bit_or-bitwise 0 (b / 2) in omega (arith, whole, half)
bit_or_odd (suc a) b h =
    let whole = bit_or-bitwise (suc a) b in
    let half = bit_or-bitwise (suc a / 2) (b / 2) in
    omega (
      arith,
      whole,
      half,
      or_digits_count (suc a / 2) a (suc a / 2) (b / 2) (omega arith) (omega arith),
    )

or_digits-zero : (n a : ℕ) → a ≤ n → or_digits n a 0 ≡ a
or_digits-zero zero zero h = refl
or_digits-zero (suc n) zero h = refl
or_digits-zero zero (suc a) h = absurd (omega arith)
or_digits-zero (suc n) (suc a) h = omega (arith, or_digits-zero n (suc a / 2) (omega arith))

bit_or-zero : (a : ℕ) → bit_or a 0 ≡ a
bit_or-zero a = omega (arith, bit_or-bitwise a 0, or_digits-zero a a (omega arith))

-- the three low bits set
pub bit_or_seven : (a : ℕ) → bit_or a 7 ≡ a / 8 * 8 + 7
bit_or_seven a = omega (
  arith,
  bit_or_odd a 7 refl,
  bit_or_odd (a / 2) 3 refl,
  bit_or_odd (a / 2 / 2) 1 refl,
  bit_or-zero (a / 2 / 2 / 2),
)
