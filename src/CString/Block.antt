-- ===== src/CString/Block.antt =====
-- `memset`, `memcpy` and `memcmp` of lib/string.c.
use os_learning.Base.{
  ℕ, zero, suc, ◌+◌, ◌-◌, ◌≤◌, ◌<◌, ◌≡◌, refl, ap, Bool-cases, ◌≢◌, ◌⊎◌, inl, inr, Bool, ◌&&◌,
  arith, ltb, leb, ◌==◌, if◌then◌else◌,
}
use native.Mathlib.Decide.{ℕ_discrete, dec_lt}
use native.Mathlib.Nat.{add-zero}
use os_learning.Base.Int.{ℤ, pos, negsuc}
use os_learning.Base.Run.{Returns}
use os_learning.CString.Defs.{
  Ptr, null, Memory, write, char_lt, memset_loop, memset, memcpy_loop, memcpy, memcmp_loop, memcmp,
}

-- `a` lies in the block of `size` bytes at `p`
abbrev pub within : (p : Ptr) (size : ℕ) (a : Ptr) → Bool
within p size a = leb p a && ltb a (p + size)

pub memset_loop-within :
    (dst : Ptr) (value size : ℕ) (m : Memory) (a : Ptr)
    → memset_loop dst value size m a ≡ (if within dst size a then value else m a)
unfolding memset_loop
memset_loop-within dst value zero m a = ground arith
memset_loop-within dst value (suc size) m a =
    ground (arith, memset_loop-within (dst + 1) value size (write m dst value) a)

-- `memset` writes the value to each byte of the block, and to no other.
pub memset-within :
    (dst : Ptr) (value size : ℕ) (m : Memory)
    → dst ≢ null
    → Returns
        (λ m'. (a : Ptr) → m' a ≡ (if within dst size a then value else m a))
        (memset dst value size m)
unfolding memset
memset-within dst value size m ne =
    (memset_loop dst value size m, ground arith, memset_loop-within dst value size m)

pub memcpy_loop-within :
    (dst src : Ptr) (size : ℕ) (m : Memory) (a : Ptr)
    → (dst ≤ src) ⊎ (src + size ≤ dst)
    → memcpy_loop dst src size m a ≡ (if within dst size a then m (src + (a - dst)) else m a)
unfolding memcpy_loop
memcpy_loop-within dst src zero m a far = ground arith
memcpy_loop-within dst src (suc size) m a far =
    let rest = memcpy_loop-within (dst + 1) (src + 1) size (write m dst (m src)) a (split far) in
    elim (ℕ_discrete dst a) [
      | yes e ↦ let q : src + (a - dst) ≡ src = omega arith in rw q (ground (arith, rest))
      | no ne ↦ elim (dec_lt dst a) [
        | yes lt ↦
            let q : src + 1 + (a - (dst + 1)) ≡ src + (a - dst) = omega arith in
            let r : (src + 1 + (a - (dst + 1)) ≢ dst) ⊎ (dst + size < a) =
              elim (dec_lt (dst + size) a) [ yes p ↦ inr p | no n ↦ inl (omega arith) ] in
            ground (arith, rest, ap m q, r)
        | no ge ↦ ground (arith, rest)
      ]
    ]
  where
    split : (dst ≤ src) ⊎ (src + suc size ≤ dst) → (dst + 1 ≤ src + 1) ⊎ (src + 1 + size ≤ dst + 1)
    split (inl h) = inl (omega arith)
    split (inr h) = inr (omega arith)

-- For pointers that are not NULL, `memcpy` copies each byte of the block and writes no other, where
-- the destination does not begin behind the source, or begins behind its end.
pub memcpy-within :
    (dst src : Ptr) (size : ℕ) (m : Memory)
    → dst ≢ null
    → src ≢ null
    → (dst ≤ src) ⊎ (src + size ≤ dst)
    → Returns
        (λ m'. (a : Ptr) → m' a ≡ (if within dst size a then m (src + (a - dst)) else m a))
        (memcpy dst src size m)
unfolding memcpy
memcpy-within dst src size m ne ne' far =
    (memcpy_loop dst src size m, ground arith, λ a. memcpy_loop-within dst src size m a far)

-- The blocks differ first at byte `k`, and `r` is the sign of the difference there.
abbrev pub Differs : Memory → (a b : Ptr) (size : ℕ) → ℤ → Type 0
Differs m a b size r =
    (k : ℕ) × (k < size)
    × ((i : ℕ) → i < k → m (a + i) ≡ m (b + i))
    × (m (a + k) ≢ m (b + k))
    × (r ≡ (if char_lt (m (b + k)) (m (a + k)) then pos 1 else negsuc 0))

-- What `memcmp` answers of two blocks.
abbrev pub Compared : Memory → (a b : Ptr) (size : ℕ) → ℤ → Type 0
Compared m a b size r =
    ((r ≡ pos 0) × ((i : ℕ) → i < size → m (a + i) ≡ m (b + i))) ⊎ Differs m a b size r

-- one byte further on both sides
module _ (m : Memory) (a b : Ptr) (same : m a ≡ m b) where
  equal_before :
      (n : ℕ)
      → ((i : ℕ) → i < n → m (a + 1 + i) ≡ m (b + 1 + i))
      → (i : ℕ) → i < suc n
      → m (a + i) ≡ m (b + i)
  equal_before n all zero h = ground (arith, same, ap m (add-zero a), ap m (add-zero b))
  equal_before n all (suc i) h =
      let p : a + 1 + i ≡ a + suc i = omega arith in
      let q : b + 1 + i ≡ b + suc i = omega arith in rw (← p, ← q) (all i (omega arith))

  Compared-next :
      (size : ℕ) (r : ℤ) → Compared m (a + 1) (b + 1) size r → Compared m a b (suc size) r
  Compared-next size r (inl (e, all)) = inl (e, equal_before size all)
  Compared-next size r (inr (k, lt, all, ne, e)) =
      let p : a + 1 + k ≡ a + suc k = omega arith in
      let q : b + 1 + k ≡ b + suc k = omega arith in
      inr (suc k, omega arith, equal_before k all, rw (p, q) at ne, rw (p, q) at e)

memcmp_loop-Compared :
    (a b : Ptr) (size : ℕ) (m : Memory) → Compared m a b size (memcmp_loop a b size m)
unfolding memcmp_loop
memcmp_loop-Compared a b zero m = inl (refl, λ i h. absurd (omega arith))
memcmp_loop-Compared a b (suc size) m = elim (Bool-cases (m a == m b)) [
  | inr ne ↦ rw ne (
      inr (
        0,
        omega arith,
        (λ i h. absurd (omega arith)),
        rw (add-zero a, add-zero b) (ground arith),
        rw (add-zero a, add-zero b),
      ))
  | inl same ↦
      rw same
        (Compared-next m a b (ground arith) size _ (memcmp_loop-Compared (a + 1) (b + 1) size m))
]

-- `memcmp` answers 0 for equal blocks, and else the sign of the first difference, as of signed
-- characters, where one of the pointers at least is not NULL.
pub memcmp-Compared :
    (a b : Ptr) (size : ℕ) (m : Memory)
    → (a ≢ null) ⊎ (b ≢ null)
    → Returns (Compared m a b size) (memcmp a b size m)
unfolding memcmp
memcmp-Compared a b size m ne =
    (memcmp_loop a b size m, ground arith, memcmp_loop-Compared a b size m)
