-- ===== src/Memory/Malloc/Counts.antt =====
-- Blocks of one arena in a list of blocks.
use os_learning.Base.{
  ℕ, ◌+◌, ◌<◌, ◌≡◌, ◌≢◌, refl, sym, ap, ◌∙◌, inl, inr, Bool-cases, true, false, not, ◌&&◌, List, [],
  ◌∷◌, ◌++◌, arith, ◌==◌, if◌then◌else◌, has, Distinct, Distinct-of_parts,
}
use os_learning.Memory.Arena.{block2arena}
use os_learning.Memory.Malloc.Defs.{without}

-- how many of the list lie in arena `a`
unfoldable pub count_in : (a : ℕ) → List ℕ → ℕ
count_in a [] = 0
count_in a (x ∷ xs) = (if block2arena x == a then 1 else 0) + count_in a xs

pub count_in-append :
    (a : ℕ) (xs ys : List ℕ) → count_in a (xs ++ ys) ≡ count_in a xs + count_in a ys
unfolding count_in
count_in-append a [] ys = omega arith
count_in-append a (x ∷ xs) ys = omega (arith, count_in-append a xs ys)

-- A block that is in the list counts for its arena.
pub count_in-pos : (x : ℕ) (xs : List ℕ) → has x xs ≡ true → 0 < count_in (block2arena x) xs
unfolding count_in
count_in-pos x [] h = cc
count_in-pos x (y ∷ xs) h = elim (Bool-cases (x == y)) [
  | inl here ↦
      let e : x ≡ y = ground arith in
      let self : (block2arena y == block2arena x) ≡ true = rw e (ground arith) in
      rw self (omega arith)
  | inr there ↦ let rest = count_in-pos x xs (ground (arith, h, there)) in omega (arith, rest)
]

pub count_in-zero :
    (a : ℕ) (xs : List ℕ) → ((x : ℕ) → has x xs ≡ true → block2arena x ≢ a) → count_in a xs ≡ 0
unfolding count_in
count_in-zero a [] h = refl
count_in-zero a (x ∷ xs) h =
    let apart : (block2arena x == a) ≡ false = ground (arith, h x) in
    let rest = count_in-zero a xs (λ y inside. h y (ground (arith, inside))) in
    rw apart (omega (arith, rest))

pub has-without : (b x : ℕ) (l : List ℕ) → has x (without b l) ≡ (not (x == b) && has x l)
has-without b x [] = ground arith
has-without b x (y ∷ l) = ground (arith, has-without b x l)

pub without-same : (b : ℕ) (l : List ℕ) → has b l ≡ false → without b l ≡ l
without-same b [] h = refl
without-same b (y ∷ l) h =
    let apart : (y == b) ≡ false = ground (arith, h) in
    rw apart (ap (λ r. y ∷ r) (without-same b l (ground (arith, h))))

pub Distinct-without : (b : ℕ) (l : List ℕ) → Distinct l → Distinct (without b l)
Distinct-without b [] d = tt
Distinct-without b (y ∷ l) d = elim (Bool-cases (y == b)) [
  | inl here ↦ rw here (Distinct-without b l d.1)
  | inr there ↦ rw there (ground (arith, has-without b y l, d.0), Distinct-without b l d.1)
]

-- Out of a list without repetitions, a block is taken once.
pub count_in-without :
    (a b : ℕ) (l : List ℕ)
    → Distinct l
    → has b l ≡ true
    → count_in a (without b l) + (if block2arena b == a then 1 else 0) ≡ count_in a l
unfolding count_in
count_in-without a b [] d h = cc
count_in-without a b (y ∷ l) d h = elim (Bool-cases (y == b)) [
  | inl here ↦
      let e : y ≡ b = ground (arith, here) in
      let gone : has b l ≡ false = ap (λ z. has z l) (sym e) ∙ d.0 in
      rw here (rw (without-same b l gone, e) (omega arith))
  | inr there ↦ rw there (omega (arith, count_in-without a b l d.1 (ground (arith, h, there))))
]

pub Distinct-snoc : (l : List ℕ) (b : ℕ) → Distinct l → has b l ≡ false → Distinct (l ++ (b ∷ []))
Distinct-snoc l b d h =
    Distinct-of_parts l (b ∷ []) d (refl, tt) (λ a inside. ground (arith, inside, h))
