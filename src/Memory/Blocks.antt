-- ===== src/Memory/Blocks.antt =====
-- The blocks of an arena, in kernel/memory.c.
use os_learning.Base.{
  ℕ, zero, suc, ◌+◌, ◌*◌, ◌%◌, ◌^◌, ◌<◌, ◌≤◌, ◌≡◌, refl, ◌∙◌, false, List, [], ◌∷◌, arith, ltb, leb,
  ltb→lt, leb→le, Bool-cases, inl, inr, length, get_or, All,
}
use native.Mathlib.Nat.{mul-le-mul_right}
use os_learning.Memory.Arena.{
  MemBlockDesc, desc_loop, arena_size, block_desc_init, find_desc, arena2block, block2arena,
}

abbrev pub size_at : List MemBlockDesc → ℕ → ℕ
size_at ds i = (get_or ds i (record { block_size = 0; blocks_per_arena = 0 })).block_size

-- The blocks fill the arena's page behind its head, as far as whole blocks go.
pub record FillsPage (d : MemBlockDesc) : Type 0 where
  pub positive : 0 < d.block_size
  pub fits : arena_size + d.blocks_per_arena * d.block_size ≤ 4096
  pub full : 4096 < arena_size + suc d.blocks_per_arena * d.block_size

-- `block_desc_init` makes seven descriptors, each of which fills its page.
pub block_desc_init-FillsPage : (length block_desc_init ≡ 7) × All FillsPage block_desc_init
unfolding block_desc_init desc_loop
block_desc_init-FillsPage = (
  refl,
  (
    record { positive = omega arith; fits = omega arith; full = omega arith },
    (
      record { positive = omega arith; fits = omega arith; full = omega arith },
      (
        record { positive = omega arith; fits = omega arith; full = omega arith },
        (
          record { positive = omega arith; fits = omega arith; full = omega arith },
          (
            record { positive = omega arith; fits = omega arith; full = omega arith },
            (
              record { positive = omega arith; fits = omega arith; full = omega arith },
              (record { positive = omega arith; fits = omega arith; full = omega arith }, tt),
            ),
          ),
        ),
      ),
    ),
  ),
)

-- what the loop finds in any list of descriptors
find_desc-scan :
    (ds : List MemBlockDesc) (size k : ℕ)
    → (i : ℕ) × (find_desc ds size k ≡ k + i)
      × (i ≤ length ds)
      × (i < length ds → size ≤ size_at ds i)
      × ((j : ℕ) → j < i → size_at ds j < size)
unfolding find_desc
find_desc-scan [] size k =
    (0, omega arith, omega arith, λ h. absurd (omega arith), λ j h. absurd (omega arith))
find_desc-scan (d ∷ ds) size k = elim (Bool-cases (leb size d.block_size)) [
  | inl fits ↦ (
    0,
    rw fits (omega arith),
    omega arith,
    λ h. leb→le size d.block_size fits,
    λ j h. absurd (omega arith),
  )
  | inr small ↦
      let (i, e, le, big, least) = find_desc-scan ds size (k + 1) in
      (
        suc i,
        rw (small, e) (omega arith),
        omega arith,
        λ h. big (omega arith),
        λ j h. before small least j h,
      )
]
  where
    before :
        {i : ℕ}
        → leb size d.block_size ≡ false
        → ((j : ℕ) → j < i → size_at ds j < size)
        → (j : ℕ) → j < suc i
        → size_at (d ∷ ds) j < size
    before small least zero h = ground arith
    before small least (suc j) h = least j (omega arith)

-- For a size of at most 1024 the loop of `sys_malloc` finds one of the seven descriptors that
-- `block_desc_init` makes: its blocks are large enough, and those of the descriptors before it are
-- not.
pub find_desc-first :
    (size : ℕ)
    → size ≤ 1024
    → (i : ℕ) × (find_desc block_desc_init size 0 ≡ i)
      × (i < 7)
      × (size ≤ size_at block_desc_init i)
      × ((j : ℕ) → j < i → size_at block_desc_init j < size)
unfolding block_desc_init desc_loop
find_desc-first size h =
    let (i, e, le, big, least) = find_desc-scan block_desc_init size 0 in
    let found : i < 7 = by_cases i le least in (i, e ∙ omega arith, found, big found, least)
  where
    by_cases : (i : ℕ) → i ≤ 7 → ((j : ℕ) → j < i → size_at block_desc_init j < size) → i < 7
    by_cases i le least = elim (Bool-cases (ltb i 7)) [
      | inl less ↦ ltb→lt i 7 less
      | inr all ↦ let low = least 6 (ground arith) in absurd (omega arith)
    ]

module _ (a i : ℕ) (d : MemBlockDesc) (f : FillsPage d) (page : a % 2 ^ 12 ≡ 0)
    (ha : a < 2 ^ 32) where
  -- In an arena on a page of its own, whose blocks fit the page, `block2arena` leads from each
  -- block that `arena2block` gives back to the arena.
  pub block2arena-arena2block : i < d.blocks_per_arena → block2arena (arena2block a i d) ≡ a
  unfolding block2arena arena2block
  block2arena-arena2block h = omega (arith, mul-le-mul_right d.block_size h, f.positive, f.fits)

  -- In an arena on a page of its own, whose blocks fit the page, each block ends before a later one
  -- begins, and that one ends in the page.
  pub arena2block-apart :
      (j : ℕ)
      → i < j
      → j < d.blocks_per_arena
      → (arena2block a i d + d.block_size ≤ arena2block a j d)
        × (arena2block a j d + d.block_size ≤ a + 4096)
  unfolding arena2block
  arena2block-apart j h k = (
    omega (
      arith,
      mul-le-mul_right d.block_size h,
      mul-le-mul_right d.block_size k,
      f.positive,
      f.fits,
    ),
    omega (arith, mul-le-mul_right d.block_size k, f.positive, f.fits),
  )
