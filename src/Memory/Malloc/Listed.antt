-- ===== src/Memory/Malloc/Listed.antt =====
-- The list of an arena's blocks: no block twice, and each in the arena.
use os_learning.Base.{
  ℕ, zero, suc, ◌+◌, ◌%◌, ◌^◌, ◌<◌, ◌≤◌, ◌≡◌, refl, Bool-cases, inl, inr, true, arith, ◌==◌, has,
  Distinct,
}
use os_learning.Memory.Arena.{MemBlockDesc, arena2block, block2arena}
use os_learning.Memory.Blocks.{FillsPage, block2arena-arena2block}
use os_learning.Memory.Malloc.Arenas.{blocks, has-blocks, block-injective}
use os_learning.Memory.Malloc.Counts.{count_in}

module _ (a : ℕ) (d : MemBlockDesc) (f : FillsPage d) (page : a % 2 ^ 12 ≡ 0)
    (ha : a < 2 ^ 32) where
  pub Distinct-blocks : (n i : ℕ) → i + n ≤ d.blocks_per_arena → Distinct (blocks a d f page ha n i)
  Distinct-blocks zero i within = tt
  Distinct-blocks (suc n) i within =
      let x : ℕ = arena2block a i d in
      (
        elim (Bool-cases (has x (blocks a d f page ha n (i + 1)))) [
          | inl inside ↦
              let (k, low, high, e) = has-blocks a d f page ha n (i + 1) x inside in
              absurd (
                block-injective a d f page ha i k (omega arith) (omega arith)
                  (λ s. absurd (omega arith)) e)
          | inr outside ↦ outside
        ],
        Distinct-blocks n (i + 1) (omega arith),
      )

  pub count_in-blocks :
      (n i : ℕ) → i + n ≤ d.blocks_per_arena → count_in a (blocks a d f page ha n i) ≡ n
  unfolding count_in
  count_in-blocks zero i within = refl
  count_in-blocks (suc n) i within =
      let home = block2arena-arena2block a i d f page ha (omega arith) in
      let self : (block2arena (arena2block a i d) == a) ≡ true = rw home (ground arith) in
      rw self (omega (arith, count_in-blocks n (i + 1) (omega arith)))
