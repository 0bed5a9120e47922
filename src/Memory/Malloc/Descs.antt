-- ===== src/Memory/Malloc/Descs.antt =====
-- The seven descriptors of small blocks that `block_desc_init` of kernel/memory.c makes.
use os_learning.Base.{
  ℕ, suc, ◌+◌, ◌*◌, ◌^◌, ◌<◌, ◌≤◌, ◌≡◌, refl, Bool, true, ◌&&◌, arith, ltb, leb, all_below,
  all_below_sound,
}
use os_learning.Memory.Arena.{MemBlockDesc, desc_loop, block_desc_init, arena_size}
use os_learning.Memory.Blocks.{FillsPage, size_at}
use os_learning.Memory.Malloc.Defs.{desc_at}

-- what the descriptors of `block_desc_init` have in common
pub record IsDesc (d : MemBlockDesc) : Type 0 where
  pub fills : FillsPage d
  pub some_blocks : 0 < d.blocks_per_arena
  pub few : d.blocks_per_arena < 2 ^ 32
  pub inside : arena_size + d.block_size ≤ 4096

abbrev checks : MemBlockDesc → Bool
checks d =
    ltb 0 d.block_size
    && leb (arena_size + d.blocks_per_arena * d.block_size) 4096
    && ltb 4096 (arena_size + suc d.blocks_per_arena * d.block_size)
    && ltb 0 d.blocks_per_arena
    && ltb d.blocks_per_arena (2 ^ 32)
    && leb (arena_size + d.block_size) 4096

checks-IsDesc : (d : MemBlockDesc) → checks d ≡ true → IsDesc d
checks-IsDesc d h = record {
  fills = record {
    positive = ground (arith, h);
    fits = ground (arith, h);
    full = ground (arith, h);
  };
  some_blocks = ground (arith, h);
  few = ground (arith, h);
  inside = ground (arith, h);
}

desc_table : all_below 7 (λ i. checks (desc_at i)) ≡ true
unfolding all_below desc_at block_desc_init desc_loop
desc_table = refl

pub desc_at-IsDesc : (i : ℕ) → i < 7 → IsDesc (desc_at i)
desc_at-IsDesc i h =
    checks-IsDesc (desc_at i) (all_below_sound 7 (λ k. checks (desc_at k)) i desc_table h)

pub desc_at-size : (i : ℕ) → (desc_at i).block_size ≡ size_at block_desc_init i
unfolding desc_at
desc_at-size i = refl
