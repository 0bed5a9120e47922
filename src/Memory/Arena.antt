-- ===== src/Memory/Arena.antt =====
-- The arenas and the sizes of blocks of kernel/memory.c, and what `mem_pool_init` lays out.
use os_learning.Base.{ℕ, zero, suc, ◌+◌, ◌-◌, ◌*◌, ◌/◌, ◌%◌, ◌^◌, List, [], ◌∷◌, leb, if◌then◌else◌}

-- `struct mem_block_desc` less its free list
pub record MemBlockDesc : Type 0 where
  pub block_size : ℕ
  pub blocks_per_arena : ℕ

abbrev pub desc_cnt : ℕ
desc_cnt = 7

-- `sizeof(struct arena)`: a pointer, a count and a flag, aligned to 4
abbrev pub arena_size : ℕ
arena_size = 12

-- `n` rounds of the loop of `block_desc_init`; `block_size` is a uint16_t.
unfoldable pub desc_loop : (n block_size : ℕ) → List MemBlockDesc
desc_loop zero block_size = []
desc_loop (suc n) block_size =
    record { block_size = block_size; blocks_per_arena = (4096 - arena_size) / block_size }
    ∷ desc_loop n (block_size * 2 % 2 ^ 16)

unfoldable pub block_desc_init : List MemBlockDesc
unfolding desc_loop
block_desc_init = desc_loop desc_cnt 16

-- The loop of `sys_malloc` over the descriptors, for a size of at most 1024.
unfoldable pub find_desc : List MemBlockDesc → (size desc_idx : ℕ) → ℕ
find_desc [] size desc_idx = desc_idx
find_desc (d ∷ ds) size desc_idx =
    if leb size d.block_size then desc_idx else find_desc ds size (desc_idx + 1)

unfoldable pub arena2block : (a idx : ℕ) → MemBlockDesc → ℕ
arena2block a idx desc = (a + arena_size + idx * desc.block_size) % 2 ^ 32

unfoldable pub block2arena : (b : ℕ) → ℕ
block2arena b = b / 2 ^ 12 * 2 ^ 12

-- Where `mem_pool_init` puts the pools and the arrays of the three bitmaps.
pub record PoolLayout : Type 0 where
  pub kernel_phy_addr_start : ℕ
  pub kernel_pool_size : ℕ
  pub kernel_btmp_bytes_len : ℕ
  pub kernel_bits : ℕ
  pub user_phy_addr_start : ℕ
  pub user_pool_size : ℕ
  pub user_btmp_bytes_len : ℕ
  pub user_bits : ℕ
  pub vaddr_bits : ℕ
  pub vaddr_btmp_bytes_len : ℕ
  pub vaddr_start : ℕ

-- The page counts are uint16_t.
unfoldable pub mem_pool_init : (all_mem : ℕ) → PoolLayout
mem_pool_init all_mem =
    let used_mem = 4096 * 256 + 0x100000 in
    let free_mem = (all_mem + 2 ^ 32 - used_mem) % 2 ^ 32 in
    let all_free_pages = free_mem / 4096 % 2 ^ 16 in
    let kernel_free_pages = all_free_pages / 2 in
    let user_free_pages = all_free_pages - kernel_free_pages in
    let kernel_bitmap_length = kernel_free_pages / 8 in
    let user_bitmap_length = user_free_pages / 8 in
    record {
      kernel_phy_addr_start = used_mem;
      kernel_pool_size = kernel_free_pages * 4096;
      kernel_btmp_bytes_len = kernel_bitmap_length;
      kernel_bits = 0xc009a000;
      user_phy_addr_start = used_mem + kernel_free_pages * 4096;
      user_pool_size = user_free_pages * 4096;
      user_btmp_bytes_len = user_bitmap_length;
      user_bits = 0xc009a000 + kernel_bitmap_length;
      vaddr_bits = 0xc009a000 + kernel_bitmap_length + user_bitmap_length;
      vaddr_btmp_bytes_len = kernel_bitmap_length;
      vaddr_start = 0xc0100000;
    }
