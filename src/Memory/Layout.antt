-- ===== src/Memory/Layout.antt =====
-- What `mem_pool_init` of kernel/memory.c makes of the size of the memory.
use os_learning.Base.{ℕ, ◌+◌, ◌-◌, ◌*◌, ◌/◌, ◌%◌, ◌^◌, ◌<◌, ◌≤◌, ◌≡◌, refl, arith}
use os_learning.Memory.Arena.{PoolLayout, mem_pool_init}

-- The user's pages follow the kernel's and end with the memory, less a part of a page; no bitmap has a bit
-- without a page; the arrays of the three bitmaps follow each other, and end below the main thread's PCB.
pub record IsLaid (all_mem : ℕ) (l : PoolLayout) : Type 0 where
  pub kernel_first : l.kernel_phy_addr_start ≡ 0x200000
  pub user_next : l.user_phy_addr_start ≡ l.kernel_phy_addr_start + l.kernel_pool_size
  pub in_memory : l.user_phy_addr_start + l.user_pool_size ≤ all_mem
  pub all_used : all_mem < l.user_phy_addr_start + l.user_pool_size + 4096
  pub kernel_bits_fit : 8 * l.kernel_btmp_bytes_len * 4096 ≤ l.kernel_pool_size
  pub user_bits_fit : 8 * l.user_btmp_bytes_len * 4096 ≤ l.user_pool_size
  pub user_bits_next : l.user_bits ≡ l.kernel_bits + l.kernel_btmp_bytes_len
  pub vaddr_bits_next : l.vaddr_bits ≡ l.user_bits + l.user_btmp_bytes_len
  pub below_pcb : l.vaddr_bits + l.vaddr_btmp_bytes_len ≤ 0xc009e000

-- For a memory from 2 MB to less than 258 MB, `mem_pool_init` puts the kernel's pages at 2 MB and
-- the user's behind them, up to the end of the memory less a part of a page; no bitmap has a bit
-- without a page; the arrays of the three bitmaps follow each other, and end at 0xc009e000 at most.
pub mem_pool_init-IsLaid :
    (all_mem : ℕ)
    → 0x200000 ≤ all_mem
    → all_mem < 0x200000 + 2 ^ 28
    → IsLaid all_mem (mem_pool_init all_mem)
unfolding mem_pool_init
mem_pool_init-IsLaid all_mem low high = record {
  kernel_first = refl;
  user_next = refl;
  in_memory = omega arith;
  all_used = omega arith;
  kernel_bits_fit = omega arith;
  user_bits_fit = omega arith;
  user_bits_next = refl;
  vaddr_bits_next = refl;
  below_pcb = omega arith;
}

-- The count of pages is cut to 16 bits: 256 MB more memory do not change the layout.
pub mem_pool_init-wraps :
    (all_mem : ℕ)
    → 0x200000 ≤ all_mem
    → all_mem + 2 ^ 28 < 2 ^ 32
    → mem_pool_init (all_mem + 2 ^ 28) ≡ mem_pool_init all_mem
unfolding mem_pool_init
mem_pool_init-wraps all_mem low high =
    let e : (all_mem + 2 ^ 28 + 2 ^ 32 - 0x200000) % 2 ^ 32 / 4096 % 2 ^ 16
        ≡ (all_mem + 2 ^ 32 - 0x200000) % 2 ^ 32 / 4096 % 2 ^ 16 =
      omega arith in
    rw e
