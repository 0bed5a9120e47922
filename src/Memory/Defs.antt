-- ===== src/Memory/Defs.antt =====
-- The pools and the page tables of kernel/memory.c. Addresses are below 2 ^ 32. A mask and a shift of an
-- address are written as a division and a remainder by powers of 2.
use os_learning.Base.{
  ℕ, ◌+◌, ◌-◌, ◌*◌, ◌/◌, ◌%◌, ◌^◌, Bool, not, ◌&&◌, none, some, bit_or, ltb, leb, ◌==◌,
  if◌then◌else◌, update,
}
use os_learning.Base.Run.{Run, ok, panic, ◌>>=◌, ◌>>◌, assert}
use os_learning.Bitmap.{Bitmap, bitmap_scan, bitmap_set}

abbrev pub page_size : ℕ
page_size = 4096

-- `struct pool` less its lock
pub record Pool : Type 0 where
  pub pool_bitmap : Bitmap
  pub phy_addr_start : ℕ
  pub pool_size : ℕ

-- The two pools, and the words of memory by virtual address, with the page tables at their places in
-- the recursive mapping.
pub record Memory : Type 0 where
  pub kernel_pool : Pool
  pub user_pool : Pool
  pub word : ℕ → ℕ

abbrev pub pde_idx : ℕ → ℕ
pde_idx addr = addr / 2 ^ 22

abbrev pub pte_idx : ℕ → ℕ
pte_idx addr = (addr / 2 ^ 12) % 2 ^ 10

unfoldable pub pte_ptr : (vaddr : ℕ) → ℕ
pte_ptr vaddr = (0xffc00000 + pde_idx vaddr * 2 ^ 12 + pte_idx vaddr * 4) % 2 ^ 32

unfoldable pub pde_ptr : (vaddr : ℕ) → ℕ
pde_ptr vaddr = (0xfffff000 + pde_idx vaddr * 4) % 2 ^ 32

-- The physical page, and the pool without it.
unfoldable pub palloc : Pool → Run (ℕ × Pool)
palloc mem_pool = do
  idx ← bitmap_scan mem_pool.pool_bitmap 1
  elim idx [
    | none ↦ panic
    | some i ↦ do
      btmp ← bitmap_set mem_pool.pool_bitmap i 1
      ok (
        (mem_pool.phy_addr_start + i * page_size) % 2 ^ 32,
        record mem_pool { pool_bitmap = btmp },
      )
  ]

-- The bit of an address in a pool is cleared.
unfoldable pub free_in : Pool → (pg_phy_addr : ℕ) → Run Pool
free_in mem_pool pg_phy_addr = do
  btmp ←
      bitmap_set mem_pool.pool_bitmap
        ((pg_phy_addr + 2 ^ 32 - mem_pool.phy_addr_start) % 2 ^ 32 / page_size) 0
  ok (record mem_pool { pool_bitmap = btmp })

unfoldable pub pfree : (pg_phy_addr : ℕ) → Memory → Run Memory
pfree pg_phy_addr m =
    if leb m.user_pool.phy_addr_start pg_phy_addr
    then (do pool ← free_in m.user_pool pg_phy_addr; ok (record m { user_pool = pool }))
    else (do pool ← free_in m.kernel_pool pg_phy_addr; ok (record m { kernel_pool = pool }))

-- bit P of an entry
abbrev pub is_present : ℕ → Bool
is_present entry = entry % 2 == 1

-- `page_phyaddr | PG_US_U | PG_RW_W | PG_P_1`
abbrev pub entry_for : (page_phyaddr : ℕ) → ℕ
entry_for page_phyaddr = bit_or page_phyaddr 7

-- `memset(addr, 0, PAGE_SIZE)` on the words
abbrev pub clear_page : (addr : ℕ) → (ℕ → ℕ) → ℕ → ℕ
clear_page addr word a = if leb addr a && ltb a (addr + page_size) then 0 else word a

unfoldable pub page_table_add : (vaddr page_phyaddr : ℕ) → Memory → Run Memory
unfolding pte_ptr pde_ptr
page_table_add vaddr page_phyaddr m =
    let pde = pde_ptr vaddr in
    let pte = pte_ptr vaddr in
    if is_present (m.word pde)
    then (do
      assert (not (is_present (m.word pte)))
      ok (record m { word = update m.word pte (entry_for page_phyaddr) }))
    else (do
      (pde_phyaddr, pool) ← palloc m.kernel_pool
      let linked = update m.word pde (entry_for pde_phyaddr)
      let addr = pte / page_size * page_size
      assert (not (addr == 0))
      let cleared = clear_page addr linked
      assert (not (is_present (cleared pte)))
      ok (record m { kernel_pool = pool; word = update cleared pte (entry_for page_phyaddr) }))

unfoldable pub addr_v2p : (ℕ → ℕ) → (vaddr : ℕ) → ℕ
unfolding pte_ptr
addr_v2p word vaddr = (word (pte_ptr vaddr) / 2 ^ 12 * 2 ^ 12 + vaddr % 2 ^ 12) % 2 ^ 32

-- The TLB that `invlpg` clears is not part of the state.
unfoldable pub page_table_pte_remove : (vaddr : ℕ) → (ℕ → ℕ) → ℕ → ℕ
unfolding pte_ptr
page_table_pte_remove vaddr word =
    let entry = word (pte_ptr vaddr) in update word (pte_ptr vaddr) (entry - entry % 2)
