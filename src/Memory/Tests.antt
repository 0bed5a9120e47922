-- ===== src/Memory/Tests.antt =====
-- Two pools of 16 pages, and a page table for the addresses from 0xc0000000 on.
use os_learning.Base.{
  ℕ, zero, suc, ◌<◌, ◌≡◌, refl, true, false, [], ◌∷◌, arith, ◌==◌, if◌then◌else◌,
}
use os_learning.Base.Run.{Returns}
use os_learning.Bitmap.{Bitmap, is_free, bitmap_set}
use os_learning.Bitmap.Set.{Wrote, bitmap_set-Wrote}
use os_learning.Memory.{
  VirtualAddr, Pool, Memory, pte_ptr, pde_ptr, is_present, palloc, page_table_add, MemBlockDesc,
  mem_pool_init,
}
use os_learning.Memory.Palloc.{IsPool, Taken, ArePools, palloc-Taken}
use os_learning.Memory.Mapping.{
  KeepsOthers, MapsTo, NewTable, page_table_add-MapsTo, page_table_add-NewTable,
}
use os_learning.Memory.Reserve.{IsVirtual}
use os_learning.Bitmap.Scan.{IsWindow}
use os_learning.Memory.Layout.{IsLaid, mem_pool_init-IsLaid}
use os_learning.Memory.Blocks.{FillsPage}

-- page 0 is taken
abbrev bits : Bitmap
bits = record { btmp_bytes_len = 2; bits = 1 ∷ 0 ∷ [] }

abbrev kernel : Pool
kernel = record { pool_bitmap = bits; phy_addr_start = 0x200000; pool_size = 0x10000 }

abbrev user : Pool
user = record {
  pool_bitmap = record { btmp_bytes_len = 3; bits = 1 ∷ 0 ∷ 0 ∷ [] };
  phy_addr_start = 0x210000;
  pool_size = 0x18000;
}

-- the first byte full, and the second empty
abbrev tight : Pool
tight = record kernel { pool_bitmap = record { btmp_bytes_len = 2; bits = 255 ∷ 0 ∷ [] } }

abbrev mem : Memory
mem = record {
  kernel_pool = kernel;
  user_pool = user;
  word = λ a. if a == pde_ptr 0xc0100000 then 0x101007 else 0;
}

kernel-IsPool : IsPool kernel
kernel-IsPool = record {
  bitmap = record { size = refl; bytes = (omega arith, (omega arith, tt)) };
  some_bits = omega arith;
  fits = omega arith;
}

tight-IsPool : IsPool tight
tight-IsPool = record {
  bitmap = record { size = refl; bytes = (omega arith, (omega arith, tt)) };
  some_bits = omega arith;
  fits = omega arith;
}

user-IsPool : IsPool user
user-IsPool = record {
  bitmap = record { size = refl; bytes = (omega arith, (omega arith, (omega arith, tt))) };
  some_bits = omega arith;
  fits = omega arith;
}

are_pools : ArePools mem
are_pools = record { kernel = kernel-IsPool; user = user-IsPool; apart = omega arith }

bit_one_free : is_free user.pool_bitmap 1 ≡ true
unfolding is_free
bit_one_free = refl

tight-bits : (i : ℕ) → i < 2 → is_free tight.pool_bitmap i ≡ false
unfolding is_free
tight-bits zero h = refl
tight-bits (suc zero) h = refl
tight-bits (suc (suc i)) h = absurd (omega arith)

-- page 1 of each pool, given out
kernel_written : Returns (Wrote bits 1 1) (bitmap_set bits 1 1)
kernel_written = bitmap_set-Wrote bits kernel-IsPool.bitmap 1 1 (omega arith) (omega arith)

kernel_taken : Taken kernel 1 0x201000 (record kernel { pool_bitmap = kernel_written.0 })
unfolding is_free
kernel_taken = record {
  addr = omega arith;
  in_pool = omega arith;
  was_free = refl;
  bits = kernel_written.2;
  same_start = refl;
  same_size = refl;
}

user_written : Returns (Wrote user.pool_bitmap 1 1) (bitmap_set user.pool_bitmap 1 1)
user_written = bitmap_set-Wrote user.pool_bitmap user-IsPool.bitmap 1 1 (omega arith) (omega arith)

user_taken : Taken user 1 0x211000 (record user { pool_bitmap = user_written.0 })
user_taken = record {
  addr = omega arith;
  in_pool = omega arith;
  was_free = bit_one_free;
  bits = user_written.2;
  same_start = refl;
  same_size = refl;
}

there : is_present (mem.word (pde_ptr 0xc0100000)) ≡ true
unfolding pde_ptr
there = refl

free : is_present (mem.word (pte_ptr 0xc0100000)) ≡ false
unfolding pde_ptr pte_ptr
free = refl

absent : is_present (mem.word (pde_ptr 0x8048000)) ≡ false
unfolding pde_ptr
absent = refl

page_table_add-MapsTo_example :
    Returns
      (λ m'.
        MapsTo 0xc0100000 0x201000 m'.word
        × KeepsOthers 0xc0100000 mem.word m'.word
        × (m'.kernel_pool ≡ kernel)
        × (m'.user_pool ≡ user))
      (page_table_add 0xc0100000 0x201000 mem)
page_table_add-MapsTo_example =
    page_table_add-MapsTo 0xc0100000 0x201000 mem (omega arith) (omega arith) refl there free

-- the entry of 0xc0100000 present
abbrev mapped : Memory
mapped = record mem { word = λ a. 0x101007 }

-- the memory with a page for the table in the second pool, used as the kernel's
abbrev roomy : Memory
roomy = record mem { kernel_pool = user }

table_page : Returns (λ (page, pool'). (j : ℕ) × Taken user j page pool') (palloc user)
table_page = palloc-Taken user 1 user-IsPool (omega arith) bit_one_free

page_table_add-NewTable_example :
    Returns
      (NewTable 0x8048000 0x201000 table_page.0.0 roomy table_page.0.1)
      (page_table_add 0x8048000 0x201000 roomy)
page_table_add-NewTable_example =
    page_table_add-NewTable 0x8048000 0x201000 table_page.0.0 roomy table_page.0.1 (omega arith)
      (omega arith) refl absent table_page.1

-- 32 MB
mem_pool_init-IsLaid_example : IsLaid 0x2000000 (mem_pool_init 0x2000000)
mem_pool_init-IsLaid_example = mem_pool_init-IsLaid 0x2000000 (omega arith) (omega arith)

-- blocks of 64 bytes
abbrev small : MemBlockDesc
small = record { block_size = 64; blocks_per_arena = 63 }

small-FillsPage : FillsPage small
small-FillsPage = record { positive = omega arith; fits = omega arith; full = omega arith }

-- 64 virtual pages, of which page 0 is taken
abbrev heap : VirtualAddr
heap = record {
  vaddr_bitmap = record { btmp_bytes_len = 8; bits = 1 ∷ 0 ∷ 0 ∷ 0 ∷ 0 ∷ 0 ∷ 0 ∷ 0 ∷ [] };
  vaddr_start = 0xc0100000;
}

heap-IsVirtual : IsVirtual heap
heap-IsVirtual = record { bitmap = record { size = refl; bytes = omega arith }; fits = omega arith }

heap-IsWindow : IsWindow heap.vaddr_bitmap 3 2
unfolding is_free
heap-IsWindow zero h = refl
heap-IsWindow (suc zero) h = refl
heap-IsWindow (suc (suc zero)) h = refl
heap-IsWindow (suc (suc (suc i))) h = absurd (omega arith)
