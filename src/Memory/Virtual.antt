-- ===== src/Memory/Virtual.antt =====
-- `vaddr_get` and `vaddr_remove` of kernel/memory.c, on the virtual pool that they choose: the kernel's, or
-- that of the running thread.
use os_learning.Base.{ℕ, zero, suc, ◌+◌, ◌-◌, ◌*◌, ◌/◌, ◌%◌, ◌^◌, Option, none, some, ltb}
use os_learning.Base.Run.{Run, ok, panic, ◌>>=◌, ◌>>◌, assert}
use os_learning.Bitmap.{Bitmap, bitmap_scan, bitmap_set}
use os_learning.Memory.Defs.{page_size}

-- `enum pool_flags`
pub data PoolFlags : Type 0 where
  pf_kernel pf_user : PoolFlags

-- `struct virtual_addr`
pub record VirtualAddr : Type 0 where
  pub vaddr_bitmap : Bitmap
  pub vaddr_start : ℕ

-- The `while` loops over `cnt`, with `n` rounds left
unfoldable pub set_bits : (n bit_idx value : ℕ) → Bitmap → Run Bitmap
set_bits zero bit_idx value btmp = ok btmp
set_bits (suc n) bit_idx value btmp = do
  btmp' ← bitmap_set btmp bit_idx value
  set_bits n (bit_idx + 1) value btmp'

-- The address, or `none` for NULL
unfoldable pub vaddr_get : PoolFlags → (pg_cnt : ℕ) → VirtualAddr → Run (Option ℕ × VirtualAddr)
unfolding set_bits
vaddr_get pf pg_cnt pool = do
  bits_idx_start ← bitmap_scan pool.vaddr_bitmap pg_cnt
  elim bits_idx_start [
    | none ↦ elim pf [ pf_kernel ↦ panic | pf_user ↦ ok (none, pool) ]
    | some i ↦ do
      btmp ← set_bits pg_cnt i 1 pool.vaddr_bitmap
      let vaddr_start = (pool.vaddr_start + i * page_size) % 2 ^ 32
      elim pf [
        | pf_kernel ↦ ok (some vaddr_start, record pool { vaddr_bitmap = btmp })
        | pf_user ↦ do
          assert (ltb vaddr_start (0xc0000000 - page_size))
          ok (some vaddr_start, record pool { vaddr_bitmap = btmp })
      ]
  ]

unfoldable pub vaddr_remove : (vaddr pg_cnt : ℕ) → VirtualAddr → Run VirtualAddr
unfolding set_bits
vaddr_remove vaddr pg_cnt pool = do
  btmp ←
      set_bits pg_cnt ((vaddr + 2 ^ 32 - pool.vaddr_start) % 2 ^ 32 / page_size) 0 pool.vaddr_bitmap
  ok (record pool { vaddr_bitmap = btmp })
