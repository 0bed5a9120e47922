-- ===== src/Memory/Palloc.antt =====
-- `palloc` and `pfree` of kernel/memory.c.
use os_learning.Base.{
  ℕ, ◌+◌, ◌-◌, ◌*◌, ◌/◌, ◌%◌, ◌^◌, ◌<◌, ◌≤◌, ◌≡◌, refl, true, false, Option, none, some, arith, leb,
}
use os_learning.Base.Run.{Run, ok, panic, ◌>>=◌, Returns}
use os_learning.Bitmap.{bitmap_scan, bitmap_set, IsValid, is_free}
use os_learning.Bitmap.Set.{Wrote, bitmap_set-Wrote}
use os_learning.Bitmap.Scan.{IsWindow, IsAnswer, bitmap_scan-IsAnswer, bitmap_scan_blind}
use os_learning.Memory.Defs.{page_size, Pool, Memory, palloc, free_in, pfree}

-- The bitmap is sound, it has a byte, and the pages that it stands for end below 2 ^ 32.
pub record IsPool (pool : Pool) : Type 0 where
  pub bitmap : IsValid pool.pool_bitmap
  pub some_bits : 0 < pool.pool_bitmap.btmp_bytes_len
  pub fits : pool.phy_addr_start + 8 * pool.pool_bitmap.btmp_bytes_len * page_size ≤ 2 ^ 32

-- Page `j` of the pool was free and is taken now; the other pages are as they were.
pub record Taken (pool : Pool) (j : ℕ) (page : ℕ) (pool' : Pool) : Type 0 where
  pub addr : page ≡ pool.phy_addr_start + j * page_size
  pub in_pool : j < 8 * pool.pool_bitmap.btmp_bytes_len
  pub was_free : is_free pool.pool_bitmap j ≡ true
  pub bits : Wrote pool.pool_bitmap j 1 pool'.pool_bitmap
  pub same_start : pool'.phy_addr_start ≡ pool.phy_addr_start
  pub same_size : pool'.pool_size ≡ pool.pool_size

-- In a well-formed pool with a free page whose bit `i` has `i + 1` below the count of bytes,
-- `palloc` returns the address of a page that was free, and takes it; no other page's bit changes,
-- nor the pool's start and size.
pub palloc-Taken :
    (pool : Pool) (i : ℕ)
    → IsPool pool
    → i + 1 < pool.pool_bitmap.btmp_bytes_len
    → is_free pool.pool_bitmap i ≡ true
    → Returns (λ (page, pool'). (j : ℕ) × Taken pool j page pool') (palloc pool)
unfolding palloc
palloc-Taken pool i p hi free =
    go (bitmap_scan pool.pool_bitmap 1)
      (bitmap_scan-IsAnswer 1 p.bitmap (omega (arith, p.some_bits)))
  where
    window : IsWindow pool.pool_bitmap 1 i
    window k h = let e : i + k ≡ i = omega arith in rw e free

    go :
        (r : Run (Option ℕ))
        → Returns (IsAnswer pool.pool_bitmap 1 0) r
        → Returns
            (λ (page, pool'). (j : ℕ) × Taken pool j page pool')
            (r >>= λ idx. elim idx [
              | none ↦ panic
              | some k ↦ (do
                btmp ← bitmap_set pool.pool_bitmap k 1
                ok (
                  (pool.phy_addr_start + k * page_size) % 2 ^ 32,
                  record pool { pool_bitmap = btmp },
                ))
            ])
    go r (none, e, a) = absurd (a i (omega arith) hi window)
    go r (some j, e, (low, high, w, least)) =
        let (btmp, run, wrote) =
          bitmap_set-Wrote pool.pool_bitmap p.bitmap j 1 (omega arith) (omega arith) in
        let z : j + 0 ≡ j = omega arith in
        (
          ((pool.phy_addr_start + j * page_size) % 2 ^ 32, record pool { pool_bitmap = btmp }),
          rw (e, run),
          (
            j,
            record {
              addr = omega (arith, p.fits);
              in_pool = omega arith;
              was_free = rw z at (w 0 (omega arith));
              bits = wrote;
              same_start = refl;
              same_size = refl;
            },
          ),
        )

-- In a well-formed pool whose first `btmp_bytes_len` pages are taken, an eighth of those that it
-- has bits for, the ASSERT of `palloc` fails.
pub palloc-panic :
    (pool : Pool)
    → IsPool pool
    → ((i : ℕ) → i < pool.pool_bitmap.btmp_bytes_len → is_free pool.pool_bitmap i ≡ false)
    → palloc pool ≡ panic
unfolding palloc
palloc-panic pool p taken =
    rw (bitmap_scan_blind 1 p.bitmap (omega arith) (omega (arith, p.some_bits)) taken)

-- `pfree` on a page of the pool clears its bit.
pub free_in-Wrote :
    (pool : Pool) (j : ℕ)
    → IsPool pool
    → j < 8 * pool.pool_bitmap.btmp_bytes_len
    → Returns
        (λ pool'.
          Wrote pool.pool_bitmap j 0 pool'.pool_bitmap
          × (pool'.phy_addr_start ≡ pool.phy_addr_start))
        (free_in pool (pool.phy_addr_start + j * page_size))
unfolding free_in
free_in-Wrote pool j p h =
    let (btmp, run, wrote) = bitmap_set-Wrote pool.pool_bitmap p.bitmap j 0 h (omega arith) in
    let e : (pool.phy_addr_start + j * page_size + 2 ^ 32 - pool.phy_addr_start)
          % 2 ^ 32
          / page_size
        ≡ j =
      omega (arith, p.fits) in
    (record pool { pool_bitmap = btmp }, rw (e, run), (wrote, refl))

-- The kernel's pages lie below the user's.
pub record ArePools (m : Memory) : Type 0 where
  pub kernel : IsPool m.kernel_pool
  pub user : IsPool m.user_pool
  pub apart :
      m.kernel_pool.phy_addr_start + 8 * m.kernel_pool.pool_bitmap.btmp_bytes_len * page_size
      ≤ m.user_pool.phy_addr_start

-- the pages of a memory that are free, in both pools
abbrev pub SameFree : Memory → Memory → Type 0
SameFree m m' =
    ((j : ℕ) → is_free m'.kernel_pool.pool_bitmap j ≡ is_free m.kernel_pool.pool_bitmap j)
    × ((j : ℕ) → is_free m'.user_pool.pool_bitmap j ≡ is_free m.user_pool.pool_bitmap j)

pub IsPool-Taken :
    (pool : Pool) (j page : ℕ) (pool' : Pool) → IsPool pool → Taken pool j page pool' → IsPool pool'
IsPool-Taken pool j page pool' p t = record {
  bitmap = t.bits.0;
  some_bits = omega (arith, p.some_bits, t.bits.1);
  fits = omega (arith, p.fits, t.bits.1, t.same_start);
}

module _ (m : Memory) (j page : ℕ) (pool' : Pool) (a : ArePools m) where
  -- With well-formed pools, the kernel's below the user's, after `pfree` of a page that was taken
  -- from the kernel's pool the free pages are those from before it was taken, in both pools.
  pub pfree-kernel :
      Taken m.kernel_pool j page pool'
      → Returns (SameFree m) (pfree page (record m { kernel_pool = pool' }))
  unfolding pfree
  pfree-kernel t =
      let q = IsPool-Taken m.kernel_pool j page pool' a.kernel t in
      let (pool'', run, (w, start)) =
        free_in-Wrote pool' j q (omega (arith, t.in_pool, t.bits.1)) in
      let at : pool'.phy_addr_start + j * page_size ≡ page = omega (arith, t.addr, t.same_start) in
      let low : leb m.user_pool.phy_addr_start page ≡ false =
        ground (arith, a.apart, t.addr, t.in_pool) in
      (
        record m { kernel_pool = pool'' },
        rw (low, rw at at run),
        (λ k. ground (arith, w.2 k, t.bits.2 k, t.was_free), λ k. refl),
      )

  -- The same for a page from the user's pool.
  pub pfree-user :
      Taken m.user_pool j page pool'
      → Returns (SameFree m) (pfree page (record m { user_pool = pool' }))
  unfolding pfree
  pfree-user t =
      let q = IsPool-Taken m.user_pool j page pool' a.user t in
      let (pool'', run, (w, start)) =
        free_in-Wrote pool' j q (omega (arith, t.in_pool, t.bits.1)) in
      let at : pool'.phy_addr_start + j * page_size ≡ page = omega (arith, t.addr, t.same_start) in
      let high : leb pool'.phy_addr_start page ≡ true = ground arith in
      (
        record m { user_pool = pool'' },
        rw (high, rw at at run),
        (λ k. refl, λ k. ground (arith, w.2 k, t.bits.2 k, t.was_free)),
      )
