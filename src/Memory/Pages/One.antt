-- ===== src/Memory/Pages/One.antt =====
-- `mfree_page` of one page.
use os_learning.Base.{
  ℕ, ◌+◌, ◌-◌, ◌*◌, ◌/◌, ◌%◌, ◌^◌, ◌<◌, ◌≤◌, ◌≡◌, refl, sym, ap, ◌∙◌, Bool, true, ◌&&◌, arith, ltb,
  leb, ◌==◌, if◌then◌else◌, update,
}
use mathlib.Core.Path.{subst}
use os_learning.Base.Run.{ok, ◌>>=◌, Returns}
use os_learning.Bitmap.{is_free}
use os_learning.Memory.Defs.{page_size, Memory, addr_v2p, pte_ptr}
use os_learning.Memory.Virtual.{pf_kernel, VirtualAddr, set_bits, vaddr_remove}
use os_learning.Memory.Mapping.{MapsTo}
use os_learning.Memory.Palloc.{ArePools}
use os_learning.Memory.Reserve.{IsVirtual, set_bits-WroteRun}
use os_learning.Memory.Pages.Defs.{mfree_page}
use os_learning.Memory.Pages.Taking.{page_at, at, at-first}
use os_learning.Memory.Pages.Heap.{CanTake, Allocated}
use os_learning.Memory.Pages.Heap
use os_learning.Memory.Pages.Giving.{Held, unmap_pages-Giving}

-- The page at `a` is page `place` of the virtual pool, and is mapped to page `idx` of the kernel's pool, which lies at
-- 0x102000 or above.
pub record IsMapped (a : ℕ) (pool : VirtualAddr) (m : Memory) : Type 0 where
  pub pools : ArePools m
  pub aligned : m.kernel_pool.phy_addr_start % page_size ≡ 0
  pub above : 0x102000 ≤ m.kernel_pool.phy_addr_start
  pub virtual : IsVirtual pool
  pub whole : a % page_size ≡ 0
  pub low : a + page_size ≤ 0xffc00000
  pub place : ℕ
  pub place-lt : place < 8 * pool.vaddr_bitmap.btmp_bytes_len
  pub place-eq : a ≡ at pool.vaddr_start place
  pub idx : ℕ
  pub idx-lt : idx < 8 * m.kernel_pool.pool_bitmap.btmp_bytes_len
  pub maps : MapsTo a (page_at m.kernel_pool idx) m.word

-- the page is free in both pools, and no other is given or taken
pub record GivesPage (place idx : ℕ) (pool : VirtualAddr) (m : Memory) (r : VirtualAddr × Memory)
    : Type 0 where
  pub same_start : r.0.vaddr_start ≡ pool.vaddr_start
  pub virtual :
      (j : ℕ)
      → is_free r.0.vaddr_bitmap j ≡ (if place == j then true else is_free pool.vaddr_bitmap j)
  pub physical :
      (x : ℕ)
      → is_free r.1.kernel_pool.pool_bitmap x
        ≡ (if idx == x then true else is_free m.kernel_pool.pool_bitmap x)

module _ (a : ℕ) (pool : VirtualAddr) (m : Memory) (h : IsMapped a pool m) where
  abbrev free_after : ℕ → Bool
  free_after = update (is_free m.kernel_pool.pool_bitmap) h.idx true

  held : Held pf_kernel 1 a free_after m (λ k. h.idx)
  held = record {
    pools = h.pools;
    maps = λ k less.
        let e : a ≡ at a k = omega arith in
        subst (λ v. MapsTo v (page_at m.kernel_pool h.idx) m.word) e h.maps;
    in_pool = λ k less. h.idx-lt;
    owned = λ k less. ground arith;
    kept = λ x ne. ground (arith, ne 0 (omega arith));
  }

  removes :
      Returns
        (λ pool'.
          (pool'.vaddr_start ≡ pool.vaddr_start)
          × ((j : ℕ)
              → is_free pool'.vaddr_bitmap j
                ≡ (if h.place == j then true else is_free pool.vaddr_bitmap j)))
        (vaddr_remove a 1 pool)
  unfolding vaddr_remove
  removes =
      let bit : (a + 2 ^ 32 - pool.vaddr_start) % 2 ^ 32 / page_size ≡ h.place =
        omega (arith, h.virtual.fits, h.place-lt, h.place-eq) in
      let (btmp, run, wrote) =
        set_bits-WroteRun 1 h.place 0 pool.vaddr_bitmap h.virtual.bitmap (omega (arith, h.place-lt))
          (omega arith) in
      (
        record pool { vaddr_bitmap = btmp },
        ap (λ i. set_bits 1 i 0 pool.vaddr_bitmap >>= λ b. ok (record pool { vaddr_bitmap = b }))
              bit
            ∙ ap (λ o. o >>= λ b. ok (record pool { vaddr_bitmap = b })) run,
        (refl, λ j. ground (arith, wrote.bits j)),
      )

  -- A mapped page is given back by `mfree_page`.
  pub mfree_page-GivesPage : Returns (GivesPage h.place h.idx pool m) (mfree_page a 1 pool m)
  unfolding mfree_page
  mfree_page-GivesPage =
      let first : (ltb 0 1 && a % page_size == 0) ≡ true = ground (arith, h.whole) in
      let leads : addr_v2p m.word a ≡ page_at m.kernel_pool h.idx =
        (let e = h.maps.1 in omega (arith, e, h.whole)) in
      let second : (page_at m.kernel_pool h.idx % page_size == 0
            && leb 0x102000 (page_at m.kernel_pool h.idx))
          ≡ true =
        ground (arith, h.aligned, h.above) in
      let (m', run, g) =
        unmap_pages-Giving pf_kernel 1 a free_after m (λ k. h.idx) h.whole (omega (arith, h.low))
          held in
      let (pool', back, (start, bits)) = removes in
      (
        (pool', m'),
        rw (first, leads, second, run, back) refl,
        record { same_start = start; virtual = bits; physical = λ x. g.bits x },
      )

-- The page that `malloc_page` has given, after its owner has written to it.
module _ (pool : VirtualAddr) (m : Memory) (c : CanTake 1 pool m)
    (above : 0x102000 ≤ m.kernel_pool.phy_addr_start) (a : ℕ) (pool' : VirtualAddr) (m' : Memory)
    (w : Allocated 1 pool m (a, pool', m')) (word : ℕ → ℕ)
    (same_entries : (k : ℕ) → k < 1 → word (pte_ptr (at a k)) ≡ m'.word (pte_ptr (at a k))) where
  pub Allocated-IsMapped : IsMapped a pool' (record m' { word = word })
  Allocated-IsMapped =
      let here = Heap.place-eq 1 pool m c above a pool' m' w word same_entries in
      let start = w.taking.same_start in
      record {
        pools = (Heap.held 1 pool m c above a pool' m' w word same_entries).pools;
        aligned = omega (arith, c.aligned, start);
        above = omega (arith, above, start);
        virtual = w.heap.virtual;
        whole = omega (arith, here, c.heap.whole);
        low = omega (arith, here, c.heap.low, w.reserved.in_pool);
        place = w.place;
        place-lt = omega (arith, w.reserved.in_pool, w.reserved.run.same_len);
        place-eq = here ∙ ap (λ s. at s w.place) (sym w.reserved.same_start);
        idx = w.idx 0;
        idx-lt = omega (arith, w.taking.in_pool 0 (omega arith), w.taking.same_len);
        maps =
            subst (λ v. MapsTo v (page_at m'.kernel_pool (w.idx 0)) word) (at-first a)
              (Heap.maps-written 1 pool m c above a pool' m' w word same_entries 0 (omega arith));
      }
