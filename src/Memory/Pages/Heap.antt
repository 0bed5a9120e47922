-- ===== src/Memory/Pages/Heap.antt =====
-- `malloc_page` and `mfree_page` for the kernel: fresh pages at addresses that were free, and back.
use os_learning.Base.{
  ℕ, ◌+◌, ◌*◌, ◌%◌, ◌<◌, ◌≤◌, ◌≡◌, ◌≢◌, refl, sym, ap, ◌∙◌, true, false, ◌&&◌, some, arith, leb,
  ltb, ◌==◌,
}
use mathlib.Core.Path.{subst}
use os_learning.Base.Run.{Run, ok, ◌>>=◌, Returns}
use os_learning.Bitmap.{is_free}
use os_learning.Bitmap.Scan.{IsWindow}
use os_learning.Memory.Defs.{page_size, Memory, pte_ptr, pde_ptr, is_present, addr_v2p}
use os_learning.Memory.Virtual.{pf_kernel, VirtualAddr, vaddr_get, vaddr_remove}
use os_learning.Memory.Mapping.{MapsTo, MapsTo-same}
use os_learning.Memory.Palloc.{IsPool, ArePools, SameFree}
use os_learning.Memory.Reserve.{IsVirtual, Reserved, vaddr_get-Reserved, vaddr_remove-Reserved}
use os_learning.Memory.Pages.Defs.{malloc_page, mfree_page}
use os_learning.Memory.Pages.Taking.{
  findable, page_at, at, at-first, Taking, AreUnmapped, map_pages-Taking,
}
use os_learning.Memory.Pages.Giving.{Held, unmap_pages-Giving}

-- The kernel's virtual pool and the page tables agree: the tables of its pages are there, and a free page is not
-- mapped.
pub record IsHeap (pool : VirtualAddr) (word : ℕ → ℕ) : Type 0 where
  pub virtual : IsVirtual pool
  pub whole : pool.vaddr_start % page_size ≡ 0
  pub low : pool.vaddr_start + 8 * pool.vaddr_bitmap.btmp_bytes_len * page_size ≤ 0xffc00000
  pub linked :
      (j : ℕ)
      → j < 8 * pool.vaddr_bitmap.btmp_bytes_len
      → is_present (word (pde_ptr (at pool.vaddr_start j))) ≡ true
  pub absent :
      (j : ℕ)
      → j < 8 * pool.vaddr_bitmap.btmp_bytes_len
      → is_free pool.vaddr_bitmap j ≡ true
      → is_present (word (pte_ptr (at pool.vaddr_start j))) ≡ false

-- what `malloc_page` needs of the state for `cnt` pages
pub record CanTake (cnt : ℕ) (pool : VirtualAddr) (m : Memory) : Type 0 where
  pub heap : IsHeap pool m.word
  pub pools : ArePools m
  pub aligned : m.kernel_pool.phy_addr_start % page_size ≡ 0
  pub some_pages : 0 < cnt
  pub few : cnt < 3840
  pub enough : cnt ≤ findable m.kernel_pool
  pub first : ℕ
  pub within : first + cnt < pool.vaddr_bitmap.btmp_bytes_len
  pub window : IsWindow pool.vaddr_bitmap cnt first

-- The pages from `vaddr` on were free in the virtual pool, are given out, and are mapped to pages of the
-- kernel's pool that were free.
pub record Allocated (cnt : ℕ) (pool : VirtualAddr) (m : Memory) (r : ℕ × VirtualAddr × Memory)
    : Type 0 where
  pub place : ℕ
  pub reserved : Reserved pool cnt place (some r.0, r.1)
  pub idx : ℕ → ℕ
  pub taking : Taking pf_kernel cnt r.0 m idx r.2
  pub heap : IsHeap r.1 r.2.word

module _ (cnt : ℕ) (pool : VirtualAddr) (m : Memory) (c : CanTake cnt pool m) where
  module _ (j : ℕ) (pool' : VirtualAddr)
      (w : Reserved pool cnt j (some (at pool.vaddr_start j), pool')) where
    at-sum : (k : ℕ) → at (at pool.vaddr_start j) k ≡ at pool.vaddr_start (j + k)
    at-sum k = omega arith

    unmapped : AreUnmapped cnt (at pool.vaddr_start j) m.word
    unmapped = record {
      linked = λ k less. rw (at-sum k) (c.heap.linked (j + k) (omega (arith, w.in_pool)));
      absent = λ k less.
          rw (at-sum k) (c.heap.absent (j + k) (omega (arith, w.in_pool)) (w.was_free k less));
    }

    was_free : (x : ℕ) → is_free pool'.vaddr_bitmap x ≡ true → is_free pool.vaddr_bitmap x ≡ true
    was_free x free = ground (arith, w.run.bits x, free)

    outside : (x : ℕ) → is_free pool'.vaddr_bitmap x ≡ true → (k : ℕ) → k < cnt → x ≢ j + k
    outside x free k less e = absurd (ground (arith, w.run.bits x, free))

    heap-kept :
        (m' : Memory) (idx : ℕ → ℕ)
        → Taking pf_kernel cnt (at pool.vaddr_start j) m idx m'
        → IsHeap pool' m'.word
    heap-kept m' idx t = record {
      virtual = record {
        bitmap = w.run.valid;
        fits = omega (arith, c.heap.virtual.fits, w.run.same_len, w.same_start);
      };
      whole = omega (arith, c.heap.whole, w.same_start);
      low = omega (arith, c.heap.low, w.run.same_len, w.same_start);
      linked = λ x hx.
          ap (λ s. is_present (m'.word (pde_ptr (at s x)))) w.same_start
          ∙ ap is_present
              (t.directory (at pool.vaddr_start x) (omega (arith, c.heap.low, w.run.same_len)))
          ∙ c.heap.linked x (omega (arith, w.run.same_len));
      absent = λ x hx free.
          ap (λ s. is_present (m'.word (pte_ptr (at s x)))) w.same_start
          ∙ ap is_present (
              t.entries (at pool.vaddr_start x) (omega (arith, c.heap.low, w.run.same_len))
                (λ k less e. absurd (outside x free k less (omega (arith, e, c.heap.whole)))))
          ∙ c.heap.absent x (omega (arith, w.run.same_len)) (was_free x free);
    }

    map-Allocated :
        vaddr_get pf_kernel cnt pool ≡ ok (some (at pool.vaddr_start j), pool')
        → Returns (Allocated cnt pool m) (malloc_page pf_kernel cnt pool m)
    unfolding malloc_page
    map-Allocated run =
        let any : (ltb 0 cnt && ltb cnt 3840) ≡ true = ground (arith, c.some_pages, c.few) in
        let (m', runs, (idx, t)) =
          map_pages-Taking pf_kernel cnt (at pool.vaddr_start j) m
            (record { sound = c.pools.kernel; aligned = c.aligned }) c.enough
            (omega (arith, c.heap.whole)) (omega (arith, c.heap.low, w.in_pool)) unmapped in
        (
          (at pool.vaddr_start j, pool', m'),
          rw (any, run, runs) refl,
          record { place = j; reserved = w; idx = idx; taking = t; heap = heap-kept m' idx t },
        )

  -- Where the kernel's heap is well-formed, its page tables there, free addresses not mapped and a
  -- window of `cnt` of them is found, the pools well-formed with `cnt` free pages among those that
  -- `palloc` finds, and `cnt` from 1 to 3839, `malloc_page` returns: `cnt` addresses that were free
  -- are given out, each is mapped to a page of the kernel's pool that was free, no two to the same,
  -- those pages and no others are taken, all other entries are as before, and the heap is
  -- well-formed.
  pub malloc_page-Allocated : Returns (Allocated cnt pool m) (malloc_page pf_kernel cnt pool m)
  malloc_page-Allocated =
      let ((a, pool'), run, (j, w)) =
        vaddr_get-Reserved pool cnt c.first c.heap.virtual c.within c.window in
      let given = run ∙ ap (λ b. ok (b, pool')) w.addr in
      map-Allocated j pool'
        (record {
          addr = refl;
          in_pool = w.in_pool;
          was_free = w.was_free;
          same_start = w.same_start;
          run = w.run;
        })
        given

-- `malloc_page`, and `mfree_page` of what it gives
abbrev pub malloc_and_free : (cnt : ℕ) → VirtualAddr → Memory → Run (VirtualAddr × Memory)
malloc_and_free cnt pool m = do
  (vaddr, pool', m') ← malloc_page pf_kernel cnt pool m
  mfree_page vaddr cnt pool' m'

module _ (cnt : ℕ) (pool : VirtualAddr) (m : Memory) (c : CanTake cnt pool m)
    (above : 0x102000 ≤ m.kernel_pool.phy_addr_start) (vaddr : ℕ) (pool' : VirtualAddr)
    (m' : Memory) (a : Allocated cnt pool m (vaddr, pool', m')) (word : ℕ → ℕ)
    (same_entries : (k : ℕ)
      → k < cnt
      → word (pte_ptr (at vaddr k)) ≡ m'.word (pte_ptr (at vaddr k))) where
  -- the caller has written to its pages
  abbrev written : Memory
  written = record m' { word = word }

  t : Taking pf_kernel cnt vaddr m a.idx m'
  t = a.taking

  pub maps-written : (k : ℕ) → k < cnt → MapsTo (at vaddr k) (page_at m'.kernel_pool (a.idx k)) word
  maps-written k less =
      MapsTo-same (at vaddr k) (page_at m'.kernel_pool (a.idx k)) m'.word word (same_entries k less)
        (subst (λ s. MapsTo (at vaddr k) (s + a.idx k * page_size) m'.word) (sym t.same_start)
          (t.maps k less))

  pub held : Held pf_kernel cnt vaddr (is_free m.kernel_pool.pool_bitmap) written a.idx
  held = record {
    pools = record {
      kernel = t.sound.sound;
      user = subst IsPool (sym t.same_other) c.pools.user;
      apart =
          omega (
            arith,
            c.pools.apart,
            t.same_start,
            t.same_len,
            ap (λ p. p.phy_addr_start) t.same_other,
          );
    };
    maps = maps-written;
    in_pool = λ k less. omega (arith, t.in_pool k less, t.same_len);
    owned = t.fresh;
    kept = t.kept;
  }

  pub place-eq : vaddr ≡ at pool.vaddr_start a.place
  place-eq = let e = a.reserved.addr in cc

  physical : addr_v2p word vaddr ≡ page_at m.kernel_pool (a.idx 0)
  physical =
      let leads =
        (subst (λ v. MapsTo v (page_at m'.kernel_pool (a.idx 0)) word) (at-first vaddr)
          (maps-written 0 c.some_pages)).1 in
      omega (arith, leads, place-eq, c.heap.whole, t.same_start)

  pub free-Same :
      Returns
        (λ r.
          SameFree m r.1
          × ((k : ℕ) → is_free r.0.vaddr_bitmap k ≡ is_free pool.vaddr_bitmap k)
          × ((k : ℕ) → k < cnt → is_present (r.1.word (pte_ptr (at vaddr k))) ≡ false))
        (mfree_page vaddr cnt pool' written)
  unfolding mfree_page
  free-Same =
      let whole : vaddr % page_size ≡ 0 = omega (arith, place-eq, c.heap.whole) in
      let low : at vaddr cnt ≤ 0xffc00000 =
        omega (arith, place-eq, c.heap.low, a.reserved.in_pool) in
      let first : (ltb 0 cnt && vaddr % page_size == 0) ≡ true =
        ground (arith, c.some_pages, whole) in
      let second : (page_at m.kernel_pool (a.idx 0) % page_size == 0
            && leb 0x102000 (page_at m.kernel_pool (a.idx 0)))
          ≡ true =
        ground (arith, c.aligned) in
      let (m2, run, g) =
        unmap_pages-Giving pf_kernel cnt vaddr (is_free m.kernel_pool.pool_bitmap) written a.idx
          whole low held in
      let (pool2, back, same) =
        vaddr_remove-Reserved pool cnt a.place (some vaddr, pool') c.heap.virtual a.reserved in
      let removes : vaddr_remove vaddr cnt pool' ≡ ok pool2 =
        ap (λ v. vaddr_remove v cnt pool') place-eq ∙ back in
      (
        (pool2, m2),
        rw (first, physical, second, run, removes) refl,
        (
          (g.bits, λ x. ap (λ p. is_free p.pool_bitmap x) (g.same_other ∙ t.same_other)),
          same,
          g.absent,
        ),
      )

module _ (cnt : ℕ) (pool : VirtualAddr) (m : Memory) (c : CanTake cnt pool m) where
  -- Where `malloc_page` can take `cnt` pages for the kernel and the pool starts at 0x102000 or
  -- above, `malloc_page` and then `mfree_page` of its answer return with the same physical and
  -- virtual pages free as before.
  pub malloc_and_free-Same :
      0x102000 ≤ m.kernel_pool.phy_addr_start
      → Returns
          (λ r.
            SameFree m r.1 × ((k : ℕ) → is_free r.0.vaddr_bitmap k ≡ is_free pool.vaddr_bitmap k))
          (malloc_and_free cnt pool m)
  malloc_and_free-Same above =
      let ((vaddr, pool', m'), run, a) = malloc_page-Allocated cnt pool m c in
      let (r, frees, (free, bits, absent)) =
        free-Same cnt pool m c above vaddr pool' m' a m'.word (λ k less. refl) in
      (r, rw run frees, (free, bits))
