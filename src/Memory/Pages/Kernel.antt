-- ===== src/Memory/Pages/Kernel.antt =====
-- `get_kernel_pages`: the lock, the pages and their contents.
use os_learning.Base.{
  ℕ, true, ◌+◌, ◌%◌, ◌*◌, ◌^◌, ◌<◌, ◌≤◌, ◌≡◌, refl, sym, ap, ◌∙◌, inl, Option, some, arith,
}
use os_learning.Base.Run.{Returns}
use os_learning.Sync.Locks.{IsFree, lock_acquire-free, lock_acquire-release}
use os_learning.Bitmap.{is_free}
use os_learning.Memory.Defs.{page_size, Memory, pte_ptr, pde_ptr, is_present}
use os_learning.Memory.Virtual.{VirtualAddr}
use os_learning.Memory.Mapping.{MapsTo, MapsTo-same, pte_ptr-range}
use os_learning.Memory.Pages.Defs.{Spaces, clear_pages, get_kernel_pages}
use os_learning.Memory.Pages.Taking.{page_at, at}
use os_learning.Memory.Pages.Heap.{IsHeap, CanTake, Allocated, malloc_page-Allocated}

-- The caller has `cnt` fresh pages from `vaddr` on, full of zeros; the lock is free again.
pub record Zeroed (cnt : ℕ) (st : Spaces) (r : Option ℕ × Spaces) : Type 0 where
  pub vaddr : ℕ
  pub answer : r.0 ≡ some vaddr
  pub zeros : (a : ℕ) → vaddr ≤ a → a < at vaddr cnt → r.1.memory.word a ≡ 0
  pub idx : ℕ → ℕ
  pub maps :
      (k : ℕ)
      → k < cnt
      → MapsTo (at vaddr k) (page_at st.memory.kernel_pool (idx k)) r.1.memory.word
  pub in_pool : (k : ℕ) → k < cnt → idx k < 8 * st.memory.kernel_pool.pool_bitmap.btmp_bytes_len
  pub page_was_free : (k : ℕ) → k < cnt → is_free st.memory.kernel_pool.pool_bitmap (idx k) ≡ true
  pub pages_apart : (k l : ℕ) → k < cnt → l < cnt → idx k ≡ idx l → k ≡ l
  pub heap : IsHeap r.1.kernel_vaddr r.1.memory.word
  pub place : ℕ
  pub at_place : vaddr ≡ at st.kernel_vaddr.vaddr_start place
  pub in_heap : place < 8 * st.kernel_vaddr.vaddr_bitmap.btmp_bytes_len
  pub was_free : is_free st.kernel_vaddr.vaddr_bitmap place ≡ true
  pub whole : vaddr % page_size ≡ 0
  pub low : at vaddr cnt ≤ 0xffc00000
  pub directory :
      (u : ℕ) → u < 0xffc00000 → r.1.memory.word (pde_ptr u) ≡ st.memory.word (pde_ptr u)
  pub lock : r.1.kernel_lock ≡ st.kernel_lock
  pub same_sched : r.1.sched ≡ st.sched

-- the entries are behind what is cleared
clear-entry :
    (vaddr cnt u : ℕ) (word : ℕ → ℕ)
    → at vaddr cnt ≤ 0xffc00000
    → u < 0xffc00000
    → clear_pages vaddr cnt word (pte_ptr u) ≡ word (pte_ptr u)
clear-entry vaddr cnt u word low hu = let above = (pte_ptr-range u hu).0 in ground arith

clear-directory :
    (vaddr cnt u : ℕ) (word : ℕ → ℕ)
    → at vaddr cnt ≤ 0xffc00000
    → u < 2 ^ 32
    → clear_pages vaddr cnt word (pde_ptr u) ≡ word (pde_ptr u)
unfolding pde_ptr
clear-directory vaddr cnt u word low hu = ground arith

module _ (cnt : ℕ) (st : Spaces) (free : IsFree st.kernel_lock)
    (c : CanTake cnt st.kernel_vaddr st.memory) where
  module _ (vaddr : ℕ) (pool : VirtualAddr) (m : Memory)
      (a : Allocated cnt st.kernel_vaddr st.memory (vaddr, pool, m)) where
    abbrev word' : ℕ → ℕ
    word' = clear_pages vaddr cnt m.word

    place-eq : vaddr ≡ at st.kernel_vaddr.vaddr_start a.place
    place-eq = let e = a.reserved.addr in cc

    low : at vaddr cnt ≤ 0xffc00000
    low = omega (arith, place-eq, c.heap.low, a.reserved.in_pool)

    first_free : is_free st.kernel_vaddr.vaddr_bitmap a.place ≡ true
    first_free =
        let first : a.place + 0 ≡ a.place = omega arith in
        ap (is_free st.kernel_vaddr.vaddr_bitmap) (sym first) ∙ a.reserved.was_free 0 c.some_pages

    pub cleared-Zeroed :
        Zeroed cnt st
          (some vaddr, record st { memory = record m { word = word' }; kernel_vaddr = pool })
    cleared-Zeroed = record {
      vaddr = vaddr;
      answer = refl;
      zeros = λ x from to. ground arith;
      idx = a.idx;
      maps = λ k less.
          MapsTo-same (at vaddr k) (page_at st.memory.kernel_pool (a.idx k)) m.word word'
            (clear-entry vaddr cnt (at vaddr k) m.word low (omega (arith, low)))
            (a.taking.maps k less);
      in_pool = a.taking.in_pool;
      page_was_free = a.taking.fresh;
      pages_apart = a.taking.apart;
      heap = record {
        virtual = a.heap.virtual;
        whole = a.heap.whole;
        low = a.heap.low;
        linked = λ j less.
            ap is_present (
              clear-directory vaddr cnt (at pool.vaddr_start j) m.word low
                (omega (arith, a.heap.low)))
            ∙ a.heap.linked j less;
        absent = λ j less free.
            ap is_present
              (clear-entry vaddr cnt (at pool.vaddr_start j) m.word low (omega (arith, a.heap.low)))
            ∙ a.heap.absent j less free;
      };
      place = a.place;
      at_place = place-eq;
      in_heap = omega (arith, a.reserved.in_pool);
      was_free = first_free;
      whole = omega (arith, place-eq, c.heap.whole);
      low = low;
      directory =
          λ u hu. clear-directory vaddr cnt u m.word low (omega arith) ∙ a.taking.directory u hu;
      lock = refl;
      same_sched = refl;
    }

  -- Where `malloc_page` can take `cnt` pages and the lock is free, `get_kernel_pages` returns an
  -- address from which `cnt` pages are mapped to pages of the kernel's pool that were free, no two
  -- to the same, and hold zeros; the heap is well-formed, and the lock and the scheduler's state
  -- are as before.
  pub get_kernel_pages-Zeroed : Returns (Zeroed cnt st) (get_kernel_pages cnt st)
  unfolding get_kernel_pages
  get_kernel_pages-Zeroed =
      let ((vaddr, pool, m), run, a) = malloc_page-Allocated cnt st.kernel_vaddr st.memory c in
      let takes = lock_acquire-free st.kernel_lock st.sched free in
      let gives =
        rw takes at (lock_acquire-release st.kernel_lock st.sched 0 (inl free) (omega arith)) in
      (_, rw (takes, run, gives) refl, cleared-Zeroed vaddr pool m a)
