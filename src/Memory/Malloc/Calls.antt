-- ===== src/Memory/Malloc/Calls.antt =====
-- `sys_malloc` and `sys_free` with the lock around them, for a kernel thread.
use os_learning.Base.{
  ℕ, ◌≤◌, ◌≡◌, refl, ap₂, ◌∙◌, inl, Bool, true, false, not, some, none, [], arith, ltb, ◌==◌,
}
use os_learning.Base.Run.{Run, ok, ◌>>=◌, Returns}
use os_learning.Bitmap.{is_free}
use os_learning.Sync.{Lock, lock_acquire, lock_release}
use os_learning.Sync.Locks.{IsFree, lock_acquire-free, lock_acquire-release}
use os_learning.Memory.Defs.{Memory}
use os_learning.Memory.Virtual.{pf_kernel, VirtualAddr}
use os_learning.Memory.Arena.{block_desc_init, find_desc, arena2block}
use os_learning.Memory.Palloc.{SameFree}
use os_learning.Memory.Pages.{malloc_page}
use os_learning.Memory.Pages.Heap.{CanTake, Allocated, malloc_page-Allocated}
use os_learning.Memory.Malloc.Defs.{Heap, k_heap_start, sys_malloc, sys_free}
use os_learning.Memory.Malloc.Cycle.{idx, d, first, took, low, place, small-eq, free-eq}

-- `sys_malloc`, and `sys_free` of what it gives
abbrev pub sys_malloc_and_free : (size : ℕ) → Heap → Run (Bool × Heap)
sys_malloc_and_free size st = do
  (b, st') ← sys_malloc pf_kernel size st
  elim b [ none ↦ ok (false, st') | some ptr ↦ sys_free pf_kernel ptr st' ]

module _ (size : ℕ) (st : Heap) (few : size ≤ 1024)
    (enough : size ≤ st.memory.kernel_pool.pool_size) (empty : (i : ℕ) → st.free_list i ≡ [])
    (c : CanTake 1 st.vaddr st.memory) (free : IsFree st.lock) where
  -- the heap with its lock taken
  abbrev held : Lock
  held = record {
    holder = some st.sched.running;
    semaphore = record st.lock.semaphore { value = 0 };
    holder_repeat_nr = 1;
  }

  takes : lock_acquire st.lock st.sched ≡ ok (true, held, st.sched)
  takes = lock_acquire-free st.lock st.sched free

  gives : lock_release held st.sched ≡ ok (st.lock, st.sched)
  gives = rw takes at (lock_acquire-release st.lock st.sched 0 (inl free) (omega arith))

  abbrev locked : Heap
  locked = record st { lock = held }

  module _ (a : ℕ) (pool : VirtualAddr) (m : Memory)
      (w : Allocated 1 st.vaddr st.memory (a, pool, m)) where
    abbrev ptr : ℕ
    ptr = first st (idx size st few empty c) (d size st few empty c) (empty _) c a pool m w

    abbrev after : Heap
    after = took st (idx size st few empty c) (d size st few empty c) (empty _) c a pool m w

    malloc-eq :
        malloc_page pf_kernel 1 st.vaddr st.memory ≡ ok (a, pool, m)
        → sys_malloc pf_kernel size st ≡ ok (some ptr, after)
    unfolding sys_malloc
    malloc-eq run =
        let big : ltb st.memory.kernel_pool.pool_size size ≡ false = ground (arith, enough) in
        let small : ltb 1024 size ≡ false = ground (arith, few) in
        rw (big, takes, small, small-eq size locked few empty c a pool m w run, gives) refl

    after-free :
        0x102000 ≤ st.memory.kernel_pool.phy_addr_start
        → k_heap_start ≤ st.vaddr.vaddr_start
        → Returns
            (λ r.
              (r.0 ≡ true)
              × SameFree st.memory r.1.memory
              × ((k : ℕ) → is_free r.1.vaddr.vaddr_bitmap k ≡ is_free st.vaddr.vaddr_bitmap k)
              × (r.1.free_list (find_desc block_desc_init size 0) ≡ [])
              × (r.1.lock ≡ st.lock))
            (sys_free pf_kernel ptr after)
    unfolding sys_free arena2block
    after-free above heap =
        let st1 = record after { lock = held } in
        let (st2, frees, (pages, bits, list, lock, sched)) =
          free-eq locked (idx size st few empty c) (d size st few empty c) (empty _) c a pool m w
            above in
        let at_heap =
          place st (idx size st few empty c) (d size st few empty c) (empty _) c a pool m w in
        let below =
          low st (idx size st few empty c) (d size st few empty c) (empty _) c a pool m w in
        let not_null : not (ptr == 0) ≡ true = ground (arith, at_heap, heap, below) in
        let in_heap : ltb k_heap_start ptr ≡ true = ground (arith, at_heap, heap, below) in
        let drops : lock_release st2.lock st2.sched ≡ ok (st.lock, st.sched) =
          ap₂ lock_release lock sched ∙ gives in
        (
          (true, record st2 { lock = st.lock; sched = st.sched }),
          rw (not_null, in_heap, takes, frees, drops) refl,
          (refl, pages, bits, list, refl),
        )

  -- Where all free lists are empty, one page can be taken, the lock is free, the size is at most
  -- 1024 and the pool's size, the pool starts at 0x102000 or above and the heap at 0xc0100000 or
  -- above: `sys_malloc` of a kernel thread and then `sys_free` of its answer return, with the same
  -- physical and virtual pages free as before, the size's free list empty, and the lock as it was.
  pub sys_malloc-free :
      0x102000 ≤ st.memory.kernel_pool.phy_addr_start
      → k_heap_start ≤ st.vaddr.vaddr_start
      → Returns
          (λ r.
            (r.0 ≡ true)
            × SameFree st.memory r.1.memory
            × ((k : ℕ) → is_free r.1.vaddr.vaddr_bitmap k ≡ is_free st.vaddr.vaddr_bitmap k)
            × (r.1.free_list (find_desc block_desc_init size 0) ≡ [])
            × (r.1.lock ≡ st.lock))
          (sys_malloc_and_free size st)
  sys_malloc-free above heap =
      let ((a, pool, m), run, w) = malloc_page-Allocated 1 st.vaddr st.memory c in
      let (r, frees, same) = after-free a pool m w above heap in
      (r, rw (malloc-eq a pool m w run) frees, same)
