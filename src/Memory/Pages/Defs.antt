-- ===== src/Memory/Pages/Defs.antt =====
-- `malloc_page`, `mfree_page`, `get_kernel_pages`, `get_user_pages` and `get_a_page` of kernel/memory.c.
use os_learning.Base.{
  ℕ, zero, suc, ◌+◌, ◌-◌, ◌*◌, ◌/◌, ◌%◌, ◌^◌, true, false, ◌&&◌, not, Option, none, some, ltb, leb,
  ◌==◌, if◌then◌else◌,
}
use os_learning.Base.Run.{Run, ok, panic, ◌>>=◌, ◌>>◌, assert}
use os_learning.Bitmap.{bitmap_set}
use os_learning.Thread.{Sched}
use os_learning.Sync.{Lock, lock_acquire, lock_release}
use os_learning.Memory.Defs.{
  page_size, Pool, Memory, palloc, pfree, page_table_add, addr_v2p, page_table_pte_remove,
}
use os_learning.Memory.Virtual.{PoolFlags, pf_kernel, pf_user, VirtualAddr, vaddr_get, vaddr_remove}

abbrev pub pool_of : PoolFlags → Memory → Pool
pool_of pf_kernel m = m.kernel_pool
pool_of pf_user m = m.user_pool

abbrev pub set_pool : PoolFlags → Pool → Memory → Memory
set_pool pf_kernel pool m = record m { kernel_pool = pool }
set_pool pf_user pool m = record m { user_pool = pool }

-- A round of the loop of `malloc_page`. Where `palloc` would return NULL its own ASSERT has failed.
unfoldable pub map_page : PoolFlags → (vaddr : ℕ) → Memory → Run Memory
map_page pf vaddr m = do
  (page_phyaddr, pool) ← palloc (pool_of pf m)
  page_table_add vaddr page_phyaddr (set_pool pf pool m)

-- `n` rounds
unfoldable pub map_pages : PoolFlags → (n vaddr : ℕ) → Memory → Run Memory
map_pages pf zero vaddr m = ok m
map_pages pf (suc n) vaddr m = do
  m' ← map_page pf vaddr m
  map_pages pf n ((vaddr + page_size) % 2 ^ 32) m'

-- `pool` is the virtual pool that `pf` stands for. NULL from `vaddr_get` fails the ASSERT.
unfoldable pub malloc_page :
    PoolFlags → (pg_cnt : ℕ) → VirtualAddr → Memory → Run (ℕ × VirtualAddr × Memory)
malloc_page pf pg_cnt pool m = do
  assert (ltb 0 pg_cnt && ltb pg_cnt 3840)
  (vaddr_start, pool') ← vaddr_get pf pg_cnt pool
  elim vaddr_start [
    | none ↦ panic
    | some vaddr ↦ do m' ← map_pages pf pg_cnt vaddr m; ok (vaddr, pool', m')
  ]

-- a round of the loop of `mfree_page`
unfoldable pub unmap_page : (vaddr : ℕ) → Memory → Run Memory
unmap_page vaddr m = do
  m' ← pfree (addr_v2p m.word vaddr) m
  ok (record m' { word = page_table_pte_remove vaddr m'.word })

-- `n` rounds
unfoldable pub unmap_pages : (n vaddr : ℕ) → Memory → Run Memory
unmap_pages zero vaddr m = ok m
unmap_pages (suc n) vaddr m = do
  m' ← unmap_page vaddr m
  unmap_pages n ((vaddr + page_size) % 2 ^ 32) m'

unfoldable pub mfree_page : (vaddr pg_cnt : ℕ) → VirtualAddr → Memory → Run (VirtualAddr × Memory)
mfree_page vaddr pg_cnt pool m = do
  assert (ltb 0 pg_cnt && vaddr % page_size == 0)
  let pg_phy_addr = addr_v2p m.word vaddr
  assert (pg_phy_addr % page_size == 0 && leb 0x102000 pg_phy_addr)
  m' ← unmap_pages pg_cnt vaddr m
  pool' ← vaddr_remove vaddr pg_cnt pool
  ok (pool', m')

-- What the callers of `malloc_page` share; `user_vaddr` is the virtual pool of the running thread.
pub record Spaces : Type 0 where
  pub memory : Memory
  pub kernel_vaddr : VirtualAddr
  pub user_vaddr : VirtualAddr
  pub kernel_lock : Lock
  pub user_lock : Lock
  pub sched : Sched

-- `memset(vaddr, 0, pg_cnt * PAGE_SIZE)` on the words
abbrev pub clear_pages : (vaddr pg_cnt : ℕ) → (ℕ → ℕ) → ℕ → ℕ
clear_pages vaddr pg_cnt word a =
    if leb vaddr a && ltb a (vaddr + pg_cnt * page_size) then 0 else word a

-- The calls of `malloc_page` and `memset` between those of the lock. The answer is `none` where the caller has
-- blocked for the lock.
unfoldable pub get_kernel_pages : (pg_cnt : ℕ) → Spaces → Run (Option ℕ × Spaces)
get_kernel_pages pg_cnt st = do
  (passed, lock, s) ← lock_acquire st.kernel_lock st.sched
  elim passed [
    | false ↦ ok (none, record st { kernel_lock = lock; sched = s })
    | true ↦ do
      (vaddr, pool, m) ← malloc_page pf_kernel pg_cnt st.kernel_vaddr st.memory
      let cleared = record m { word = clear_pages vaddr pg_cnt m.word }
      (lock', s') ← lock_release lock s
      ok (
        some vaddr,
        record st { memory = cleared; kernel_vaddr = pool; kernel_lock = lock'; sched = s' },
      )
  ]

unfoldable pub get_user_pages : (pg_cnt : ℕ) → Spaces → Run (Option ℕ × Spaces)
get_user_pages pg_cnt st = do
  (passed, lock, s) ← lock_acquire st.user_lock st.sched
  elim passed [
    | false ↦ ok (none, record st { user_lock = lock; sched = s })
    | true ↦ do
      (vaddr, pool, m) ← malloc_page pf_user pg_cnt st.user_vaddr st.memory
      let cleared = record m { word = clear_pages vaddr pg_cnt m.word }
      (lock', s') ← lock_release lock s
      ok (
        some vaddr,
        record st { memory = cleared; user_vaddr = pool; user_lock = lock'; sched = s' },
      )
  ]

-- the bit of one address in a virtual pool; `bit_idx` is signed, and below 2 ^ 20
unfoldable pub reserve_at : (vaddr : ℕ) → VirtualAddr → Run VirtualAddr
reserve_at vaddr pool = do
  let bit_idx = (vaddr + 2 ^ 32 - pool.vaddr_start) % 2 ^ 32 / page_size
  assert (ltb 0 bit_idx)
  btmp ← bitmap_set pool.vaddr_bitmap bit_idx 1
  ok (record pool { vaddr_bitmap = btmp })

-- Which virtual pool has the address: a process may ask for the user's, a kernel thread for the kernel's.
unfoldable pub reserve_for : PoolFlags → (vaddr : ℕ) → Spaces → Run Spaces
reserve_for pf vaddr st =
    let is_process = not ((st.sched.tasks st.sched.running).pgdir == 0) in
    elim pf [
      | pf_user ↦
          if is_process
          then (do pool ← reserve_at vaddr st.user_vaddr; ok (record st { user_vaddr = pool }))
          else panic
      | pf_kernel ↦
          if is_process
          then panic
          else (do pool ← reserve_at vaddr st.kernel_vaddr; ok (record st { kernel_vaddr = pool }))
    ]

abbrev pub lock_of : PoolFlags → Spaces → Lock
lock_of pf_kernel st = st.kernel_lock
lock_of pf_user st = st.user_lock

abbrev pub set_lock : PoolFlags → Lock → Sched → Spaces → Spaces
set_lock pf_kernel lock s st = record st { kernel_lock = lock; sched = s }
set_lock pf_user lock s st = record st { user_lock = lock; sched = s }

unfoldable pub get_a_page : PoolFlags → (vaddr : ℕ) → Spaces → Run (Option ℕ × Spaces)
get_a_page pf vaddr st = do
  (passed, lock, s) ← lock_acquire (lock_of pf st) st.sched
  let locked = set_lock pf lock s st
  elim passed [
    | false ↦ ok (none, locked)
    | true ↦ do
      reserved ← reserve_for pf vaddr locked
      m ← map_page pf vaddr reserved.memory
      (lock', s') ← lock_release lock s
      ok (some vaddr, set_lock pf lock' s' (record reserved { memory = m }))
  ]
