-- ===== src/Memory/Malloc/Defs.antt =====
-- `sys_malloc` and `sys_free` of kernel/memory.c, for the pool that the running thread's `pgdir` stands for. The heads
-- of the arenas and the free lists, which the C code keeps inside the pages, have a place of their own here.
use os_learning.Base.{
  ℕ, zero, suc, ◌+◌, ◌-◌, ◌/◌, ◌%◌, ◌^◌, Bool, true, false, ◌&&◌, not, Option, none, some, List, [],
  ◌∷◌, ◌++◌, ltb, leb, ◌==◌, if◌then◌else◌, has, get_or, update,
}
use os_learning.Base.Run.{Run, ok, panic, fault, ◌>>=◌, ◌>>◌, assert}
use os_learning.Thread.{Sched}
use os_learning.Sync.{Lock, lock_acquire, lock_release}
use os_learning.Memory.Defs.{page_size, Memory}
use os_learning.Memory.Virtual.{PoolFlags, pf_kernel, pf_user, VirtualAddr}
use os_learning.Memory.Arena.{
  MemBlockDesc, block_desc_init, arena_size, find_desc, arena2block, block2arena,
}
use os_learning.Memory.Pages.{pool_of, malloc_page, mfree_page, clear_pages}

-- `struct arena`; `desc` is the index of the descriptor, or `none` for NULL
pub record Arena : Type 0 where
  pub desc : Option ℕ
  pub cnt : ℕ
  pub large : Bool

-- The memory, the virtual pool and the pool's lock, the arenas by address, and the free list of each descriptor.
pub record Heap : Type 0 where
  pub memory : Memory
  pub vaddr : VirtualAddr
  pub lock : Lock
  pub sched : Sched
  pub arenas : ℕ → Arena
  pub free_list : ℕ → List ℕ

unfoldable pub desc_at : ℕ → MemBlockDesc
desc_at i = get_or block_desc_init i (record { block_size = 0; blocks_per_arena = 0 })

-- `n` rounds of the loop that puts an arena's blocks into the free list
unfoldable pub fill : (n block_idx a : ℕ) → MemBlockDesc → List ℕ → Run (List ℕ)
fill zero block_idx a desc free = ok free
fill (suc n) block_idx a desc free = do
  let b = arena2block a block_idx desc
  assert (not (has b free))
  fill n (block_idx + 1) a desc (free ++ (b ∷ []))

-- `list_remove` of an element that is in the list once
abbrev pub without : ℕ → List ℕ → List ℕ
without b [] = []
without b (x ∷ xs) = if x == b then without b xs else x ∷ without b xs

-- `n` rounds of the loop that takes them out
unfoldable pub drain : (n block_idx a : ℕ) → MemBlockDesc → List ℕ → Run (List ℕ)
drain zero block_idx a desc free = ok free
drain (suc n) block_idx a desc free = do
  let b = arena2block a block_idx desc
  assert (has b free)
  drain n (block_idx + 1) a desc (without b free)

-- A page becomes an arena, and its blocks the free list, which is empty.
unfoldable pub new_arena : PoolFlags → (desc_idx : ℕ) → Heap → Run Heap
new_arena pf desc_idx st = do
  (a, pool, m) ← malloc_page pf 1 st.vaddr st.memory
  let desc = desc_at desc_idx
  free ← fill desc.blocks_per_arena 0 a desc (st.free_list desc_idx)
  ok (record st {
    memory = record m { word = clear_pages a 1 m.word };
    vaddr = pool;
    arenas =
        update st.arenas a
          (record { desc = some desc_idx; cnt = desc.blocks_per_arena; large = false });
    free_list = update st.free_list desc_idx free;
  })

-- `memset(b, 0, block_size)`
abbrev pub clear_block : (b size : ℕ) → (ℕ → ℕ) → ℕ → ℕ
clear_block b size word a = if leb b a && ltb a (b + size) then 0 else word a

-- The first free block is taken out of its list and its arena; `list_pop` of an empty list fails its ASSERT.
unfoldable pub take_from : List ℕ → (desc_idx : ℕ) → Heap → Run (ℕ × Heap)
take_from [] desc_idx st = panic
take_from (b ∷ rest) desc_idx st =
    let a = block2arena b in
    let arena = st.arenas a in
    ok (
      b,
      record st {
        memory = record st.memory {
          word = clear_block b (desc_at desc_idx).block_size st.memory.word;
        };
        arenas = update st.arenas a (record arena { cnt = (arena.cnt + 2 ^ 32 - 1) % 2 ^ 32 });
        free_list = update st.free_list desc_idx rest;
      },
    )

unfoldable pub take_block : (desc_idx : ℕ) → Heap → Run (ℕ × Heap)
unfolding take_from
take_block desc_idx st = take_from (st.free_list desc_idx) desc_idx st

abbrev pub is_empty : List ℕ → Bool
is_empty [] = true
is_empty (x ∷ xs) = false

-- the part of `sys_malloc` for at most 1024 bytes, with the lock
unfoldable pub malloc_small : PoolFlags → (size : ℕ) → Heap → Run (ℕ × Heap)
malloc_small pf size st = do
  let desc_idx = find_desc block_desc_init size 0
  st' ← if is_empty (st.free_list desc_idx) then new_arena pf desc_idx st else ok st
  take_block desc_idx st'

-- and that for more: whole pages behind the arena's head
unfoldable pub malloc_large : PoolFlags → (size : ℕ) → Heap → Run (ℕ × Heap)
malloc_large pf size st = do
  let pg_cnt = (size + arena_size + page_size - 1) % 2 ^ 32 / page_size
  (a, pool, m) ← malloc_page pf pg_cnt st.vaddr st.memory
  ok (
    a + arena_size,
    record st {
      memory = record m { word = clear_pages a pg_cnt m.word };
      vaddr = pool;
      arenas = update st.arenas a (record { desc = none; cnt = pg_cnt; large = true });
    },
  )

-- The answer is `none` for NULL, and where the caller has blocked for the lock.
unfoldable pub sys_malloc : PoolFlags → (size : ℕ) → Heap → Run (Option ℕ × Heap)
sys_malloc pf size st =
    let body : Run (Option ℕ × Heap) = (do
      (passed, lock, s) ← lock_acquire st.lock st.sched
      let locked = record st { lock = lock; sched = s }
      elim passed [
        | false ↦ ok (none, locked)
        | true ↦ do
          (b, st') ←
              if ltb 1024 size then malloc_large pf size locked else malloc_small pf size locked
          (lock', s') ← lock_release st'.lock st'.sched
          ok (some b, record st' { lock = lock'; sched = s' })
      ]) in
    if ltb (pool_of pf st.memory).pool_size size then ok (none, st) else body

-- a block goes back; when its arena is full, its page goes back too
unfoldable pub free_small : (a desc_idx ptr : ℕ) → Heap → Run Heap
free_small a desc_idx ptr st = do
  let desc = desc_at desc_idx
  let arena = st.arenas a
  let free = st.free_list desc_idx ++ (ptr ∷ [])
  let cnt = (arena.cnt + 1) % 2 ^ 32
  let arenas = update st.arenas a (record arena { cnt = cnt })
  let emptied : Run Heap = (do
    left ← drain desc.blocks_per_arena 0 a desc free
    (pool, m) ← mfree_page a 1 st.vaddr st.memory
    ok (record st {
      memory = m;
      vaddr = pool;
      arenas = arenas;
      free_list = update st.free_list desc_idx left;
    }))
  if cnt == desc.blocks_per_arena
      then emptied
      else ok (record st { arenas = arenas; free_list = update st.free_list desc_idx free })

-- A small arena's `large` is false; one without a descriptor that is not large would be a NULL pointer's.
unfoldable pub free_in_arena : (desc : Option ℕ) → (a ptr : ℕ) → Heap → Run Heap
free_in_arena none a ptr st =
    if (st.arenas a).large
    then (do
      (pool, m) ← mfree_page a (st.arenas a).cnt st.vaddr st.memory
      ok (record st { memory = m; vaddr = pool }))
    else fault
free_in_arena (some desc_idx) a ptr st = free_small a desc_idx ptr st

unfoldable pub free_block : (ptr : ℕ) → Heap → Run Heap
free_block ptr st = let a = block2arena ptr in free_in_arena (st.arenas a).desc a ptr st

abbrev pub k_heap_start : ℕ
k_heap_start = 0xc0100000

abbrev pub may_free : PoolFlags → (ptr : ℕ) → Bool
may_free pf_kernel ptr = ltb k_heap_start ptr
may_free pf_user ptr = true

-- `false` where the caller has blocked for the lock
unfoldable pub sys_free : PoolFlags → (ptr : ℕ) → Heap → Run (Bool × Heap)
sys_free pf ptr st = do
  assert (not (ptr == 0))
  assert (may_free pf ptr)
  (passed, lock, s) ← lock_acquire st.lock st.sched
  let locked = record st { lock = lock; sched = s }
  elim passed [
    | false ↦ ok (false, locked)
    | true ↦ do
      st' ← free_block ptr locked
      (lock', s') ← lock_release st'.lock st'.sched
      ok (true, record st' { lock = lock'; sched = s' })
  ]
