-- ===== src/Memory/Malloc/Tests.antt =====
-- A heap without free blocks: 100 bytes are given out and taken back.
use mathlib.Core.Path.{subst}
use os_learning.Base.{
  ℕ, ◌≡◌, ◌≢◌, refl, sym, ap, Bool, true, false, none, List, [], ◌∷◌, arith, update,
}
use os_learning.Base.Run.{ok, ◌>>=◌, Returns}
use os_learning.Bitmap.{is_free}
use os_learning.Sync.{lock_init}
use os_learning.Thread.Tests.{four_tasks}
use os_learning.Memory.Arena.{block_desc_init, desc_loop, find_desc}
use os_learning.Memory.Defs.{Memory}
use os_learning.Memory.Virtual.{pf_kernel, VirtualAddr}
use os_learning.Memory.Palloc.{SameFree}
use os_learning.Memory.Pages.Tests.{mem, heap, bits, CanTake-one, IsFree-lock}
use os_learning.Memory.Malloc.Defs.{Heap, desc_at, is_empty, malloc_small, free_block}
use os_learning.Memory.Malloc.Descs.{IsDesc, desc_at-IsDesc}
use os_learning.Memory.Malloc.Cycle.{made, first, left, all-eq, first-arena, words-entries}
use os_learning.Memory.Pages.Heap.{Allocated, malloc_page-Allocated}
use os_learning.Memory.Pages.One.{IsMapped, Allocated-IsMapped}
use os_learning.Memory.Malloc.Sound.{Sound}
use os_learning.Memory.Malloc.Open
use os_learning.Memory.Malloc.Take
use os_learning.Memory.Malloc.Fresh.{Fresh, malloc_small-Fresh}
use os_learning.Memory.Malloc.Free.{Freed, free_block-Freed}
use os_learning.Memory.Malloc.Apart.{Disjoint}
use os_learning.Memory.Malloc.Runs.{
  State, Reach, May, begins, goes, mallocs, Reach-Sound, blocks_apart,
}
use os_learning.Memory.Malloc.Cycle.{took, small-eq, idx, d}
use os_learning.Memory.Malloc.Calls.{sys_malloc_and_free, sys_malloc-free}

abbrev no_blocks : Heap
no_blocks = record {
  memory = mem;
  vaddr = heap;
  lock = lock_init;
  sched = four_tasks;
  arenas = λ a. record { desc = none; cnt = 0; large = false };
  free_list = λ i. [];
}

sys_malloc-free_example :
    Returns
      (λ r.
        (r.0 ≡ true)
        × SameFree mem r.1.memory
        × ((k : ℕ) → is_free r.1.vaddr.vaddr_bitmap k ≡ is_free bits k)
        × (r.1.free_list (find_desc block_desc_init 100 0) ≡ [])
        × (r.1.lock ≡ lock_init))
      (sys_malloc_and_free 100 no_blocks)
sys_malloc-free_example =
    sys_malloc-free 100 no_blocks (omega arith) (omega arith) (λ i. refl) CanTake-one IsFree-lock
      (omega arith) (omega arith)

abbrev none_open : ℕ → Bool
none_open a = false

no_blocks-Sound : Sound no_blocks none_open []
no_blocks-Sound = record {
  arena = λ a o. absurd (ground (arith, o));
  page = λ a o. absurd (ground (arith, o));
  taken = λ a o. absurd (ground (arith, o));
  free_in = λ i b h. absurd (ground (arith, h));
  live_in = λ b h. absurd (ground (arith, h));
  once_free = λ i. tt;
  once_live = tt;
  apart = λ i b h. refl;
  covered = λ i a k o. absurd (ground (arith, o.0));
  counted = λ i a o. absurd (ground (arith, o.0));
  total = λ i a o. absurd (ground (arith, o.0));
}

malloc_small-Fresh_example : Returns (Fresh 100 []) (malloc_small pf_kernel 100 no_blocks)
malloc_small-Fresh_example =
    malloc_small-Fresh 100 (omega arith) no_blocks none_open [] no_blocks-Sound (λ e. CanTake-one)

-- A page is taken for blocks of 1024 bytes, and its first block is given out.
abbrev answer : ℕ × VirtualAddr × Memory
answer = (malloc_page-Allocated 1 heap mem CanTake-one).0

taken_page : Allocated 1 heap mem answer
taken_page = (malloc_page-Allocated 1 heap mem CanTake-one).2

large : IsDesc (desc_at 6)
large = desc_at-IsDesc 6 (omega arith)

abbrev one_arena : Heap
one_arena = made no_blocks 6 large refl CanTake-one answer.0 answer.1 answer.2 taken_page

abbrev block : ℕ
block = first no_blocks 6 large refl CanTake-one answer.0 answer.1 answer.2 taken_page

abbrev blocks_left : List ℕ
blocks_left = left no_blocks 6 large refl CanTake-one answer.0 answer.1 answer.2 taken_page

abbrev one_open : ℕ → Bool
one_open = update none_open answer.0 true

one_arena-Sound : Sound one_arena one_open []
one_arena-Sound =
    Open.open-Sound no_blocks 6 (omega arith) large refl CanTake-one answer.0 answer.1 answer.2
      taken_page none_open [] no_blocks-Sound

one_list : one_arena.free_list 6 ≡ block ∷ blocks_left
one_list = all-eq no_blocks 6 large refl CanTake-one answer.0 answer.1 answer.2 taken_page

abbrev one_given : Heap
one_given = Take.taken_heap one_arena one_open [] one_arena-Sound 6 block blocks_left one_list

one-IsMapped : IsMapped answer.0 one_given.vaddr one_given.memory
one-IsMapped =
    Allocated-IsMapped heap mem CanTake-one (omega arith) answer.0 answer.1 answer.2 taken_page
      one_given.memory.word
      (words-entries no_blocks 6 large refl CanTake-one answer.0 answer.1 answer.2 taken_page)

free_block-Freed_example :
    Returns (Freed one_given one_open (block ∷ []) block) (free_block block one_given)
free_block-Freed_example =
    free_block-Freed one_given one_open (block ∷ [])
      (Take.take-Sound one_arena one_open [] one_arena-Sound 6 block blocks_left one_list) block
      (ground arith)
      (λ i own last.
        subst (λ a. IsMapped a one_given.vaddr one_given.memory)
          (sym
            (first-arena no_blocks 6 large refl CanTake-one answer.0 answer.1 answer.2 taken_page))
          one-IsMapped)

-- Two calls for 1024 bytes.
all_empty : (i : ℕ) → no_blocks.free_list i ≡ []
all_empty i = refl

abbrev last_desc : ℕ
last_desc = idx 1024 no_blocks (omega arith) all_empty CanTake-one

last-IsDesc : IsDesc (desc_at last_desc)
last-IsDesc = d 1024 no_blocks (omega arith) all_empty CanTake-one

abbrev ptr : ℕ
ptr =
    first no_blocks last_desc last-IsDesc (all_empty last_desc) CanTake-one answer.0 answer.1
      answer.2 taken_page

abbrev one_live : State
one_live = record {
  heap =
      took no_blocks last_desc last-IsDesc (all_empty last_desc) CanTake-one answer.0 answer.1
        answer.2 taken_page;
  live = ptr ∷ [];
}

goes-one : Reach no_blocks one_live
goes-one =
    goes begins (mallocs 1024) (omega arith, λ e. CanTake-one)
      (ap (λ r. r >>= λ x. ok (record { heap = x.1; live = x.0 ∷ [] }))
        (small-eq 1024 no_blocks (omega arith) all_empty CanTake-one answer.0 answer.1 answer.2
          taken_page (malloc_page-Allocated 1 heap mem CanTake-one).1))

two-left : one_live.heap.free_list (find_desc block_desc_init 1024 0) ≢ []
unfolding find_desc block_desc_init desc_loop desc_at
two-left e = let wrong : false ≡ true = ap is_empty e in absurd (ground arith)

again_allowed : May (mallocs 1024) one_live
again_allowed = (omega arith, λ e. absurd (two-left e))

again : Returns (Fresh 1024 (ptr ∷ [])) (malloc_small pf_kernel 1024 one_live.heap)
again =
    let (opened, v) = Reach-Sound no_blocks all_empty goes-one in
    malloc_small-Fresh 1024 (omega arith) one_live.heap opened (ptr ∷ []) v again_allowed.1

abbrev two_live : State
two_live = record { heap = again.0.1; live = again.0.0 ∷ ptr ∷ [] }

goes-two : Reach no_blocks two_live
goes-two =
    goes goes-one (mallocs 1024) again_allowed
      (ap (λ r. r >>= λ x. ok (record { heap = x.1; live = x.0 ∷ ptr ∷ [] })) again.1)

blocks_apart_example : (opened : ℕ → Bool) × Disjoint two_live.heap opened again.0.0 ptr
blocks_apart_example =
    blocks_apart no_blocks all_empty two_live again.0.0 ptr goes-two (ground arith) (ground arith)
      (λ e. absurd (ground (arith, again.2.not_live, e)))
