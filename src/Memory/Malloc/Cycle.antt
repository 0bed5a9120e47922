-- ===== src/Memory/Malloc/Cycle.antt =====
-- A block of an empty free list, and its way back, for a kernel thread.
use os_learning.Base.{
  ℕ, suc, ◌+◌, ◌-◌, ◌%◌, ◌^◌, ◌<◌, ◌≤◌, ◌≡◌, refl, sym, ap, ◌∙◌, true, false, some, List, [], ◌∷◌,
  ◌++◌, arith, ◌==◌, update,
}
use os_learning.Base.Run.{ok, ◌>>=◌, Returns}
use os_learning.Bitmap.{is_free}
use os_learning.Memory.Defs.{Memory, pte_ptr}
use os_learning.Memory.Virtual.{pf_kernel, VirtualAddr}
use os_learning.Memory.Arena.{block_desc_init, find_desc, arena2block, block2arena}
use os_learning.Memory.Blocks.{size_at, find_desc-first, block2arena-arena2block}
use os_learning.Memory.Mapping.{pte_ptr-range}
use os_learning.Memory.Palloc.{SameFree}
use os_learning.Memory.Pages.{malloc_page, clear_pages}
use os_learning.Memory.Pages.Taking.{at}
use os_learning.Memory.Pages.Heap.{CanTake, Allocated, malloc_page-Allocated, free-Same}
use os_learning.Memory.Malloc.Defs.{
  Arena, Heap, desc_at, drain, new_arena, clear_block, take_from, take_block, free_in_arena,
  malloc_small, free_small, free_block,
}
use os_learning.Memory.Malloc.Descs.{IsDesc, desc_at-IsDesc, desc_at-size}
use os_learning.Memory.Malloc.Arenas.{blocks, fill-blocks, drain-turned}

same : (a : ℕ) → (a == a) ≡ true
same a = ground arith

module _ (st : Heap) (idx : ℕ) (d : IsDesc (desc_at idx)) (empty : st.free_list idx ≡ [])
    (c : CanTake 1 st.vaddr st.memory) where
  module _ (a : ℕ) (pool : VirtualAddr) (m : Memory)
      (w : Allocated 1 st.vaddr st.memory (a, pool, m)) where
    pub place : a ≡ at st.vaddr.vaddr_start w.place
    place = let e = w.reserved.addr in cc

    pub whole : a % 2 ^ 12 ≡ 0
    whole = omega (arith, place, c.heap.whole)

    pub low : a + 4096 ≤ 0xffc00000
    low = omega (arith, place, c.heap.low, w.reserved.in_pool)

    pub small : a < 2 ^ 32
    small = omega (arith, low)

    abbrev pub all : List ℕ
    all = blocks a (desc_at idx) d.fills whole small (desc_at idx).blocks_per_arena 0

    abbrev pub made : Heap
    made = record st {
      memory = record m { word = clear_pages a 1 m.word };
      vaddr = pool;
      arenas =
          update st.arenas a
            (record { desc = some idx; cnt = (desc_at idx).blocks_per_arena; large = false });
      free_list = update st.free_list idx all;
    }

    pub new_arena-eq :
        malloc_page pf_kernel 1 st.vaddr st.memory ≡ ok (a, pool, m)
        → new_arena pf_kernel idx st ≡ ok made
    unfolding new_arena
    new_arena-eq run =
        let filled =
          fill-blocks a (desc_at idx) d.fills whole small (desc_at idx).blocks_per_arena 0 []
            (omega arith) (λ k low high. refl) in
        rw (run, empty, filled) refl

    abbrev pub left : List ℕ
    left = blocks a (desc_at idx) d.fills whole small ((desc_at idx).blocks_per_arena - 1) 1

    abbrev pub first : ℕ
    first = arena2block a 0 (desc_at idx)

    pub all-eq : all ≡ first ∷ left
    all-eq =
        let count : (desc_at idx).blocks_per_arena ≡ suc ((desc_at idx).blocks_per_arena - 1) =
          omega (arith, d.some_blocks) in
        ap (λ n. blocks a (desc_at idx) d.fills whole small n 0) count

    pub first-arena : block2arena first ≡ a
    first-arena = block2arena-arena2block a 0 (desc_at idx) d.fills whole small d.some_blocks

    abbrev pub one_less : Arena
    one_less = record {
      desc = some idx;
      cnt = ((desc_at idx).blocks_per_arena + 2 ^ 32 - 1) % 2 ^ 32;
      large = false;
    }

    abbrev pub words : ℕ → ℕ
    words = clear_block first (desc_at idx).block_size (clear_pages a 1 m.word)

    abbrev pub took : Heap
    took = record made {
      memory = record m { word = words };
      arenas = update made.arenas a one_less;
      free_list = update made.free_list idx left;
    }

    take_block-eq : take_block idx made ≡ ok (first, took)
    unfolding take_block take_from
    take_block-eq =
        let list : made.free_list idx ≡ first ∷ left = rw (same idx) all-eq in
        ap (λ l. take_from l idx made) list ∙ rw (first-arena, same a) refl

    -- neither `memset` reaches the entries
    pub words-entries : (k : ℕ) → k < 1 → words (pte_ptr (at a k)) ≡ m.word (pte_ptr (at a k))
    unfolding arena2block
    words-entries k less =
        let above = (pte_ptr-range (at a k) (omega (arith, low))).0 in
        ground (arith, above, low, d.inside)

    full_again :
        ((((desc_at idx).blocks_per_arena + 2 ^ 32 - 1) % 2 ^ 32 + 1) % 2 ^ 32
          == (desc_at idx).blocks_per_arena)
        ≡ true
    full_again = ground (arith, d.some_blocks, d.few)

    pub free-eq :
        0x102000 ≤ st.memory.kernel_pool.phy_addr_start
        → Returns
            (λ st'.
              SameFree st.memory st'.memory
              × ((k : ℕ) → is_free st'.vaddr.vaddr_bitmap k ≡ is_free st.vaddr.vaddr_bitmap k)
              × (st'.free_list idx ≡ [])
              × (st'.lock ≡ st.lock)
              × (st'.sched ≡ st.sched))
            (free_block first took)
    unfolding free_block free_in_arena free_small
    free-eq above =
        let (r, frees, (pages, bits, gone)) =
          free-Same 1 st.vaddr st.memory c above a pool m w words words-entries in
        let count : suc ((desc_at idx).blocks_per_arena - 1) ≡ (desc_at idx).blocks_per_arena =
          omega (arith, d.some_blocks) in
        let turned =
          drain-turned a (desc_at idx) d.fills whole small ((desc_at idx).blocks_per_arena - 1)
            (omega (arith, d.some_blocks)) in
        let emptied : drain (desc_at idx).blocks_per_arena 0 a (desc_at idx) (left ++ (first ∷ []))
            ≡ ok [] =
          ap (λ n. drain n 0 a (desc_at idx) (left ++ (first ∷ []))) (sym count) ∙ turned in
        let arena : took.arenas a ≡ one_less = rw (same a) refl in
        let list : took.free_list idx ≡ left = rw (same idx) refl in
        let st' : Heap = record took {
          memory = r.1;
          vaddr = r.0;
          arenas = update took.arenas a (record one_less { cnt = (one_less.cnt + 1) % 2 ^ 32 });
          free_list = update took.free_list idx [];
        } in
        (
          st',
          ap (λ b. free_in_arena (took.arenas b).desc b first took) first-arena
              ∙ ap (λ q. free_in_arena q.desc a first took) arena
              ∙ rw (same a, same idx, full_again, emptied, frees) refl,
          (pages, bits, rw (same idx) refl, refl, refl),
        )

-- The block is as large as asked, lies in the page and is full of zeros.
pub record Block (size : ℕ) (r : ℕ × Heap) : Type 0 where
  pub in_page : block2arena r.0 + 12 ≤ r.0
  pub ends : r.0 + size ≤ block2arena r.0 + 4096
  pub zeros : (x : ℕ) → r.0 ≤ x → x < r.0 + size → r.1.memory.word x ≡ 0

module _ (size : ℕ) (st : Heap) (few : size ≤ 1024) (empty : (i : ℕ) → st.free_list i ≡ [])
    (c : CanTake 1 st.vaddr st.memory) where
  abbrev pub idx : ℕ
  idx = find_desc block_desc_init size 0

  idx-lt : idx < 7
  idx-lt = let (i, e, less, fits, least) = find_desc-first size few in omega (arith, e)

  pub d : IsDesc (desc_at idx)
  d = desc_at-IsDesc idx idx-lt

  size-le : size ≤ (desc_at idx).block_size
  size-le =
      let (i, e, less, fits, least) = find_desc-first size few in
      omega (arith, desc_at-size idx, ap (size_at block_desc_init) e)

  pub small-eq :
      (a : ℕ) (pool : VirtualAddr) (m : Memory) (w : Allocated 1 st.vaddr st.memory (a, pool, m))
      → malloc_page pf_kernel 1 st.vaddr st.memory ≡ ok (a, pool, m)
      → malloc_small pf_kernel size st
        ≡ ok (first st idx d (empty idx) c a pool m w, took st idx d (empty idx) c a pool m w)
  unfolding malloc_small
  small-eq a pool m w run = rw (empty idx) (
      ap (λ r. r >>= take_block idx) (new_arena-eq st idx d (empty idx) c a pool m w run)
      ∙ take_block-eq st idx d (empty idx) c a pool m w)

  -- Where all free lists are empty and one page can be taken, `sys_malloc`'s part for at most 1024
  -- bytes returns a block that lies in its page behind the arena's head, has the size or more, and
  -- is full of zeros.
  pub malloc_small-Block : Returns (Block size) (malloc_small pf_kernel size st)
  unfolding arena2block
  malloc_small-Block =
      let ((a, pool, m), run, w) = malloc_page-Allocated 1 st.vaddr st.memory c in
      let b : ℕ = first st idx d (empty idx) c a pool m w in
      let page : block2arena b ≡ a = first-arena st idx d (empty idx) c a pool m w in
      let whole = whole st idx d (empty idx) c a pool m w in
      let low = low st idx d (empty idx) c a pool m w in
      (
        (b, took st idx d (empty idx) c a pool m w),
        small-eq a pool m w run,
        record {
          in_page = omega (arith, page, low);
          ends = omega (arith, page, low, size-le, d.inside);
          zeros = λ x from to. ground (arith, size-le, from, to);
        },
      )
