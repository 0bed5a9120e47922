-- ===== src/Memory/Malloc/Sound.antt =====
-- What holds of the heap of small blocks between the calls of `sys_malloc` and `sys_free`.
use os_learning.Base.{ℕ, ◌+◌, ◌%◌, ◌^◌, ◌<◌, ◌≡◌, ◌⊎◌, Bool, true, false, some, List, has, Distinct}
use os_learning.Bitmap.{is_free}
use os_learning.Memory.Arena.{arena2block, block2arena}
use os_learning.Memory.Pages.Taking.{at}
use os_learning.Memory.Malloc.Defs.{Heap, desc_at}
use os_learning.Memory.Malloc.Counts.{count_in}

abbrev pub per_arena : (i : ℕ) → ℕ
per_arena i = (desc_at i).blocks_per_arena

-- `a` is an arena with the blocks of descriptor `i`
abbrev pub ArenaOf : Heap → (opened : ℕ → Bool) → (i a : ℕ) → Type 0
ArenaOf st opened i a = (opened a ≡ true) × ((st.arenas a).desc ≡ some i)

-- `b` is one of its blocks
abbrev pub BlockOf : Heap → (opened : ℕ → Bool) → (i b : ℕ) → Type 0
BlockOf st opened i b =
    ArenaOf st opened i (block2arena b)
    × ((k : ℕ) × (k < per_arena i) × (b ≡ arena2block (block2arena b) k (desc_at i)))

-- `opened` are the pages that are arenas, and `live` the blocks that are given out. Each block of an arena is free
-- or live and not both; the arena counts its free blocks; its page is taken in the virtual pool.
pub record Sound (st : Heap) (opened : ℕ → Bool) (live : List ℕ) : Type 0 where
  pub arena : (a : ℕ) → opened a ≡ true → (i : ℕ) × (i < 7) × ((st.arenas a).desc ≡ some i)
  pub page : (a : ℕ) → opened a ≡ true → (a % 2 ^ 12 ≡ 0) × (a < 2 ^ 32)
  pub taken :
      (a : ℕ)
      → opened a ≡ true
      → (j : ℕ) × (a ≡ at st.vaddr.vaddr_start j) × (is_free st.vaddr.vaddr_bitmap j ≡ false)
  pub free_in : (i b : ℕ) → has b (st.free_list i) ≡ true → BlockOf st opened i b
  pub live_in : (b : ℕ) → has b live ≡ true → (i : ℕ) × BlockOf st opened i b
  pub once_free : (i : ℕ) → Distinct (st.free_list i)
  pub once_live : Distinct live
  pub apart : (i b : ℕ) → has b live ≡ true → has b (st.free_list i) ≡ false
  pub covered :
      (i a k : ℕ)
      → ArenaOf st opened i a
      → k < per_arena i
      → (has (arena2block a k (desc_at i)) (st.free_list i) ≡ true)
        ⊎ (has (arena2block a k (desc_at i)) live ≡ true)
  pub counted : (i a : ℕ) → ArenaOf st opened i a → (st.arenas a).cnt ≡ count_in a (st.free_list i)
  pub total : (i a : ℕ) → ArenaOf st opened i a → (st.arenas a).cnt + count_in a live ≡ per_arena i
