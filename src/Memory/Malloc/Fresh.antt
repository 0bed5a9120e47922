-- ===== src/Memory/Malloc/Fresh.antt =====
-- The small part of `sys_malloc`, where the free lists are partly used.
use os_learning.Base.{
  ℕ, ◌+◌, ◌<◌, ◌≤◌, ◌≡◌, refl, ap, ◌∙◌, Bool, true, false, List, [], ◌∷◌, arith, ◌==◌, has,
}
use os_learning.Base.Run.{◌>>=◌, Returns}
use os_learning.Memory.Virtual.{pf_kernel}
use os_learning.Memory.Arena.{block_desc_init, find_desc}
use os_learning.Memory.Blocks.{find_desc-first, size_at}
use os_learning.Memory.Pages.Heap.{CanTake, malloc_page-Allocated}
use os_learning.Memory.Malloc.Defs.{Heap, desc_at, take_block, malloc_small}
use os_learning.Memory.Malloc.Descs.{desc_at-IsDesc, desc_at-size}
use os_learning.Memory.Malloc.Cycle.{first, left, made, all-eq, new_arena-eq}
use os_learning.Memory.Malloc.Sound.{BlockOf, Sound}
use os_learning.Memory.Malloc.Apart.{Disjoint, live-Disjoint}
use os_learning.Memory.Malloc.Take
use os_learning.Memory.Malloc.Open

-- The block was not live, is now, has the size or more, is full of zeros and overlaps no other; the heap is sound.
pub record Fresh (size : ℕ) (live : List ℕ) (r : ℕ × Heap) : Type 0 where
  pub not_live : has r.0 live ≡ false
  pub opened_after : ℕ → Bool
  pub sound : Sound r.1 opened_after (r.0 ∷ live)
  pub desc : ℕ
  pub block : BlockOf r.1 opened_after desc r.0
  pub large_enough : size ≤ (desc_at desc).block_size
  pub zeros : (x : ℕ) → r.0 ≤ x → x < r.0 + (desc_at desc).block_size → r.1.memory.word x ≡ 0
  pub apart : (c : ℕ) → has c live ≡ true → Disjoint r.1 opened_after r.0 c

module _ (size : ℕ) (small : size ≤ 1024) where
  abbrev pub idx : ℕ
  idx = find_desc block_desc_init size 0

  idx-lt : idx < 7
  idx-lt = let (i, e, less, fits, least) = find_desc-first size small in omega (arith, e)

  size-le : size ≤ (desc_at idx).block_size
  size-le =
      let (i, e, less, fits, least) = find_desc-first size small in
      omega (arith, desc_at-size idx, ap (size_at block_desc_init) e)

  -- a block from a list that is not empty
  take-Fresh :
      (st : Heap) (opened : ℕ → Bool) (live : List ℕ)
      → Sound st opened live
      → (b : ℕ) (rest : List ℕ) → st.free_list idx ≡ b ∷ rest
      → Returns (Fresh size live) (take_block idx st)
  take-Fresh st opened live v b rest q = (
    (b, Take.taken_heap st opened live v idx b rest q),
    Take.take_block-eq st opened live v idx b rest q,
    record {
      not_live = Take.not_live st opened live v idx b rest q;
      opened_after = opened;
      sound = Take.take-Sound st opened live v idx b rest q;
      desc = idx;
      block = Take.taken_block st opened live v idx b rest q;
      large_enough = size-le;
      zeros = λ x from to. ground (arith, from, to);
      apart = λ c h.
          live-Disjoint (Take.taken_heap st opened live v idx b rest q) opened (b ∷ live)
            (Take.take-Sound st opened live v idx b rest q) b c (ground arith) (ground (arith, h))
            (λ e. absurd (
              ground
                (arith, h, ap (λ x. has x live) e, Take.not_live st opened live v idx b rest q)));
    },
  )

  module _ (st : Heap) (opened : ℕ → Bool) (live : List ℕ) (v : Sound st opened live) where
    from_list :
        (l : List ℕ)
        → st.free_list idx ≡ l
        → (l ≡ [] → CanTake 1 st.vaddr st.memory)
        → Returns (Fresh size live) (malloc_small pf_kernel size st)
    unfolding malloc_small
    from_list (b ∷ rest) q c =
        let (r, run, fresh) = take-Fresh st opened live v b rest q in (r, rw q run, fresh)
    from_list [] q c =
        let can = c refl in
        let ((a, pool, m), run, w) = malloc_page-Allocated 1 st.vaddr st.memory can in
        let d = desc_at-IsDesc idx idx-lt in
        let sound = Open.open-Sound st idx idx-lt d q can a pool m w opened live v in
        let list : (made st idx d q can a pool m w).free_list idx
            ≡ first st idx d q can a pool m w ∷ left st idx d q can a pool m w =
          let self : (idx == idx) ≡ true = ground arith in
          rw self (all-eq st idx d q can a pool m w) in
        let (r, run', fresh) = take-Fresh _ _ live sound _ _ list in
        (
          r,
          rw q (ap (λ o. o >>= take_block idx) (new_arena-eq st idx d q can a pool m w run) ∙ run'),
          fresh,
        )

    -- In a sound heap, where the free list of the size is not empty or one page can be taken, and
    -- for a size of at most 1024: `sys_malloc`'s part for it returns a block that was not given
    -- out, has the size or more, is full of zeros to its end and overlaps no block that is given
    -- out; the heap is sound with it among those.
    pub malloc_small-Fresh :
        (st.free_list idx ≡ [] → CanTake 1 st.vaddr st.memory)
        → Returns (Fresh size live) (malloc_small pf_kernel size st)
    malloc_small-Fresh = from_list (st.free_list idx) refl
