-- ===== src/Memory/Malloc/Open.antt =====
-- A page becomes an arena of free blocks.
use mathlib.Core.Path.{subst}
use os_learning.Base.{
  ℕ, ◌+◌, ◌%◌, ◌^◌, ◌<◌, ◌≡◌, ◌≢◌, refl, sym, ap, ◌∙◌, ◌⊎◌, inl, inr, Bool, Bool-cases, true, false,
  some, List, [], arith, ◌==◌, has, Distinct, update,
}
use os_learning.Bitmap.{is_free}
use os_learning.Memory.Defs.{Memory}
use os_learning.Memory.Virtual.{VirtualAddr}
use os_learning.Memory.Arena.{arena2block, block2arena}
use os_learning.Memory.Blocks.{block2arena-arena2block}
use os_learning.Memory.Pages.Taking.{at}
use os_learning.Memory.Pages.Heap.{CanTake, Allocated}
use os_learning.Memory.Malloc.Defs.{Heap, desc_at}
use os_learning.Memory.Malloc.Listed.{Distinct-blocks, count_in-blocks}
use os_learning.Memory.Malloc.Arenas.{has-blocks, blocks-has}
use os_learning.Memory.Malloc.Counts.{count_in, count_in-zero}
use os_learning.Memory.Malloc.Descs.{IsDesc}
use os_learning.Memory.Malloc.Cycle.{all, made, whole, small, place}
use os_learning.Memory.Malloc.Sound.{per_arena, ArenaOf, BlockOf, Sound}

module _ (st : Heap) (idx : ℕ) (few : idx < 7) (d : IsDesc (desc_at idx))
    (empty : st.free_list idx ≡ []) (c : CanTake 1 st.vaddr st.memory) (a : ℕ) (pool : VirtualAddr)
    (m : Memory) (w : Allocated 1 st.vaddr st.memory (a, pool, m)) (opened : ℕ → Bool)
    (live : List ℕ) (v : Sound st opened live) where
  abbrev made_heap : Heap
  made_heap = made st idx d empty c a pool m w

  abbrev new_blocks : List ℕ
  new_blocks = all st idx d empty c a pool m w

  aligned : a % 2 ^ 12 ≡ 0
  aligned = whole st idx d empty c a pool m w

  below : a < 2 ^ 32
  below = small st idx d empty c a pool m w

  abbrev pub opened_next : ℕ → Bool
  opened_next = update opened a true

  -- The page was free in the virtual pool, and those of the arenas are not.
  fresh_page : opened a ≡ false
  fresh_page = elim (Bool-cases (opened a)) [
    | inl old ↦
        let (j, e, busy) = v.taken a old in
        let here = place st idx d empty c a pool m w in
        let same : j ≡ w.place + 0 = omega (arith, e, here) in
        let free : is_free st.vaddr.vaddr_bitmap (w.place + 0) ≡ true =
          w.reserved.was_free 0 (omega arith) in
        absurd (ground (arith, ap (is_free st.vaddr.vaddr_bitmap) same, free, busy))
    | inr new ↦ new
  ]

  not_page : (x : ℕ) → opened x ≡ true → (a == x) ≡ false
  not_page x o = ground (arith, fresh_page, o)

  arena_before :
      (j x : ℕ) → (a == x) ≡ false → ArenaOf made_heap opened_next j x → ArenaOf st opened j x
  arena_before j x ne (o, e) = (rw ne at o, rw ne at e)

  block_kept : (j x : ℕ) → BlockOf st opened j x → BlockOf made_heap opened_next j x
  block_kept j x ((o, e), k) = let ne = not_page (block2arena x) o in ((rw ne o, rw ne e), k)

  -- a block of the new arena
  new_block :
      (x : ℕ) → has x new_blocks ≡ true → (block2arena x ≡ a) × BlockOf made_heap opened_next idx x
  new_block x h =
      let (k, low, high, e) =
        has-blocks a (desc_at idx) d.fills aligned below (per_arena idx) 0 x h in
      let less : k < per_arena idx = omega arith in
      let home : block2arena x ≡ a =
        ap block2arena e ∙ block2arena-arena2block a k (desc_at idx) d.fills aligned below less in
      let self : (a == block2arena x) ≡ true = rw home (ground arith) in
      (
        home,
        (
          (rw self refl, rw self refl),
          (k, less, e ∙ ap (λ y. arena2block y k (desc_at idx)) (sym home)),
        ),
      )

  block_before :
      (j x : ℕ)
      → (block2arena x ≡ a → ⊥)
      → BlockOf made_heap opened_next j x
      → BlockOf st opened j x
  block_before j x ne ((o, e), k) =
      let apart : (a == block2arena x) ≡ false = ground (arith, ne) in
      ((rw apart at o, rw apart at e), k)

  lists : (j : ℕ) → (idx == j) ≡ false → made_heap.free_list j ≡ st.free_list j
  lists j ne = rw ne refl

  -- the blocks of the other lists, and those that are given out, lie in other arenas
  old_free : (j x : ℕ) → has x (st.free_list j) ≡ true → block2arena x ≢ a
  old_free j x h e = absurd (ground (arith, (v.free_in j x h).0.0, fresh_page, ap opened e))

  old_live : (x : ℕ) → has x live ≡ true → block2arena x ≢ a
  old_live x h e =
      let (j, o) = v.live_in x h in absurd (ground (arith, o.0.0, fresh_page, ap opened e))

  made_free_in :
      (j x : ℕ) → has x (made_heap.free_list j) ≡ true → BlockOf made_heap opened_next j x
  made_free_in j x h = elim (Bool-cases (idx == j)) [
    | inl here ↦
        let e : idx ≡ j = ground arith in
        subst (λ i. BlockOf made_heap opened_next i x) e (new_block x (rw here at h)).1
    | inr there ↦ block_kept j x (v.free_in j x (rw there at h))
  ]

  made_once : (j : ℕ) → Distinct (made_heap.free_list j)
  made_once j = elim (Bool-cases (idx == j)) [
    | inl here ↦
        rw here
          (Distinct-blocks a (desc_at idx) d.fills aligned below (per_arena idx) 0 (omega arith))
    | inr there ↦ rw there (v.once_free j)
  ]

  made_apart : (j x : ℕ) → has x live ≡ true → has x (made_heap.free_list j) ≡ false
  made_apart j x h = elim (Bool-cases (idx == j)) [
    | inl here ↦ rw here (elim (Bool-cases (has x new_blocks)) [
      | inl inside ↦ absurd (old_live x h (new_block x inside).0)
      | inr outside ↦ outside
    ])
    | inr there ↦ rw there (v.apart j x h)
  ]

  -- The descriptor of the new arena is `idx`.
  of_new : (j : ℕ) → ArenaOf made_heap opened_next j a → idx ≡ j
  of_new j (o, e) =
      let self : (a == a) ≡ true = ground arith in let e' : some idx ≡ some j = rw self at e in cc

  made_covered :
      (j y k : ℕ)
      → ArenaOf made_heap opened_next j y
      → k < per_arena j
      → (has (arena2block y k (desc_at j)) (made_heap.free_list j) ≡ true)
        ⊎ (has (arena2block y k (desc_at j)) live ≡ true)
  made_covered j y k o less = elim (Bool-cases (a == y)) [
    | inl here ↦
        let e : a ≡ y = ground arith in
        let same = of_new j (subst (ArenaOf made_heap opened_next j) (sym e) o) in
        let first : (idx == j) ≡ true = rw same (ground arith) in
        let inside : has (arena2block a k (desc_at idx)) new_blocks ≡ true =
          blocks-has a (desc_at idx) d.fills aligned below (per_arena idx) 0 k (omega arith)
            (subst (λ i. k < 0 + per_arena i) (sym same) (omega arith)) in
        inl (
          rw first (
            ap (λ (z : ℕ). has (arena2block z k (desc_at j)) new_blocks) (sym e)
            ∙ ap (λ (i : ℕ). has (arena2block a k (desc_at i)) new_blocks) (sym same)
            ∙ inside))
    | inr there ↦ split (v.covered j y k (arena_before j y there o) less)
  ]
    where
      split :
          (has (arena2block y k (desc_at j)) (st.free_list j) ≡ true)
            ⊎ (has (arena2block y k (desc_at j)) live ≡ true)
          → (has (arena2block y k (desc_at j)) (made_heap.free_list j) ≡ true)
            ⊎ (has (arena2block y k (desc_at j)) live ≡ true)
      split (inr h) = inr h
      split (inl h) = elim (Bool-cases (idx == j)) [
        | inl here ↦
            let e : idx ≡ j = ground arith in
            absurd (ground (arith, h, ap (λ l. has (arena2block y k (desc_at j)) l) empty, e))
        | inr other ↦ inl (rw other h)
      ]

  made_counted :
      (j y : ℕ)
      → ArenaOf made_heap opened_next j y
      → (made_heap.arenas y).cnt ≡ count_in y (made_heap.free_list j)
  unfolding count_in
  made_counted j y o = elim (Bool-cases (a == y)) [
    | inl here ↦
        let e : a ≡ y = ground arith in
        let same = of_new j (subst (ArenaOf made_heap opened_next j) (sym e) o) in
        let first : (idx == j) ≡ true = rw same (ground arith) in
        let all_there =
          count_in-blocks a (desc_at idx) d.fills aligned below (per_arena idx) 0 (omega arith) in
        rw (here, first) (sym all_there ∙ ap (λ z. count_in z new_blocks) e)
    | inr there ↦
        let before = v.counted j y (arena_before j y there o) in
        elim (Bool-cases (idx == j)) [
          | inl here ↦
              let e : idx ≡ j = ground arith in
              let none : count_in y (st.free_list j) ≡ 0 =
                ap (λ i. count_in y (st.free_list i)) (sym e) ∙ ap (λ l. count_in y l) empty in
              let none' : count_in y new_blocks ≡ 0 =
                count_in-zero y new_blocks
                  (λ x h home. absurd (ground (arith, (new_block x h).0, home, there))) in
              rw (there, here) (before ∙ none ∙ sym none')
          | inr other ↦ rw (there, other) before
        ]
  ]

  made_total :
      (j y : ℕ)
      → ArenaOf made_heap opened_next j y
      → (made_heap.arenas y).cnt + count_in y live ≡ per_arena j
  made_total j y o = elim (Bool-cases (a == y)) [
    | inl here ↦
        let e : a ≡ y = ground arith in
        let same = of_new j (subst (ArenaOf made_heap opened_next j) (sym e) o) in
        let none : count_in y live ≡ 0 =
          count_in-zero y live (λ x h home. old_live x h (home ∙ sym e)) in
        rw here (omega (arith, none, ap per_arena same))
    | inr there ↦ rw there (v.total j y (arena_before j y there o))
  ]

  made_taken :
      (x : ℕ)
      → opened_next x ≡ true
      → (j : ℕ) × (x ≡ at pool.vaddr_start j) × (is_free pool.vaddr_bitmap j ≡ false)
  made_taken x o = elim (Bool-cases (a == x)) [
    | inl here ↦
        let e : a ≡ x = ground arith in
        (
          w.place,
          sym e
              ∙ place st idx d empty c a pool m w
              ∙ ap (λ s. at s w.place) (sym w.reserved.same_start),
          ground (arith, w.reserved.run.bits w.place),
        )
    | inr there ↦
        let (j, e, busy) = v.taken x (rw there at o) in
        (
          j,
          e ∙ ap (λ s. at s j) (sym w.reserved.same_start),
          ground (arith, w.reserved.run.bits j, busy),
        )
  ]

  -- The heap stays sound, with one arena more.
  pub open-Sound : Sound made_heap opened_next live
  open-Sound = record {
    arena = λ x o. elim (Bool-cases (a == x)) [
      | inl here ↦ (idx, few, rw here refl)
      | inr there ↦ let (j, less, e) = v.arena x (rw there at o) in (j, less, rw there e)
    ];
    page = λ x o. elim (Bool-cases (a == x)) [
      | inl here ↦
          let e : a ≡ x = ground arith in
          (ap (λ z. z % 2 ^ 12) (sym e) ∙ aligned, omega (arith, e, below))
      | inr there ↦ v.page x (rw there at o)
    ];
    taken = made_taken;
    free_in = made_free_in;
    live_in = λ x h. let (j, o) = v.live_in x h in (j, block_kept j x o);
    once_free = made_once;
    once_live = v.once_live;
    apart = made_apart;
    covered = made_covered;
    counted = made_counted;
    total = made_total;
  }
