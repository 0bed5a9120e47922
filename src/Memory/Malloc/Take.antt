-- ===== src/Memory/Malloc/Take.antt =====
-- A free block is given out.
use mathlib.Core.Path.{subst}
use os_learning.Base.{
  ℕ, ◌+◌, ◌-◌, ◌%◌, ◌^◌, ◌<◌, ◌≡◌, refl, sym, ap, ◌∙◌, ◌⊎◌, inl, inr, Bool, Bool-cases, true, false,
  ◌||◌, List, ◌∷◌, arith, ◌==◌, if◌then◌else◌, has, Distinct, update,
}
use os_learning.Base.Run.{ok}
use os_learning.Memory.Arena.{arena2block, block2arena}
use os_learning.Memory.Malloc.Defs.{Heap, desc_at, clear_block, take_from, take_block}
use os_learning.Memory.Malloc.Counts.{count_in, count_in-pos}
use os_learning.Memory.Malloc.Descs.{desc_at-IsDesc}
use os_learning.Memory.Malloc.Homes.{desc-update, same_desc, desc-lt}
use os_learning.Memory.Malloc.Sound.{per_arena, ArenaOf, BlockOf, Sound}

module _ (st : Heap) (opened : ℕ → Bool) (live : List ℕ) (v : Sound st opened live) (i b : ℕ)
    (rest : List ℕ) (q : st.free_list i ≡ b ∷ rest) where
  abbrev home : ℕ
  home = block2arena b

  first_free : has b (st.free_list i) ≡ true
  first_free = rw q (ground arith)

  block : BlockOf st opened i b
  block = v.free_in i b first_free

  pub not_live : has b live ≡ false
  not_live = ground (arith, v.apart i b, first_free)

  -- the count does not pass 0
  abbrev old_cnt : ℕ
  old_cnt = (st.arenas home).cnt

  some_free : 0 < old_cnt
  some_free = omega (arith, v.counted i home block.0, count_in-pos b (st.free_list i) first_free)

  less : (old_cnt + 2 ^ 32 - 1) % 2 ^ 32 ≡ old_cnt - 1
  less =
      let d = desc_at-IsDesc i (desc-lt st opened live v i home block.0) in
      omega (arith, d.few, v.total i home block.0, some_free)

  abbrev pub taken_heap : Heap
  taken_heap = record st {
    memory = record st.memory { word = clear_block b (desc_at i).block_size st.memory.word };
    arenas =
        update st.arenas home (record (st.arenas home) { cnt = (old_cnt + 2 ^ 32 - 1) % 2 ^ 32 });
    free_list = update st.free_list i rest;
  }

  pub take_block-eq : take_block i st ≡ ok (b, taken_heap)
  unfolding take_block take_from
  take_block-eq = ap (λ l. take_from l i st) q

  same : (a : ℕ) → (taken_heap.arenas a).desc ≡ (st.arenas a).desc
  same a = desc-update st.arenas home ((old_cnt + 2 ^ 32 - 1) % 2 ^ 32) a

  fewer : (j x : ℕ) → has x (taken_heap.free_list j) ≡ true → has x (st.free_list j) ≡ true
  fewer j x h = ground (arith, ap (λ l. has x l) q, h)

  arena_kept : (j a : ℕ) → ArenaOf taken_heap opened j a → ArenaOf st opened j a
  arena_kept j a (o, e) = (o, sym (same a) ∙ e)

  block_kept : (j x : ℕ) → BlockOf st opened j x → BlockOf taken_heap opened j x
  block_kept j x ((o, e), k) = ((o, same (block2arena x) ∙ e), k)

  -- the list of `i` is the rest
  in_list : (x : ℕ) → has x (st.free_list i) ≡ ((x == b) || has x rest)
  in_list x = ap (λ l. has x l) q

  once : Distinct (b ∷ rest)
  once = subst Distinct q (v.once_free i)

  counts : (a : ℕ) → count_in a (st.free_list i) ≡ (if home == a then 1 else 0) + count_in a rest
  unfolding count_in
  counts a = ap (λ l. count_in a l) q

  -- the descriptor of the block's arena
  of_home : (j : ℕ) → ArenaOf st opened j home → i ≡ j
  of_home j o = same_desc st opened i j home block.0 o

  elsewhere : (j : ℕ) → (i == j) ≡ false → has b (st.free_list j) ≡ false
  elsewhere j ne = elim (Bool-cases (has b (st.free_list j))) [
    | inl inside ↦ absurd (ground (arith, of_home j (v.free_in j b inside).0, ne))
    | inr outside ↦ outside
  ]

  gone : (j : ℕ) → has b (taken_heap.free_list j) ≡ false
  gone j = elim (Bool-cases (i == j)) [
    | inl here ↦ rw here once.0
    | inr there ↦ rw there (elsewhere j there)
  ]

  taken_once : (j : ℕ) → Distinct (taken_heap.free_list j)
  taken_once j = elim (Bool-cases (i == j)) [
    | inl here ↦ rw here once.1
    | inr there ↦ rw there (v.once_free j)
  ]

  taken_apart : (j x : ℕ) → has x (b ∷ live) ≡ true → has x (taken_heap.free_list j) ≡ false
  taken_apart j x h = elim (Bool-cases (x == b)) [
    | inl first ↦
        let e : x ≡ b = ground arith in ap (λ y. has y (taken_heap.free_list j)) e ∙ gone j
    | inr old ↦ elim (Bool-cases (has x (taken_heap.free_list j))) [
      | inl inside ↦ absurd (ground (arith, fewer j x inside, v.apart j x, h, old))
      | inr outside ↦ outside
    ]
  ]

  still :
      (j x : ℕ)
      → has x (st.free_list j) ≡ true
      → (x == b) ≡ false
      → has x (taken_heap.free_list j) ≡ true
  still j x h other = ground (arith, ap (λ l. has x l) q, h, other)

  arena_cnt :
      (a : ℕ) → (taken_heap.arenas a).cnt ≡ (if home == a then old_cnt - 1 else (st.arenas a).cnt)
  arena_cnt a = elim (Bool-cases (home == a)) [
    | inl here ↦ rw here less
    | inr there ↦ rw there refl
  ]

  list_count :
      (j a : ℕ)
      → (home == a) ≡ false
      → count_in a (taken_heap.free_list j) ≡ count_in a (st.free_list j)
  list_count j a there = elim (Bool-cases (i == j)) [
    | inl here ↦
        let e : i ≡ j = ground arith in
        let sum : count_in a (st.free_list i) ≡ 0 + count_in a rest = rw there at (counts a) in
        rw here (omega (arith, sum, ap (λ k. count_in a (st.free_list k)) e))
    | inr apart ↦ rw apart refl
  ]

  taken_covered :
      (j a k : ℕ)
      → ArenaOf taken_heap opened j a
      → k < per_arena j
      → (has (arena2block a k (desc_at j)) (taken_heap.free_list j) ≡ true)
        ⊎ (has (arena2block a k (desc_at j)) (b ∷ live) ≡ true)
  taken_covered j a k o less' = split (v.covered j a k (arena_kept j a o) less')
    where
      split :
          (has (arena2block a k (desc_at j)) (st.free_list j) ≡ true)
            ⊎ (has (arena2block a k (desc_at j)) live ≡ true)
          → (has (arena2block a k (desc_at j)) (taken_heap.free_list j) ≡ true)
            ⊎ (has (arena2block a k (desc_at j)) (b ∷ live) ≡ true)
      split (inr h) = inr (ground (arith, h))
      split (inl h) = elim (Bool-cases (arena2block a k (desc_at j) == b)) [
        | inl same ↦ inr (ground (arith, same))
        | inr other ↦ inl (still j (arena2block a k (desc_at j)) h other)
      ]

  taken_counted :
      (j a : ℕ)
      → ArenaOf taken_heap opened j a
      → (taken_heap.arenas a).cnt ≡ count_in a (taken_heap.free_list j)
  taken_counted j a o = elim (Bool-cases (home == a)) [
    | inl here ↦
        let e : home ≡ a = ground arith in
        let mine : ArenaOf st opened j home =
          subst (ArenaOf st opened j) (sym e) (arena_kept j a o) in
        let same : i ≡ j = of_home j mine in
        let first : (i == j) ≡ true = rw same (ground arith) in
        let sum : count_in a (st.free_list i) ≡ 1 + count_in a rest = rw here at (counts a) in
        let before : old_cnt ≡ count_in a (st.free_list i) =
          v.counted i home block.0 ∙ ap (λ h. count_in h (st.free_list i)) e in
        rw (arena_cnt a, here, first) (omega (arith, sum, before))
    | inr there ↦
        arena_cnt a ∙ (rw there (v.counted j a (arena_kept j a o)) ∙ sym (list_count j a there))
  ]

  taken_total :
      (j a : ℕ)
      → ArenaOf taken_heap opened j a
      → (taken_heap.arenas a).cnt + count_in a (b ∷ live) ≡ per_arena j
  unfolding count_in
  taken_total j a o = elim (Bool-cases (home == a)) [
    | inl here ↦
        let e : home ≡ a = ground arith in
        let mine : ArenaOf st opened j home =
          subst (ArenaOf st opened j) (sym e) (arena_kept j a o) in
        let before : old_cnt + count_in a live ≡ per_arena j =
          ap (λ h. old_cnt + count_in h live) (sym e) ∙ v.total j home mine in
        rw (arena_cnt a, here) (omega (arith, before, some_free))
    | inr there ↦ rw there (omega (arith, v.total j a (arena_kept j a o)))
  ]

  -- The heap stays sound, with the block among the live ones.
  pub take-Sound : Sound taken_heap opened (b ∷ live)
  take-Sound = record {
    arena = λ a o. let (j, small, e) = v.arena a o in (j, small, same a ∙ e);
    page = v.page;
    taken = v.taken;
    free_in = λ j x h. block_kept j x (v.free_in j x (fewer j x h));
    live_in = λ x h. elim (Bool-cases (x == b)) [
      | inl first ↦
          let e : b ≡ x = ground arith in
          (i, subst (BlockOf taken_heap opened i) e (block_kept i b block))
      | inr old ↦ let (j, o) = v.live_in x (ground (arith, h, old)) in (j, block_kept j x o)
    ];
    once_free = taken_once;
    once_live = (not_live, v.once_live);
    apart = taken_apart;
    covered = taken_covered;
    counted = taken_counted;
    total = taken_total;
  }

  pub taken_block : BlockOf taken_heap opened i b
  taken_block = block_kept i b block
