-- ===== src/Memory/Malloc/Release.antt =====
-- A block that is given out comes back into the free list.
use mathlib.Core.Path.{subst}
use os_learning.Base.{
  ℕ, ◌+◌, ◌%◌, ◌^◌, ◌<◌, ◌≡◌, refl, sym, ap, ◌∙◌, ◌⊎◌, inl, inr, Bool, Bool-cases, true, false,
  ◌&&◌, ◌||◌, List, [], ◌∷◌, ◌++◌, arith, ◌==◌, if◌then◌else◌, has, has-append, Distinct, update,
}
use os_learning.Memory.Arena.{arena2block, block2arena}
use os_learning.Memory.Malloc.Defs.{Heap, desc_at, without}
use os_learning.Memory.Malloc.Counts.{
  count_in, count_in-append, count_in-without, count_in-pos, has-without, Distinct-without,
  Distinct-snoc,
}
use os_learning.Memory.Malloc.Descs.{desc_at-IsDesc}
use os_learning.Memory.Malloc.Homes.{desc-update, same_desc, desc-lt, block-home}
use os_learning.Memory.Malloc.Sound.{per_arena, ArenaOf, BlockOf, Sound}

module _ (st : Heap) (opened : ℕ → Bool) (live : List ℕ) (v : Sound st opened live) (i b : ℕ)
    (given : has b live ≡ true) (block : BlockOf st opened i b) where
  abbrev home : ℕ
  home = block2arena b

  abbrev old_cnt : ℕ
  old_cnt = (st.arenas home).cnt

  abbrev live_next : List ℕ
  live_next = without b live

  some_live : 0 < count_in home live
  some_live = count_in-pos b live given

  few : i < 7
  few = desc-lt st opened live v i home block.0

  -- the count does not wrap around
  pub more : (old_cnt + 1) % 2 ^ 32 ≡ old_cnt + 1
  more = let d = desc_at-IsDesc i few in omega (arith, d.few, v.total i home block.0, some_live)

  abbrev pub released : Heap
  released = record st {
    arenas = update st.arenas home (record (st.arenas home) { cnt = (old_cnt + 1) % 2 ^ 32 });
    free_list = update st.free_list i (st.free_list i ++ (b ∷ []));
  }

  same : (a : ℕ) → (released.arenas a).desc ≡ (st.arenas a).desc
  same a = desc-update st.arenas home ((old_cnt + 1) % 2 ^ 32) a

  arena_kept : (j a : ℕ) → ArenaOf released opened j a → ArenaOf st opened j a
  arena_kept j a (o, e) = (o, sym (same a) ∙ e)

  block_kept : (j x : ℕ) → BlockOf st opened j x → BlockOf released opened j x
  block_kept j x ((o, e), k) = ((o, same (block2arena x) ∙ e), k)

  -- the descriptor of the block's arena
  of_home : (j : ℕ) → ArenaOf st opened j home → i ≡ j
  of_home j o = same_desc st opened i j home block.0 o

  -- the free lists have one block more
  in_list :
      (j x : ℕ) → has x (released.free_list j) ≡ ((i == j && (x == b)) || has x (st.free_list j))
  in_list j x = elim (Bool-cases (i == j)) [
    | inl here ↦
        let e : i ≡ j = ground arith in
        rw here (
          ground
            (arith, has-append x (st.free_list i) (b ∷ []), ap (λ k. has x (st.free_list k)) e))
    | inr there ↦ rw there refl
  ]

  released_free_in : (j x : ℕ) → has x (released.free_list j) ≡ true → BlockOf released opened j x
  released_free_in j x h = elim (Bool-cases (has x (st.free_list j))) [
    | inl old ↦ block_kept j x (v.free_in j x old)
    | inr new ↦
        let e : b ≡ x = ground (arith, in_list j x, h, new) in
        let same : i ≡ j = ground (arith, in_list j x, h, new) in
        subst (λ k. BlockOf released opened k x) same
          (subst (BlockOf released opened i) e (block_kept i b block))
  ]

  released_once : (j : ℕ) → Distinct (released.free_list j)
  released_once j = elim (Bool-cases (i == j)) [
    | inl here ↦ rw here (Distinct-snoc (st.free_list i) b (v.once_free i) (v.apart i b given))
    | inr there ↦ rw there (v.once_free j)
  ]

  released_apart : (j x : ℕ) → has x live_next ≡ true → has x (released.free_list j) ≡ false
  released_apart j x h = ground (arith, in_list j x, has-without b x live, h, v.apart j x)

  released_covered :
      (j a k : ℕ)
      → ArenaOf released opened j a
      → k < per_arena j
      → (has (arena2block a k (desc_at j)) (released.free_list j) ≡ true)
        ⊎ (has (arena2block a k (desc_at j)) live_next ≡ true)
  released_covered j a k o less = split (v.covered j a k (arena_kept j a o) less)
    where
      split :
          (has (arena2block a k (desc_at j)) (st.free_list j) ≡ true)
            ⊎ (has (arena2block a k (desc_at j)) live ≡ true)
          → (has (arena2block a k (desc_at j)) (released.free_list j) ≡ true)
            ⊎ (has (arena2block a k (desc_at j)) live_next ≡ true)
      split (inl h) = inl (in_list j (arena2block a k (desc_at j)) ∙ rw h (ground arith))
      split (inr h) = elim (Bool-cases (arena2block a k (desc_at j) == b)) [
        | inl same ↦
            let page : block2arena (arena2block a k (desc_at j)) ≡ a =
              block-home st opened live v j a (arena_kept j a o) k less in
            let e : arena2block a k (desc_at j) ≡ b = ground arith in
            let at_home : home ≡ a = ap block2arena (sym e) ∙ page in
            let mine : i ≡ j =
              of_home j (subst (ArenaOf st opened j) (sym at_home) (arena_kept j a o)) in
            let first : (i == j) ≡ true = rw mine (ground arith) in
            inl (in_list j (arena2block a k (desc_at j)) ∙ rw (first, same) refl)
        | inr other ↦ inr (has-without b (arena2block a k (desc_at j)) live ∙ rw (other, h) refl)
      ]

  arena_cnt :
      (a : ℕ) → (released.arenas a).cnt ≡ (if home == a then old_cnt + 1 else (st.arenas a).cnt)
  arena_cnt a = elim (Bool-cases (home == a)) [
    | inl here ↦ rw here more
    | inr there ↦ rw there refl
  ]

  counts :
      (j a : ℕ)
      → count_in a (released.free_list j)
        ≡ (if i == j && (home == a) then 1 else 0) + count_in a (st.free_list j)
  unfolding count_in
  counts j a = elim (Bool-cases (i == j)) [
    | inl here ↦
        let e : i ≡ j = ground arith in
        rw here (
          omega (
            arith,
            count_in-append a (st.free_list i) (b ∷ []),
            ap (λ k. count_in a (st.free_list k)) e,
          ))
    | inr there ↦ rw there (omega arith)
  ]

  released_counted :
      (j a : ℕ)
      → ArenaOf released opened j a
      → (released.arenas a).cnt ≡ count_in a (released.free_list j)
  released_counted j a o = elim (Bool-cases (home == a)) [
    | inl here ↦
        let e : home ≡ a = ground arith in
        let mine = of_home j (subst (ArenaOf st opened j) (sym e) (arena_kept j a o)) in
        let first : (i == j) ≡ true = rw mine (ground arith) in
        let sum : count_in a (released.free_list j) ≡ 1 + count_in a (st.free_list j) =
          counts j a ∙ rw (first, here) refl in
        let before = v.counted j a (arena_kept j a o) in
        let cnt : (st.arenas home).cnt ≡ (st.arenas a).cnt = ap (λ x. (st.arenas x).cnt) e in
        arena_cnt a ∙ rw here (omega (arith, sum, before, cnt))
    | inr there ↦
        let sum : count_in a (released.free_list j) ≡ count_in a (st.free_list j) =
          counts j a ∙ rw there (ground arith) in
        arena_cnt a ∙ rw there (v.counted j a (arena_kept j a o) ∙ sym sum)
  ]

  released_total :
      (j a : ℕ)
      → ArenaOf released opened j a
      → (released.arenas a).cnt + count_in a live_next ≡ per_arena j
  released_total j a o =
      let before = v.total j a (arena_kept j a o) in
      let out = count_in-without a b live v.once_live given in
      elim (Bool-cases (home == a)) [
        | inl here ↦
            let e : home ≡ a = ground arith in
            let cnt : (st.arenas home).cnt ≡ (st.arenas a).cnt = ap (λ x. (st.arenas x).cnt) e in
            let one : count_in a live_next + 1 ≡ count_in a live = rw here at out in
            ap (λ n. n + count_in a live_next) (arena_cnt a)
            ∙ rw here (omega (arith, before, cnt, one))
        | inr there ↦
            let none : count_in a live_next + 0 ≡ count_in a live = rw there at out in
            ap (λ n. n + count_in a live_next) (arena_cnt a)
            ∙ rw there (omega (arith, before, none))
      ]

  -- The heap stays sound without the block among the live ones.
  pub released-Sound : Sound released opened live_next
  released-Sound = record {
    arena = λ a o. let (j, small, e) = v.arena a o in (j, small, same a ∙ e);
    page = v.page;
    taken = v.taken;
    free_in = released_free_in;
    live_in = λ x h.
        let (j, o) = v.live_in x (ground (arith, has-without b x live, h)) in (j, block_kept j x o);
    once_free = released_once;
    once_live = Distinct-without b live v.once_live;
    apart = released_apart;
    covered = released_covered;
    counted = released_counted;
    total = released_total;
  }
