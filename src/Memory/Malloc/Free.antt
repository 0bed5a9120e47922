-- ===== src/Memory/Malloc/Free.antt =====
-- `sys_free` of a block of at most 1024 bytes, in an arena that is full again or not.
use os_learning.Base.{
  ℕ, ◌+◌, ◌%◌, ◌^◌, ◌≡◌, ◌≢◌, refl, sym, ap, ◌∙◌, ◌⊎◌, inl, inr, Bool, Bool-cases, true, false,
  List, [], ◌∷◌, ◌++◌, arith, ◌==◌, has, update,
}
use std.Path.{fun_ext}
use os_learning.Base.Run.{ok, Returns}
use os_learning.Memory.Arena.{block2arena}
use os_learning.Memory.Pages.One.{IsMapped, mfree_page-GivesPage}
use os_learning.Memory.Pages.Taking.{at}
use os_learning.Memory.Malloc.Defs.{
  Heap, without, drain, desc_at, free_in_arena, free_small, free_block,
}
use os_learning.Memory.Malloc.Sound.{per_arena, ArenaOf, BlockOf, Sound}
use os_learning.Memory.Malloc.Release
use os_learning.Memory.Malloc.Close
use os_learning.Memory.Malloc.Close.{PageBack}

-- The heap is sound without `b`: with the arenas of before, or, where all blocks of the arena of `b` are free now,
-- without that arena.
abbrev pub Freed : Heap → (opened : ℕ → Bool) → (live : List ℕ) → (b : ℕ) → Heap → Type 0
Freed st opened live b st' =
    (i : ℕ) × BlockOf st opened i b
    × ((((st.arenas (block2arena b)).cnt + 1 ≢ per_arena i) × Sound st' opened (without b live))
        ⊎ (((st.arenas (block2arena b)).cnt + 1 ≡ per_arena i)
            × Sound st' (update opened (block2arena b) false) (without b live)))

module _ (st : Heap) (opened : ℕ → Bool) (live : List ℕ) (v : Sound st opened live) (b : ℕ)
    (given : has b live ≡ true) where
  module _ (i : ℕ) (block : BlockOf st opened i b) where
    abbrev home : ℕ
    home = block2arena b

    abbrev released : Heap
    released = Release.released st opened live v i b given block

    sound : Sound released opened (without b live)
    sound = Release.released-Sound st opened live v i b given block

    abbrev cnt : ℕ
    cnt = ((st.arenas home).cnt + 1) % 2 ^ 32

    more : cnt ≡ (st.arenas home).cnt + 1
    more = Release.more st opened live v i b given block

    unfolds : (r : Heap) → free_small home i b st ≡ ok r → free_block b st ≡ ok r
    unfolding free_block free_in_arena
    unfolds r run = ap (λ d. free_in_arena d home b st) block.0.1 ∙ run

    partly : (cnt == per_arena i) ≡ false → Returns (Freed st opened live b) (free_block b st)
    unfolding free_small
    partly h = (
      released,
      unfolds released (rw h refl),
      (i, block, inl (λ e. absurd (ground (arith, h, e, more)), sound)),
    )

    other_place : (p j : ℕ) → (p ≡ j → ⊥) → (p == j) ≡ false
    other_place p j ne = ground (arith, ne)

    self : (home == home) ≡ true
    self = ground arith

    list : released.free_list i ≡ st.free_list i ++ (b ∷ [])
    list = let here : (i == i) ≡ true = ground arith in rw here refl

    -- the list of `i` is written twice
    twice : (l : List ℕ) → update released.free_list i l ≡ update st.free_list i l
    twice l =
        fun_ext
          (λ j. elim (Bool-cases (i == j)) [ inl here ↦ rw here refl | inr there ↦ rw there refl ])

    mine : ArenaOf released opened i home
    mine = (block.0.0, rw self block.0.1)

    fully :
        (cnt == per_arena i) ≡ true
        → IsMapped home st.vaddr st.memory
        → Returns (Freed st opened live b) (free_block b st)
    unfolding free_small
    fully h page =
        let full : (released.arenas home).cnt ≡ per_arena i = rw self (ground (arith, h)) in
        let (left, drains, l) =
          Close.drain-Left released opened (without b live) sound i home mine full in
        let ((pool, m), frees, r) = mfree_page-GivesPage home st.vaddr st.memory page in
        let back : PageBack home st.vaddr pool = record {
          same_start = r.same_start;
          others = λ j ne.
              let apart : (page.place == j) ≡ false =
                other_place page.place j
                  (λ e. ne (ap (at st.vaddr.vaddr_start) (sym e) ∙ sym page.place-eq)) in
              r.virtual j ∙ rw apart refl;
        } in
        let closed =
          Close.closed released opened (without b live) sound i home mine full left l pool m back in
        let drains' : drain (per_arena i) 0 home (desc_at i) (st.free_list i ++ (b ∷ []))
            ≡ ok left =
          ap (drain (per_arena i) 0 home (desc_at i)) (sym list) ∙ drains in
        (
          closed,
          unfolds closed (
              rw (h, drains', frees)
                (ap (λ f. ok (record closed { free_list = f })) (sym (twice left)))),
          (
            i,
            block,
            inr (
              ground (arith, h, more),
              Close.closed-Sound released opened (without b live) sound i home mine full left l pool
                  m back,
            ),
          ),
        )

  -- In a sound heap, for a block that is given out, whose page is mapped in case it is the last of
  -- its arena: `free_block` returns, and the heap is sound without the block among those given out.
  -- Where other blocks of the arena are still given out the arenas are as before, and else that
  -- arena is one no longer.
  pub free_block-Freed :
      ((i : ℕ)
        → BlockOf st opened i b
        → (st.arenas (block2arena b)).cnt + 1 ≡ per_arena i
        → IsMapped (block2arena b) st.vaddr st.memory)
      → Returns (Freed st opened live b) (free_block b st)
  free_block-Freed mapped =
      let (i, block) = v.live_in b given in
      elim (Bool-cases (((st.arenas (block2arena b)).cnt + 1) % 2 ^ 32 == per_arena i)) [
        | inl last ↦ fully i block last (mapped i block (ground (arith, last, more i block)))
        | inr others ↦ partly i block others
      ]
