-- ===== src/Memory/Malloc/Arenas.antt =====
-- The blocks of an arena go into the free list, and out of it again.
use os_learning.Base.{
  ℕ, zero, suc, ◌+◌, ◌%◌, ◌^◌, ◌<◌, ◌≤◌, ◌≡◌, ◌≢◌, refl, sym, ap, ◌∙◌, inl, inr, Bool-cases, true,
  false, List, [], ◌∷◌, ◌++◌, arith, ltb, ◌==◌, has, has-append,
}
use mathlib.Core.List.{append_assoc, append-nil}
use os_learning.Base.Run.{ok}
use os_learning.Memory.Arena.{MemBlockDesc, arena2block}
use os_learning.Memory.Blocks.{FillsPage, arena2block-apart}
use os_learning.Memory.Malloc.Counts.{has-without}
use os_learning.Memory.Malloc.Defs.{fill, without, drain}

module _ (a : ℕ) (d : MemBlockDesc) (f : FillsPage d) (page : a % 2 ^ 12 ≡ 0)
    (ha : a < 2 ^ 32) where
  -- the addresses of `n` blocks
  abbrev pub blocks : (n i : ℕ) → List ℕ
  blocks zero i = []
  blocks (suc n) i = arena2block a i d ∷ blocks n (i + 1)

  pub block-injective :
      (i j : ℕ)
      → i < d.blocks_per_arena
      → j < d.blocks_per_arena
      → i ≢ j
      → arena2block a i d ≢ arena2block a j d
  block-injective i j hi hj ne e = elim (Bool-cases (ltb i j)) [
    | inl less ↦ absurd (
        omega
          (arith, (arena2block-apart a i d f page ha j (ground (arith, less)) hj).0, f.positive, e))
    | inr more ↦ absurd (
        omega (
          arith,
          (arena2block-apart a j d f page ha i (ground (arith, more, ne)) hi).0,
          f.positive,
          e,
        ))
  ]

  -- what is in the list is a block
  pub has-blocks :
      (n i x : ℕ)
      → has x (blocks n i) ≡ true
      → (k : ℕ) × (i ≤ k) × (k < i + n) × (x ≡ arena2block a k d)
  has-blocks zero i x h = cc
  has-blocks (suc n) i x h = elim (Bool-cases (x == arena2block a i d)) [
    | inl same ↦ (i, omega arith, omega arith, ground (arith, same))
    | inr other ↦
        let (k, low, high, e) = has-blocks n (i + 1) x (ground (arith, h, other)) in
        (k, omega arith, omega arith, e)
  ]

  pub blocks-has : (n i k : ℕ) → i ≤ k → k < i + n → has (arena2block a k d) (blocks n i) ≡ true
  blocks-has zero i k low high = absurd (omega arith)
  blocks-has (suc n) i k low high = elim (Bool-cases (i == k)) [
    | inl here ↦
        let same : i ≡ k = ground (arith, here) in
        let first : (arena2block a k d == arena2block a i d) ≡ true = rw same (ground arith) in
        rw first refl
    | inr there ↦ ground (arith, blocks-has n (i + 1) k (ground (arith, there)) (omega arith))
  ]

  -- the loop of `sys_malloc`, for blocks that are not in the list
  pub fill-blocks :
      (n i : ℕ) (free : List ℕ)
      → i + n ≤ d.blocks_per_arena
      → ((k : ℕ) → i ≤ k → k < i + n → has (arena2block a k d) free ≡ false)
      → fill n i a d free ≡ ok (free ++ blocks n i)
  unfolding fill
  fill-blocks zero i free within out = ap ok (sym (append-nil free))
  fill-blocks (suc n) i free within out =
      let new : has (arena2block a i d) free ≡ false = out i (omega arith) (omega arith) in
      rw new (
        fill-blocks n (i + 1) (free ++ (arena2block a i d ∷ [])) (omega arith) (λ k low high.
          ground (
            arith,
            has-append (arena2block a k d) free (arena2block a i d ∷ []),
            out k (omega arith) (omega arith),
            block-injective k i (omega arith) (omega arith) (λ e. absurd (omega arith)),
          ))
        ∙ ap ok (append_assoc free (arena2block a i d ∷ []) (blocks n (i + 1))))

  -- The list holds the blocks from `i` on, each of them, in any order.
  record HoldsBlocks (n i : ℕ) (l : List ℕ) : Type 0 where
    only : (x : ℕ) → has x l ≡ true → (k : ℕ) × (i ≤ k) × (k < i + n) × (x ≡ arena2block a k d)
    all : (k : ℕ) → i ≤ k → k < i + n → has (arena2block a k d) l ≡ true

  nothing-left : (i : ℕ) (l : List ℕ) → HoldsBlocks 0 i l → l ≡ []
  nothing-left i [] h = refl
  nothing-left i (x ∷ l) h = let (k, low, high, e) = h.only x (ground arith) in absurd (omega arith)

  HoldsBlocks-without :
      (n i : ℕ) (l : List ℕ)
      → i + suc n ≤ d.blocks_per_arena
      → HoldsBlocks (suc n) i l
      → HoldsBlocks n (i + 1) (without (arena2block a i d) l)
  HoldsBlocks-without n i l within h = record {
    only = λ x inside.
        let (k, low, high, e) =
          h.only x (ground (arith, has-without (arena2block a i d) x l, inside)) in
        let differs : k ≢ i = λ same. absurd (
          ground (
            arith,
            has-without (arena2block a i d) x l,
            inside,
            e,
            ap (λ j. arena2block a j d) same,
          )) in
        (k, omega (arith, differs), omega arith, e);
    all = λ k low high. ground (
      arith,
      has-without (arena2block a i d) (arena2block a k d) l,
      h.all k (omega arith) (omega arith),
      block-injective k i (omega arith) (omega arith) (λ e. absurd (omega arith)),
    );
  }

  -- the loop of `sys_free`
  drain-nothing :
      (n i : ℕ) (l : List ℕ)
      → i + n ≤ d.blocks_per_arena
      → HoldsBlocks n i l
      → drain n i a d l ≡ ok []
  unfolding drain
  drain-nothing zero i l within h = ap ok (nothing-left i l h)
  drain-nothing (suc n) i l within h = rw (h.all i (omega arith) (omega arith)) (
      drain-nothing n (i + 1) (without (arena2block a i d) l) (omega arith)
        (HoldsBlocks-without n i l within h))

  -- the first block at the end
  HoldsBlocks-turned : (n : ℕ) → HoldsBlocks (suc n) 0 (blocks n 1 ++ (arena2block a 0 d ∷ []))
  HoldsBlocks-turned n = record {
    only = λ x inside. elim (Bool-cases (has x (blocks n 1))) [
      | inl later ↦
          let (k, low, high, e) = has-blocks n 1 x later in (k, omega arith, omega arith, e)
      | inr first ↦ (
        0,
        omega arith,
        omega arith,
        ground (arith, has-append x (blocks n 1) (arena2block a 0 d ∷ []), inside, first),
      )
    ];
    all = λ k low high. elim (Bool-cases (k == 0)) [
      | inl first ↦
          let same : k ≡ 0 = ground (arith, first) in
          rw same
            (ground (arith, has-append (arena2block a 0 d) (blocks n 1) (arena2block a 0 d ∷ [])))
      | inr later ↦ ground (
        arith,
        has-append (arena2block a k d) (blocks n 1) (arena2block a 0 d ∷ []),
        blocks-has n 1 k (ground (arith, later)) (omega arith),
      )
    ];
  }

  -- All blocks but the first, and then the first, leave the list empty.
  pub drain-turned :
      (n : ℕ)
      → suc n ≤ d.blocks_per_arena
      → drain (suc n) 0 a d (blocks n 1 ++ (arena2block a 0 d ∷ [])) ≡ ok []
  drain-turned n within = drain-nothing (suc n) 0 _ (omega arith) (HoldsBlocks-turned n)
