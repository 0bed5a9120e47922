-- ===== src/Memory/Malloc/Drained.antt =====
-- The loop of `sys_free` that takes an arena's blocks out of the free list.
use os_learning.Base.{
  ℕ, zero, suc, ◌+◌, ◌%◌, ◌^◌, ◌<◌, ◌≤◌, ◌≡◌, ◌≢◌, refl, ap, ◌∙◌, Bool-cases, inl, inr, true, false,
  List, arith, ◌==◌, has, Distinct,
}
use os_learning.Base.Run.{ok}
use os_learning.Memory.Arena.{MemBlockDesc, arena2block, block2arena}
use os_learning.Memory.Blocks.{FillsPage, block2arena-arena2block}
use os_learning.Memory.Malloc.Defs.{drain, without}
use os_learning.Memory.Malloc.Arenas.{block-injective}
use os_learning.Memory.Malloc.Counts.{count_in, count_in-without, has-without, Distinct-without}

module _ (a : ℕ) (d : MemBlockDesc) (f : FillsPage d) (page : a % 2 ^ 12 ≡ 0)
    (ha : a < 2 ^ 32) where
  -- the blocks from `i` on are out of the list, and those of other arenas are as before
  pub record Drained (n i : ℕ) (l left : List ℕ) : Type 0 where
    pub once : Distinct left
    pub fewer : (x : ℕ) → has x left ≡ true → has x l ≡ true
    pub gone : (k : ℕ) → i ≤ k → k < i + n → has (arena2block a k d) left ≡ false
    pub others : (x : ℕ) → block2arena x ≢ a → has x left ≡ has x l
    pub counts : (y : ℕ) → y ≢ a → count_in y left ≡ count_in y l

  pub drain-Drained :
      (n i : ℕ) (l : List ℕ)
      → i + n ≤ d.blocks_per_arena
      → Distinct l
      → ((k : ℕ) → i ≤ k → k < i + n → has (arena2block a k d) l ≡ true)
      → (left : List ℕ) × (drain n i a d l ≡ ok left) × Drained n i l left
  unfolding drain
  drain-Drained zero i l within once there = (
    l,
    refl,
    record {
      once = once;
      fewer = λ x h. h;
      gone = λ k low high. absurd (omega arith);
      others = λ x h. refl;
      counts = λ y h. refl;
    },
  )
  drain-Drained (suc n) i l within once there =
      let b : ℕ = arena2block a i d in
      let home : block2arena b ≡ a = block2arena-arena2block a i d f page ha (omega arith) in
      let here : has b l ≡ true = there i (omega arith) (omega arith) in
      let (left, run, r) =
        drain-Drained n (i + 1) (without b l) (omega arith) (Distinct-without b l once)
          (λ k low high. ground (
            arith,
            has-without b (arena2block a k d) l,
            there k (omega arith) (omega arith),
            block-injective a d f page ha k i (omega arith) (omega arith)
                (λ e. absurd (omega arith)),
          )) in
      (
        left,
        rw here run,
        record {
          once = r.once;
          fewer = λ x h. ground (arith, has-without b x l, r.fewer x h);
          gone = λ k low high. elim (Bool-cases (k == i)) [
            | inl first ↦
                let e : k ≡ i = ground (arith, first) in
                ap (λ j. has (arena2block a j d) left) e ∙ out left b l (r.fewer b)
            | inr later ↦ r.gone k (ground (arith, later)) (omega arith)
          ];
          others = λ x h.
              let apart : x ≢ b = λ e. h (ap block2arena e ∙ home) in
              r.others x h ∙ ground (arith, has-without b x l, apart);
          counts = λ y h.
              let apart : (block2arena b == y) ≡ false = ground (arith, home, h) in
              let one = count_in-without y b l once here in
              let one' : count_in y (without b l) + 0 ≡ count_in y l = rw apart at one in
              r.counts y h ∙ omega (arith, one');
        },
      )
    where
      out :
          (left : List ℕ) (b : ℕ) (l : List ℕ)
          → (has b left ≡ true → has b (without b l) ≡ true)
          → has b left ≡ false
      out left b l h = ground (arith, h, has-without b b l)
