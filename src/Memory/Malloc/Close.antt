-- ===== src/Memory/Malloc/Close.antt =====
-- An arena whose blocks are all free is given up, and its page with it.

use os_learning.Base.{
  ℕ, ◌%◌, ◌^◌, ◌<◌, ◌≡◌, ◌≢◌, refl, sym, ap, ◌∙◌, ◌⊎◌, inl, inr, Bool, Bool-cases, true, false,
  some, List, arith, ◌==◌, has, Distinct, update,
}
use os_learning.Base.Run.{ok}
use os_learning.Bitmap.{is_free}
use os_learning.Memory.Defs.{Memory}
use os_learning.Memory.Virtual.{VirtualAddr}
use os_learning.Memory.Arena.{arena2block, block2arena}
use os_learning.Memory.Pages.Taking.{at}
use os_learning.Memory.Malloc.Defs.{Heap, desc_at, drain}
use os_learning.Memory.Malloc.Counts.{count_in, count_in-pos}
use os_learning.Memory.Malloc.Descs.{IsDesc, desc_at-IsDesc}
use os_learning.Memory.Malloc.Homes.{desc-lt, block-home}
use os_learning.Memory.Malloc.Sound.{per_arena, ArenaOf, BlockOf, Sound}
use os_learning.Memory.Malloc.Drained.{Drained, drain-Drained}

-- the virtual pool after the page at `a` is given back
pub record PageBack (a : ℕ) (pool pool' : VirtualAddr) : Type 0 where
  pub same_start : pool'.vaddr_start ≡ pool.vaddr_start
  pub others :
      (j : ℕ)
      → at pool.vaddr_start j ≢ a
      → is_free pool'.vaddr_bitmap j ≡ is_free pool.vaddr_bitmap j

module _ (st : Heap) (opened : ℕ → Bool) (live : List ℕ) (v : Sound st opened live) (i a : ℕ)
    (o : ArenaOf st opened i a) (full : (st.arenas a).cnt ≡ per_arena i) where
  few : i < 7
  few = desc-lt st opened live v i a o

  pub d : IsDesc (desc_at i)
  d = desc_at-IsDesc i few

  pub whole : a % 2 ^ 12 ≡ 0
  whole = (v.page a o.0).0

  pub low : a < 2 ^ 32
  low = (v.page a o.0).1

  -- none of its blocks is given out
  none_live : (x : ℕ) → has x live ≡ true → block2arena x ≢ a
  none_live x h e =
      let some_block = count_in-pos x live h in
      let none : count_in (block2arena x) live ≡ 0 =
        ap (λ y. count_in y live) e ∙ omega (arith, v.total i a o, full) in
      absurd (omega (arith, some_block, none))

  all_free : (k : ℕ) → k < per_arena i → has (arena2block a k (desc_at i)) (st.free_list i) ≡ true
  all_free k less = only (v.covered i a k o less)
    where
      only :
          (has (arena2block a k (desc_at i)) (st.free_list i) ≡ true)
            ⊎ (has (arena2block a k (desc_at i)) live ≡ true)
          → has (arena2block a k (desc_at i)) (st.free_list i) ≡ true
      only (inl h) = h
      only (inr h) =
          absurd
            (none_live (arena2block a k (desc_at i)) h (block-home st opened live v i a o k less))

  abbrev pub Left : List ℕ → Type 0
  Left left = Drained a (desc_at i) d.fills whole low (per_arena i) 0 (st.free_list i) left

  pub drain-Left :
      (left : List ℕ) × (drain (per_arena i) 0 a (desc_at i) (st.free_list i) ≡ ok left) × Left left
  drain-Left =
      drain-Drained a (desc_at i) d.fills whole low (per_arena i) 0 (st.free_list i) (omega arith)
        (v.once_free i) (λ k from less. all_free k (omega arith))

  module _ (left : List ℕ) (l : Left left) (pool : VirtualAddr) (m : Memory)
      (p : PageBack a st.vaddr pool) where
    abbrev pub closed : Heap
    closed = record st { memory = m; vaddr = pool; free_list = update st.free_list i left }

    abbrev pub opened_next : ℕ → Bool
    opened_next = update opened a false

    kept : (x : ℕ) → opened_next x ≡ true → (opened x ≡ true) × ((a == x) ≡ false)
    kept x h = elim (Bool-cases (a == x)) [
      | inl here ↦ absurd (ground (arith, h, here))
      | inr there ↦ (rw there at h, there)
    ]

    still_open : (x : ℕ) → opened x ≡ true → x ≢ a → opened_next x ≡ true
    still_open x h ne = let there : (a == x) ≡ false = ground (arith, ne) in rw there h

    arena_before : (j x : ℕ) → ArenaOf closed opened_next j x → ArenaOf st opened j x
    arena_before j x (h, e) = ((kept x h).0, e)

    block_kept :
        (j x : ℕ) → BlockOf st opened j x → block2arena x ≢ a → BlockOf closed opened_next j x
    block_kept j x ((h, e), k) ne = ((still_open (block2arena x) h ne, e), k)

    fewer : (j x : ℕ) → has x (closed.free_list j) ≡ true → has x (st.free_list j) ≡ true
    fewer j x h = elim (Bool-cases (i == j)) [
      | inl here ↦
          let e : i ≡ j = ground arith in
          ap (λ k. has x (st.free_list k)) (sym e) ∙ l.fewer x (rw here at h)
      | inr there ↦ rw there at h
    ]

    -- the descriptor of the arena
    of_a : (j x : ℕ) → BlockOf st opened j x → block2arena x ≡ a → i ≡ j
    of_a j x b e =
        let desc : (st.arenas a).desc ≡ some j = ap (λ y. (st.arenas y).desc) (sym e) ∙ b.0.1 in
        cc (o.1)

    left_apart : (x : ℕ) → has x left ≡ true → block2arena x ≢ a
    left_apart x h e =
        let (arena, (k, less, is)) = v.free_in i x (l.fewer x h) in
        let is' : x ≡ arena2block a k (desc_at i) = is ∙ ap (λ y. arena2block y k (desc_at i)) e in
        let out = l.gone k (omega arith) (omega arith) in
        absurd (ground (arith, h, out, ap (λ y. has y left) is'))

    apart : (j x : ℕ) → has x (closed.free_list j) ≡ true → block2arena x ≢ a
    apart j x h e =
        let same = of_a j x (v.free_in j x (fewer j x h)) e in
        let first : (i == j) ≡ true = rw same (ground arith) in left_apart x (rw first at h) e

    others : (j x : ℕ) → block2arena x ≢ a → has x (closed.free_list j) ≡ has x (st.free_list j)
    others j x ne = elim (Bool-cases (i == j)) [
      | inl here ↦
          let e : i ≡ j = ground arith in
          rw here (l.others x ne ∙ ap (λ k. has x (st.free_list k)) e)
      | inr there ↦ rw there refl
    ]

    counts : (j y : ℕ) → y ≢ a → count_in y (closed.free_list j) ≡ count_in y (st.free_list j)
    counts j y ne = elim (Bool-cases (i == j)) [
      | inl here ↦
          let e : i ≡ j = ground arith in
          rw here (l.counts y ne ∙ ap (λ k. count_in y (st.free_list k)) e)
      | inr there ↦ rw there refl
    ]

    closed_once : (j : ℕ) → Distinct (closed.free_list j)
    closed_once j = elim (Bool-cases (i == j)) [
      | inl here ↦ rw here l.once
      | inr there ↦ rw there (v.once_free j)
    ]

    not_a : (x : ℕ) → opened_next x ≡ true → x ≢ a
    not_a x h e = ground (arith, (kept x h).1, e)

    closed_covered :
        (j x k : ℕ)
        → ArenaOf closed opened_next j x
        → k < per_arena j
        → (has (arena2block x k (desc_at j)) (closed.free_list j) ≡ true)
          ⊎ (has (arena2block x k (desc_at j)) live ≡ true)
    closed_covered j x k q less = split (v.covered j x k (arena_before j x q) less)
      where
        split :
            (has (arena2block x k (desc_at j)) (st.free_list j) ≡ true)
              ⊎ (has (arena2block x k (desc_at j)) live ≡ true)
            → (has (arena2block x k (desc_at j)) (closed.free_list j) ≡ true)
              ⊎ (has (arena2block x k (desc_at j)) live ≡ true)
        split (inr h) = inr h
        split (inl h) =
            let page = block-home st opened live v j x (arena_before j x q) k less in
            inl (others j (arena2block x k (desc_at j)) (λ e. not_a x q.0 (sym page ∙ e)) ∙ h)

    -- The heap stays sound, with one arena less.
    pub closed-Sound : Sound closed opened_next live
    closed-Sound = record {
      arena = λ x h. v.arena x (kept x h).0;
      page = λ x h. v.page x (kept x h).0;
      taken = λ x h.
          let (j, e, busy) = v.taken x (kept x h).0 in
          (
            j,
            e ∙ ap (λ s. at s j) (sym p.same_start),
            p.others j (λ here. not_a x h (e ∙ here)) ∙ busy,
          );
      free_in = λ j x h. block_kept j x (v.free_in j x (fewer j x h)) (apart j x h);
      live_in = λ x h. let (j, b) = v.live_in x h in (j, block_kept j x b (none_live x h));
      once_free = closed_once;
      once_live = v.once_live;
      apart = λ j x h. elim (Bool-cases (has x (closed.free_list j))) [
        | inl inside ↦ absurd (ground (arith, fewer j x inside, v.apart j x h))
        | inr outside ↦ outside
      ];
      covered = closed_covered;
      counted = λ j x q. v.counted j x (arena_before j x q) ∙ sym (counts j x (not_a x q.0));
      total = λ j x q. v.total j x (arena_before j x q);
    }
