-- ===== src/Memory/Malloc/Homes.antt =====
-- Arenas and their blocks in a sound heap.
use os_learning.Base.{ℕ, ◌<◌, ◌≡◌, refl, Bool, Bool-cases, inl, inr, List, arith, ◌==◌, update}
use os_learning.Memory.Arena.{arena2block, block2arena}
use os_learning.Memory.Blocks.{block2arena-arena2block}
use os_learning.Memory.Malloc.Defs.{Arena, Heap, desc_at}
use os_learning.Memory.Malloc.Descs.{desc_at-IsDesc}
use os_learning.Memory.Malloc.Sound.{per_arena, ArenaOf, Sound}

-- a new count leaves the descriptors
pub desc-update :
    (arenas : ℕ → Arena) (home n a : ℕ)
    → (update arenas home (record (arenas home) { cnt = n }) a).desc ≡ (arenas a).desc
desc-update arenas home n a = elim (Bool-cases (home == a)) [
  | inl here ↦ let e : home ≡ a = ground arith in rw (here, e) refl
  | inr there ↦ rw there refl
]

-- an arena has one descriptor
pub same_desc :
    (st : Heap) (opened : ℕ → Bool) (i j a : ℕ)
    → ArenaOf st opened i a
    → ArenaOf st opened j a
    → i ≡ j
same_desc st opened i j a o p = let e = o.1 in let e' = p.1 in cc

module _ (st : Heap) (opened : ℕ → Bool) (live : List ℕ) (v : Sound st opened live) (i a : ℕ)
    (o : ArenaOf st opened i a) where
  -- the descriptor is one of the seven
  pub desc-lt : i < 7
  desc-lt =
      let (j, small, e) = v.arena a o.0 in
      let same = same_desc st opened i j a o (o.0, e) in omega (arith, same)

  -- from a block back to the arena
  pub block-home : (k : ℕ) → k < per_arena i → block2arena (arena2block a k (desc_at i)) ≡ a
  block-home k less =
      let (whole, low) = v.page a o.0 in
      block2arena-arena2block a k (desc_at i) (desc_at-IsDesc i desc-lt).fills whole low less
