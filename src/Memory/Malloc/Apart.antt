-- ===== src/Memory/Malloc/Apart.antt =====
-- Blocks that are given out do not overlap.
use mathlib.Core.Path.{subst}
use os_learning.Base.{
  ℕ, ◌+◌, ◌<◌, ◌≤◌, ◌≡◌, ◌≢◌, sym, ap, ◌∙◌, ◌⊎◌, inl, inr, Bool, Bool-cases, true, List, arith, has,
  ltb,
}
use native.Mathlib.Nat.{mul-le-mul_right}
use os_learning.Memory.Arena.{arena2block, block2arena}
use os_learning.Memory.Blocks.{arena2block-apart}
use os_learning.Memory.Malloc.Defs.{Heap, desc_at}
use os_learning.Memory.Malloc.Descs.{desc_at-IsDesc}
use os_learning.Memory.Malloc.Homes.{same_desc, desc-lt}
use os_learning.Memory.Malloc.Sound.{ArenaOf, BlockOf, Sound}

-- `b` and `c` are blocks, and one ends before the other begins
abbrev pub Disjoint : Heap → (opened : ℕ → Bool) → (b c : ℕ) → Type 0
Disjoint st opened b c =
    (i : ℕ) × (j : ℕ) × BlockOf st opened i b
    × BlockOf st opened j c
    × ((b + (desc_at i).block_size ≤ c) ⊎ (c + (desc_at j).block_size ≤ b))

module _ (st : Heap) (opened : ℕ → Bool) (live : List ℕ) (v : Sound st opened live) where
  desc_few : (i b : ℕ) → BlockOf st opened i b → i < 7
  desc_few i b o = desc-lt st opened live v i (block2arena b) o.0

  -- a block lies in its page
  block-page :
      (i b : ℕ)
      → BlockOf st opened i b
      → (block2arena b ≤ b) × (b + (desc_at i).block_size ≤ block2arena b + 4096)
  unfolding arena2block
  block-page i b (o, (k, less, e)) =
      let d = desc_at-IsDesc i (desc_few i b (o, (k, less, e))) in
      let (whole, low) = v.page (block2arena b) o.0 in
      let rows = mul-le-mul_right (desc_at i).block_size less in
      (
        omega (arith, e, rows, d.fills.fits, d.fills.positive, whole, low),
        omega (arith, e, rows, d.fills.fits, d.fills.positive, whole, low),
      )

  pages-apart : (b c : ℕ) → block2arena b < block2arena c → block2arena b + 4096 ≤ block2arena c
  unfolding block2arena
  pages-apart b c h = omega arith

  in_order :
      (i j b c : ℕ)
      → block2arena b < block2arena c
      → BlockOf st opened i b
      → BlockOf st opened j c
      → b + (desc_at i).block_size ≤ c
  in_order i j b c h o p =
      omega (arith, (block-page i b o).1, pages-apart b c h, (block-page j c p).0)

  same_arena :
      (i b c : ℕ)
      → block2arena b ≡ block2arena c
      → b ≢ c
      → BlockOf st opened i b
      → BlockOf st opened i c
      → (b + (desc_at i).block_size ≤ c) ⊎ (c + (desc_at i).block_size ≤ b)
  same_arena i b c same ne (o, (k, less, e)) (o', (k', less', e')) =
      let d = desc_at-IsDesc i (desc_few i b (o, (k, less, e))) in
      let (whole, low) = v.page (block2arena b) o.0 in
      let e'' : c ≡ arena2block (block2arena b) k' (desc_at i) =
        e' ∙ ap (λ a. arena2block a k' (desc_at i)) (sym same) in
      elim (Bool-cases (ltb k k')) [
        | inl first ↦
            let ends =
              arena2block-apart (block2arena b) k (desc_at i) d.fills whole low k'
                (ground (arith, first)) less' in
            inl (omega (arith, e, e'', ends.0))
        | inr last ↦ elim (Bool-cases (ltb k' k)) [
          | inl first ↦
              let ends =
                arena2block-apart (block2arena b) k' (desc_at i) d.fills whole low k
                  (ground (arith, first)) less in
              inr (omega (arith, e, e'', ends.0))
          | inr equal ↦
              let k-eq : k ≡ k' = ground (arith, last, equal) in
              absurd (ne (e ∙ ap (λ n. arena2block (block2arena b) n (desc_at i)) k-eq ∙ sym e''))
        ]
      ]

  -- Two different blocks that are given out do not overlap.
  pub live-Disjoint :
      (b c : ℕ) → has b live ≡ true → has c live ≡ true → b ≢ c → Disjoint st opened b c
  live-Disjoint b c h h' ne =
      let (i, o) = v.live_in b h in
      let (j, p) = v.live_in c h' in
      (
        i,
        j,
        o,
        p,
        elim (Bool-cases (ltb (block2arena b) (block2arena c))) [
          | inl less ↦ inl (in_order i j b c (ground (arith, less)) o p)
          | inr not_less ↦ elim (Bool-cases (ltb (block2arena c) (block2arena b))) [
            | inl more ↦ inr (in_order j i c b (ground (arith, more)) p o)
            | inr equal ↦
                let same : block2arena b ≡ block2arena c = ground (arith, not_less, equal) in
                let descs : i ≡ j =
                  same_desc st opened i j (block2arena b) o.0
                    (subst (ArenaOf st opened j) (sym same) p.0) in
                let p' : BlockOf st opened i c = subst (λ x. BlockOf st opened x c) (sym descs) p in
                let apart = same_arena i b c same ne o p' in
                subst (λ x. (b + (desc_at i).block_size ≤ c) ⊎ (c + (desc_at x).block_size ≤ b))
                  descs apart
          ]
        ],
      )
