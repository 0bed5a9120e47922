-- ===== src/Bitmap/Scan.antt =====
-- `bitmap_scan` of lib/kernel/bitmap.c against the search that it stands for.
use native.Mathlib.Decide.{ℕ_discrete}
use os_learning.Base.{
  ℕ, zero, suc, ◌+◌, ◌-◌, ◌*◌, ◌<◌, ◌≤◌, ◌≡◌, ◌∙◌, ap, refl, ◌≢◌, inl, inr, true, false, Option,
  some, none, arith, ltb, ltb→lt, ◌==◌, Bool-cases, if◌then◌else◌,
}
use os_learning.Base.Run.{Run, ok, Returns}
use os_learning.Bitmap.Defs.{Bitmap, count_clear, slide, bitmap_scan, IsValid, is_free}
use os_learning.Bitmap.Set.{is_clear-ok}

-- the bits from `l` on, `cnt` of them, are free
abbrev pub IsWindow : Bitmap → (cnt l : ℕ) → Type 0
IsWindow btmp cnt l = (i : ℕ) → i < cnt → is_free btmp (l + i) ≡ true

-- The answer of the search from `lo` on: the least window that ends before bit `btmp_bytes_len`, or
-- none where there is none.
abbrev pub IsAnswer : Bitmap → (cnt lo : ℕ) → Option ℕ → Type 0
IsAnswer btmp cnt lo none = (l : ℕ) → lo ≤ l → l + cnt < btmp.btmp_bytes_len → ¬ IsWindow btmp cnt l
IsAnswer btmp cnt lo (some l) =
    (lo ≤ l)
    × (l + cnt < btmp.btmp_bytes_len)
    × IsWindow btmp cnt l
    × ((m : ℕ) → lo ≤ m → m < l → ¬ IsWindow btmp cnt m)

module _ (btmp : Bitmap) where
  -- how many of `cnt` bits from `l` on are free
  free_count : (l cnt : ℕ) → ℕ
  free_count l zero = 0
  free_count l (suc cnt) = free_count l cnt + (if is_free btmp (l + cnt) then 1 else 0)

  free_count-le : (l cnt : ℕ) → free_count l cnt ≤ cnt
  unfolding free_count
  free_count-le l zero = omega arith
  free_count-le l (suc cnt) = ground (arith, free_count-le l cnt)

  -- the same from the front
  free_count-front :
      (l cnt : ℕ)
      → free_count l (suc cnt) ≡ (if is_free btmp l then 1 else 0) + free_count (l + 1) cnt
  unfolding free_count
  free_count-front l zero = let e : l + 0 ≡ l = omega arith in rw e (omega arith)
  free_count-front l (suc cnt) =
      let e : l + suc cnt ≡ l + 1 + cnt = omega arith in
      rw (e, free_count-front l cnt) (omega arith)

  free_count-pos : (l cnt : ℕ) → 0 < cnt → is_free btmp l ≡ true → 0 < free_count l cnt
  free_count-pos l zero h free = absurd (omega arith)
  free_count-pos l (suc cnt) h free = ground (arith, free_count-front l cnt)

  IsWindow-of_full : (l cnt : ℕ) → free_count l cnt ≡ cnt → IsWindow btmp cnt l
  unfolding free_count
  IsWindow-of_full l zero e i h = absurd (omega arith)
  IsWindow-of_full l (suc cnt) e i h = elim (ℕ_discrete i cnt) [
    | yes same ↦ rw same (ground (arith, free_count-le l cnt))
    | no ne ↦ IsWindow-of_full l cnt (ground (arith, free_count-le l cnt)) i (omega arith)
  ]

  full_of_IsWindow : (l cnt : ℕ) → IsWindow btmp cnt l → free_count l cnt ≡ cnt
  unfolding free_count
  full_of_IsWindow l zero w = refl
  full_of_IsWindow l (suc cnt) w =
      rw (w cnt (omega arith), full_of_IsWindow l cnt (λ i h. w i (omega arith))) (omega arith)

module _ {btmp : Bitmap} (v : IsValid btmp) (cnt : ℕ) where
  next :
      (r z : ℕ)
      → z ≡ free_count btmp 0 r
      → (if is_free btmp r then z + 1 else z) ≡ free_count btmp 0 (r + 1)
  unfolding free_count
  next r z e =
      let p : 0 + r ≡ r = omega arith in
      let q : r + 1 ≡ suc r = omega arith in rw (q, p) (ground arith)

  -- the `for` loop
  count_clear-ok :
      (n r zeronum : ℕ)
      → r + n ≤ 8 * btmp.btmp_bytes_len
      → zeronum ≡ free_count btmp 0 r
      → count_clear btmp n r zeronum ≡ ok (free_count btmp 0 (r + n))
  unfolding count_clear free_count
  count_clear-ok zero r z h e = let n : r + 0 ≡ r = omega arith in rw (n, e)
  count_clear-ok (suc n) r z h e = rw (is_clear-ok v r (omega arith)) (
      count_clear-ok n (r + 1) _ (omega arith) (next r z e)
      ∙ ap (λ k. ok (free_count btmp 0 k)) (omega arith))

  -- moving the window by one bit keeps `zeronum` right
  shift :
      (l r z : ℕ)
      → r ≡ l + cnt
      → 0 < cnt
      → z ≡ free_count btmp l cnt
      → let z' = if is_free btmp l then z - 1 else z in
        (if is_free btmp r then z' + 1 else z') ≡ free_count btmp (l + 1) cnt
  unfolding free_count
  shift l r z er h e =
      rw er (ground (arith, free_count-pos btmp l cnt h, free_count-front btmp l cnt))

  IsAnswer-next :
      (l : ℕ) (r : Option ℕ)
      → free_count btmp l cnt ≢ cnt
      → IsAnswer btmp cnt (l + 1) r
      → IsAnswer btmp cnt l r
  IsAnswer-next l none ne a = λ m low far w. elim (ℕ_discrete l m) [
    | yes same ↦ ne (rw same (full_of_IsWindow btmp m cnt w))
    | no other ↦ a m (omega arith) far w
  ]
  IsAnswer-next l (some k) ne (low, far, w, least) = (
    omega arith,
    far,
    w,
    λ m lo hi u. elim (ℕ_discrete l m) [
      | yes same ↦ ne (rw same (full_of_IsWindow btmp m cnt u))
      | no other ↦ least m (omega arith) hi u
    ],
  )

  slide-IsAnswer :
      (fuel l r z : ℕ)
      → r ≡ l + cnt
      → z ≡ free_count btmp l cnt
      → l ≤ btmp.btmp_bytes_len
      → btmp.btmp_bytes_len < fuel + l
      → Returns (IsAnswer btmp cnt l) (slide btmp cnt fuel l r z)
  unfolding slide
  slide-IsAnswer zero l r z er ez hl h = absurd (omega arith)
  slide-IsAnswer (suc fuel) l r z er ez hl h = elim (Bool-cases (ltb r btmp.btmp_bytes_len)) [
    | inr stop ↦ (none, rw (stop, slide), λ m low far w. absurd (ground arith))
    | inl more ↦ elim (Bool-cases (z == cnt)) [
      | inl full ↦ (
        some l,
        rw (more, full, slide),
        (
          omega arith,
          ground arith,
          IsWindow-of_full btmp l cnt (ground arith),
          λ m lo hi u. absurd (omega arith),
        ),
      )
      | inr part ↦
          let (a, run, answer) =
            slide-IsAnswer fuel (l + 1) (r + 1) _ (omega arith)
              (shift l r z er (ground (arith, free_count-le btmp l cnt)) ez) (omega (arith, ltb→lt))
              (omega arith) in
          (
            a,
            rw
                (
                  more,
                  part,
                  is_clear-ok v l (omega (arith, ltb→lt)),
                  is_clear-ok v r (omega (arith, ltb→lt)),
                  slide,
                )
                run,
            IsAnswer-next l a (ground arith) answer,
          )
    ]
  ]

-- For a well-formed bitmap and a `cnt` of at most its bits, `bitmap_scan` returns: the least window
-- of `cnt` free bits that ends before bit `btmp_bytes_len`, or -1 where there is none.
pub bitmap_scan-IsAnswer :
    {btmp : Bitmap} (cnt : ℕ)
    → IsValid btmp
    → cnt ≤ 8 * btmp.btmp_bytes_len
    → Returns (IsAnswer btmp cnt 0) (bitmap_scan btmp cnt)
unfolding bitmap_scan free_count
bitmap_scan-IsAnswer {btmp} cnt v h =
    let (a, run, answer) =
      slide-IsAnswer v cnt (btmp.btmp_bytes_len + 1) 0 cnt (free_count btmp 0 (0 + cnt))
        (omega arith) (ap (free_count btmp 0) (omega arith)) (omega arith) (omega arith) in
    (a, rw (count_clear-ok v cnt cnt 0 0 (omega arith) refl) run, answer)

-- The C code compares a bit's number with the count of bytes: for a well-formed bitmap whose first
-- `btmp_bytes_len` bits are taken, and a `cnt` from 1 to its bits, the answer of `bitmap_scan` is
-- -1, whatever the other bits hold.
pub bitmap_scan_blind :
    {btmp : Bitmap} (cnt : ℕ)
    → IsValid btmp
    → 0 < cnt
    → cnt ≤ 8 * btmp.btmp_bytes_len
    → ((i : ℕ) → i < btmp.btmp_bytes_len → is_free btmp i ≡ false)
    → bitmap_scan btmp cnt ≡ ok none
bitmap_scan_blind {btmp} cnt v pos h taken =
    no_window (bitmap_scan btmp cnt) (bitmap_scan-IsAnswer cnt v h)
  where
    no_window : (run : Run (Option ℕ)) → Returns (IsAnswer btmp cnt 0) run → run ≡ ok none
    no_window run (none, e, a) = e
    no_window run (some l, e, a) =
        let p : l + 0 ≡ l = omega arith in
        absurd (ground (arith, taken l (omega arith), (rw p at (a.2 0 pos))))
