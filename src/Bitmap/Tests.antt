-- ===== src/Bitmap/Tests.antt =====
-- The bitmap functions at concrete bitmaps.
use os_learning.Base.{ℕ, zero, suc, ◌<◌, ◌≡◌, refl, false, some, none, [], ◌∷◌, arith}
use os_learning.Base.Run.{ok, fault, Returns}
use os_learning.Bitmap.{Bitmap, is_free, bitmap_set, bitmap_scan, bitmap_scan_test}
use os_learning.Bitmap.Scan.{IsAnswer, bitmap_scan-IsAnswer, bitmap_scan_blind}

-- bits 0, 1 and 3 are taken
abbrev pages : Bitmap
pages = record { btmp_bytes_len = 8; bits = 0xb ∷ 0 ∷ 0 ∷ 0 ∷ 0 ∷ 0 ∷ 0 ∷ 0 ∷ [] }

-- the first byte is taken, the second is free
abbrev behind : Bitmap
behind = record { btmp_bytes_len = 2; bits = 0xff ∷ 0 ∷ [] }

scan_pages :
    (bitmap_scan pages 1 ≡ ok (some 2))
    × (bitmap_scan pages 3 ≡ ok (some 4))
    × (bitmap_scan pages 4 ≡ ok none)
unfolding bitmap_scan
scan_pages = (refl, refl, refl)

set_pages :
    (bitmap_set behind 9 1 ≡ ok (record behind { bits = 0xff ∷ 2 ∷ [] }))
    × (bitmap_set behind 7 0 ≡ ok (record behind { bits = 0x7f ∷ 0 ∷ [] }))
    × (bitmap_scan_test behind 16 ≡ fault)
unfolding bitmap_set bitmap_scan_test
set_pages = (refl, refl, refl)

bitmap_scan-IsAnswer_example : Returns (IsAnswer pages 3 0) (bitmap_scan pages 3)
bitmap_scan-IsAnswer_example = bitmap_scan-IsAnswer {btmp = pages} 3 (omega arith) (omega arith)

behind_taken : (i : ℕ) → i < 2 → is_free behind i ≡ false
unfolding is_free
behind_taken zero h = refl
behind_taken (suc zero) h = refl
behind_taken (suc (suc i)) h = absurd (omega arith)

bitmap_scan_blind_example : bitmap_scan behind 1 ≡ ok none
bitmap_scan_blind_example =
    bitmap_scan_blind {btmp = behind} 1 (omega arith) (omega arith) (omega arith) behind_taken
