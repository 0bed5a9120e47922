-- ===== src/Bitmap/Set.antt =====
-- `bitmap_init`, `bitmap_scan_test` and `bitmap_set` of lib/kernel/bitmap.c.
use os_learning.Base.{
  ℕ, zero, suc, ◌*◌, ◌/◌, ◌%◌, ◌<◌, ◌≤◌, ◌≡◌, refl, Bool, true, not, ◌&&◌, ◌∙◌, some, List, [], ◌∷◌,
  arith, ltb, ◌==◌, if◌then◌else◌, length, get_elem?, get_or, set, All-replicate, replicate,
  length-replicate, length-set, get_elem?-eq-get_or, get_elem?-none, get_or-set_self, get_or-set_ne,
  All-set, All-get_or, all_below, all_below_sound,
}
use native.Mathlib.Decide.{ℕ_discrete}
use os_learning.Base.Run.{ok, panic, fault, Returns}
use os_learning.Bitmap.Defs.{
  Bitmap, clear_bytes, bitmap_init, bitmap_scan_test, is_clear, set_bit, bitmap_set, IsValid,
  free_bit, is_free,
}

-- At each byte, position and value: the range, the bit written, and another bit.
abbrev agree : Bool → Bool → Bool
agree a b = if a then b else not b

abbrev set_bit_at : (byte pos value q : ℕ) → Bool
set_bit_at byte pos value q =
    ltb (set_bit byte pos value) 256
    && agree (free_bit (set_bit byte pos value) q)
        (if pos == q then value == 0 else free_bit byte q)

set_bit_table :
    all_below 256
      (λ byte. all_below 8 λ pos. all_below 2 λ v. all_below 8 λ q. set_bit_at byte pos v q)
    ≡ true
unfolding all_below set_bit
set_bit_table = refl

agree-eq : (a b : Bool) → agree a b ≡ true → a ≡ b
agree-eq a b h = ground arith

module _ (byte pos value q : ℕ) (hb : byte < 256) (hp : pos < 8) (hv : value < 2) (hq : q < 8) where
  set_bit_checked : set_bit_at byte pos value q ≡ true
  set_bit_checked =
      all_below_sound 8 _ q
        (all_below_sound 2 _ value
          (all_below_sound 8 _ pos (all_below_sound 256 _ byte set_bit_table hb) hp) hv)
        hq

  set_bit-lt : set_bit byte pos value < 256
  set_bit-lt = ground (arith, set_bit_checked)

  free_bit-set_bit :
      free_bit (set_bit byte pos value) q ≡ (if pos == q then value == 0 else free_bit byte q)
  free_bit-set_bit = agree-eq _ _ (ground (arith, set_bit_checked))

module _ {btmp : Bitmap} (v : IsValid btmp) where
  byte-lt : (k : ℕ) → get_or btmp.bits k 0 < 256
  byte-lt k = All-get_or (λ byte. byte < 256) btmp.bits k 0 v.bytes (omega arith)

  access-ok :
      (i : ℕ)
      → i < 8 * btmp.btmp_bytes_len
      → get_elem? btmp.bits (i / 8) ≡ some (get_or btmp.bits (i / 8) 0)
  access-ok i h = get_elem?-eq-get_or btmp.bits (i / 8) 0 (omega (arith, v.size))

  -- In range the test reads the bit, and changes nothing.
  pub is_clear-ok : (i : ℕ) → i < 8 * btmp.btmp_bytes_len → is_clear btmp i ≡ ok (is_free btmp i)
  unfolding is_clear is_free
  is_clear-ok i h = rw (access-ok i h)

-- What `bitmap_set` leaves: bit `i` has the value, each other bit and the length are as before.
abbrev pub Wrote : Bitmap → (i value : ℕ) → Bitmap → Type 0
Wrote btmp i value btmp' =
    IsValid btmp'
    × (btmp'.btmp_bytes_len ≡ btmp.btmp_bytes_len)
    × ((j : ℕ) → is_free btmp' j ≡ (if i == j then value == 0 else is_free btmp j))

module _ (btmp : Bitmap) (v : IsValid btmp) (i value : ℕ) (hi : i < 8 * btmp.btmp_bytes_len)
    (hv : value < 2) where
  abbrev old : ℕ
  old = get_or btmp.bits (i / 8) 0

  abbrev new : ℕ
  new = set_bit old (i % 8) value

  abbrev written : Bitmap
  written = record btmp { bits = set btmp.bits (i / 8) new }

  written-IsValid : IsValid written
  written-IsValid = record {
    size = length-set btmp.bits _ _ ∙ v.size;
    bytes =
        All-set _ btmp.bits _ _ v.bytes
          (set_bit-lt _ _ _ 0 (byte-lt v _) (omega arith) hv (omega arith));
  }

  is_free-written : (j : ℕ) → is_free written j ≡ (if i == j then value == 0 else is_free btmp j)
  unfolding is_free
  is_free-written j = elim (ℕ_discrete (i / 8) (j / 8)) [
    | yes e ↦
        rw (← e, get_or-set_self btmp.bits (i / 8) new 0 (omega (arith, v.size)))
          (ground (
            arith,
            free_bit-set_bit old (i % 8) value (j % 8) (byte-lt v (i / 8)) (omega arith) hv
                (omega arith),
          ))
    | no n ↦ rw (get_or-set_ne btmp.bits (i / 8) (j / 8) new 0 n) (ground arith)
  ]

  -- For a well-formed bitmap, a bit in its range and the value 0 or 1, `bitmap_set` returns a
  -- well-formed bitmap of the same length, in which that bit has the value and every other is as
  -- before.
  pub bitmap_set-Wrote : Returns (Wrote btmp i value) (bitmap_set btmp i value)
  unfolding bitmap_set
  bitmap_set-Wrote =
      (written, rw (access-ok v i hi) (ground arith), (written-IsValid, refl, is_free-written))

-- A value other than 0 and 1 fails the ASSERT of `bitmap_set`.
pub bitmap_set-panic : (btmp : Bitmap) (i value : ℕ) → 2 ≤ value → bitmap_set btmp i value ≡ panic
unfolding bitmap_set
bitmap_set-panic btmp i value h = ground arith

-- An index behind the array is no access to the bitmap, for `bitmap_scan_test` and `bitmap_set`.
pub bitmap-fault :
    (btmp : Bitmap) (i value : ℕ)
    → IsValid btmp
    → value < 2
    → 8 * btmp.btmp_bytes_len ≤ i
    → (bitmap_scan_test btmp i ≡ fault) × (bitmap_set btmp i value ≡ fault)
unfolding bitmap_scan_test bitmap_set
bitmap-fault btmp i value v h far =
    let e = get_elem?-none btmp.bits (i / 8) (omega (arith, v.size)) in (rw e, rw e (ground arith))

clear_bytes-replicate :
    (bits : List ℕ) → clear_bytes (length bits) bits ≡ ok (replicate (length bits) 0)
unfolding clear_bytes
clear_bytes-replicate [] = refl
clear_bytes-replicate (byte ∷ bits) = rw (clear_bytes-replicate bits)

get_or-replicate : (n i : ℕ) → get_or {A = ℕ} (replicate n 0) i 0 ≡ 0
get_or-replicate zero i = refl
get_or-replicate (suc n) zero = refl
get_or-replicate (suc n) (suc i) = get_or-replicate n i

zero_table : all_below 8 (λ pos. free_bit 0 pos) ≡ true
unfolding all_below
zero_table = refl

-- Every bit is free, in an array that `bitmap_init` has filled.
abbrev pub Cleared : Bitmap → Bitmap → Type 0
Cleared btmp btmp' =
    IsValid btmp'
    × (btmp'.btmp_bytes_len ≡ btmp.btmp_bytes_len)
    × ((j : ℕ) → is_free btmp' j ≡ true)

-- `bitmap_init` frees every bit, whatever the array held before.
pub bitmap_init-Cleared :
    (btmp : Bitmap)
    → length btmp.bits ≡ btmp.btmp_bytes_len
    → Returns (Cleared btmp) (bitmap_init btmp)
unfolding bitmap_init is_free
bitmap_init-Cleared btmp size = (
  record btmp { bits = replicate (length btmp.bits) 0 },
  rw (← size, clear_bytes-replicate btmp.bits),
  (
    record {
      size = length-replicate (length btmp.bits) 0 ∙ size;
      bytes = All-replicate _ (length btmp.bits) 0 (omega arith);
    },
    refl,
    λ j.
        rw (get_or-replicate (length btmp.bits) (j / 8))
          (all_below_sound 8 _ (j % 8) zero_table (omega arith)),
  ),
)
