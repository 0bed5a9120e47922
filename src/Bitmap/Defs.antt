-- ===== src/Bitmap/Defs.antt =====
-- The functions of lib/kernel/bitmap.c.
use os_learning.Base.{
  ℕ, zero, suc, ◌+◌, ◌-◌, ◌*◌, ◌/◌, ◌%◌, ◌^◌, ◌<◌, ◌≡◌, Bool, true, false, ◌||◌, Option, none, some,
  List, [], ◌∷◌, bit_and, bit_or, ltb, ◌==◌, if◌then◌else◌, length, get_elem?, get_or, set, All,
}
use os_learning.Base.Run.{Run, ok, fault, out_of_fuel, ◌>>=◌, ◌>>◌, assert, access}

abbrev pub bitmap_mask : ℕ
bitmap_mask = 1

-- `struct bitmap`
pub record Bitmap : Type 0 where
  pub btmp_bytes_len : ℕ
  pub bits : List ℕ

-- `memset(bits, 0, n)` on the bytes behind the pointer
unfoldable pub clear_bytes : ℕ → List ℕ → Run (List ℕ)
clear_bytes zero bits = ok bits
clear_bytes (suc n) [] = fault
clear_bytes (suc n) (byte ∷ bits) = do ok (0 ∷ (← clear_bytes n bits))

unfoldable pub bitmap_init : Bitmap → Run Bitmap
unfolding clear_bytes
bitmap_init btmp = do ok (record btmp { bits = (← clear_bytes btmp.btmp_bytes_len btmp.bits) })

-- The `int` that the C function returns: 0, or the mask itself.
unfoldable pub bitmap_scan_test : Bitmap → ℕ → Run ℕ
bitmap_scan_test btmp bit_idx = do
  byte ← access (get_elem? btmp.bits (bit_idx / 8))
  ok (bit_and byte (bitmap_mask * 2 ^ (bit_idx % 8)))

-- `!bitmap_scan_test(btmp, bit_idx)`
unfoldable pub is_clear : Bitmap → ℕ → Run Bool
unfolding bitmap_scan_test
is_clear btmp bit_idx = do ok ((← bitmap_scan_test btmp bit_idx) == 0)

-- The `for` loop of `bitmap_scan`, with `n` rounds left. `r` stays at most `cnt`, a uint32_t.
unfoldable pub count_clear : Bitmap → (n r zeronum : ℕ) → Run ℕ
unfolding is_clear
count_clear btmp zero r zeronum = ok zeronum
count_clear btmp (suc n) r zeronum = do
  clear ← is_clear btmp r
  count_clear btmp n (r + 1) (if clear then zeronum + 1 else zeronum)

-- The `while` loop of `bitmap_scan`, on fuel; `none` is the result -1. `l` and `r` stay at most
-- `btmp_bytes_len`, a uint32_t. `zeronum` is the number of clear bits from `l` to `r`, so that it is
-- not 0 where it is decremented.
unfoldable pub slide : Bitmap → ℕ → (fuel l r zeronum : ℕ) → Run (Option ℕ)
unfolding is_clear
slide btmp cnt zero l r zeronum = out_of_fuel
slide btmp cnt (suc fuel) l r zeronum = elim (ltb r btmp.btmp_bytes_len) [
  | false ↦ ok none
  | true ↦ elim (zeronum == cnt) [
    | true ↦ ok (some l)
    | false ↦ do
      leaves ← is_clear btmp l
      let zeronum' = if leaves then zeronum - 1 else zeronum
      enters ← is_clear btmp r
      slide btmp cnt fuel (l + 1) (r + 1) (if enters then zeronum' + 1 else zeronum')
  ]
]

-- With `btmp_bytes_len + 1` rounds for the `while` loop.
unfoldable pub bitmap_scan : Bitmap → ℕ → Run (Option ℕ)
unfolding count_clear slide
bitmap_scan btmp cnt = do
  zeronum ← count_clear btmp cnt 0 0
  slide btmp cnt (btmp.btmp_bytes_len + 1) 0 cnt zeronum

-- `byte |= mask << pos` and `byte &= ~(mask << pos)`: an `int` operation, cut to a uint8_t.
unfoldable pub set_bit : (byte pos value : ℕ) → ℕ
set_bit byte pos value =
    if value == 0
    then bit_and byte (2 ^ 32 - 1 - bitmap_mask * 2 ^ pos) % 2 ^ 8
    else bit_or byte (bitmap_mask * 2 ^ pos) % 2 ^ 8

-- `value` is the bit pattern of the int8_t.
unfoldable pub bitmap_set : Bitmap → (bit_idx value : ℕ) → Run Bitmap
unfolding set_bit
bitmap_set btmp bit_idx value = do
  assert ((value == 0) || (value == 1))
  byte ← access (get_elem? btmp.bits (bit_idx / 8))
  ok (record btmp { bits = set btmp.bits (bit_idx / 8) (set_bit byte (bit_idx % 8) value) })

-- The array has the length that the struct says, and holds bytes.
pub record IsValid (btmp : Bitmap) : Type 0 where
  pub size : length btmp.bits ≡ btmp.btmp_bytes_len
  pub bytes : All (λ byte. byte < 256) btmp.bits

-- What a bitmap stands for: which pages are free.
abbrev pub free_bit : (byte pos : ℕ) → Bool
free_bit byte pos = bit_and byte (bitmap_mask * 2 ^ pos) == 0

unfoldable pub is_free : Bitmap → ℕ → Bool
is_free btmp i = free_bit (get_or btmp.bits (i / 8) 0) (i % 8)
