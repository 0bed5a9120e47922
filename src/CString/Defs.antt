-- ===== src/CString/Defs.antt =====
-- The functions of lib/string.c over a byte-addressed memory. A pointer is its address, and no block
-- or string runs past the end of the address space. `char` is signed, as gcc has it on x86. Loops over
-- strings run on fuel.
use os_learning.Base.{
  ℕ, zero, suc, ◌+◌, ◌-◌, ◌%◌, ◌^◌, ◌≡◌, ◌≢◌, Bool, true, false, not, ◌&&◌, ◌||◌, Option, none,
  some, List, [], ◌∷◌, ltb, ◌==◌, if◌then◌else◌,
}
use os_learning.Base.Int.{ℤ, pos, negsuc}
use os_learning.Base.Run.{Run, ok, out_of_fuel, ◌>>=◌, ◌>>◌, assert}

abbrev pub Ptr : Type 0
Ptr = ℕ

abbrev pub null : Ptr
null = 0

abbrev pub Memory : Type 0
Memory = Ptr → ℕ

abbrev pub write : Memory → Ptr → ℕ → Memory
write m p v q = if p == q then v else m q

-- The order of two bytes as signed characters.
abbrev pub char_lt : ℕ → ℕ → Bool
char_lt a b = ltb ((a + 128) % 256) ((b + 128) % 256)

-- `ch == *str` for a uint8_t `ch`: the signed character is equal to it only below 128.
abbrev pub byte_is_char : (ch c : ℕ) → Bool
byte_is_char ch c = (ch == c) && ltb c 128

unfoldable pub memset_loop : Ptr → (value size : ℕ) → Memory → Memory
memset_loop dst value zero m = m
memset_loop dst value (suc size) m = memset_loop (dst + 1) value size (write m dst value)

unfoldable pub memset : Ptr → (value size : ℕ) → Memory → Run Memory
unfolding memset_loop
memset dst_ value size m = assert (not (dst_ == null)) >> ok (memset_loop dst_ value size m)

unfoldable pub memcpy_loop : (dst src : Ptr) (size : ℕ) → Memory → Memory
memcpy_loop dst src zero m = m
memcpy_loop dst src (suc size) m = memcpy_loop (dst + 1) (src + 1) size (write m dst (m src))

unfoldable pub memcpy : (dst src : Ptr) (size : ℕ) → Memory → Run Memory
unfolding memcpy_loop
memcpy dst_ src_ size m =
    assert (not (dst_ == null) && not (src_ == null)) >> ok (memcpy_loop dst_ src_ size m)

unfoldable pub memcmp_loop : (a b : Ptr) (size : ℕ) → Memory → ℤ
memcmp_loop a b zero m = pos 0
memcmp_loop a b (suc size) m =
    let rest = memcmp_loop (a + 1) (b + 1) size m in
    if m a == m b then rest else (if char_lt (m b) (m a) then pos 1 else negsuc 0)

-- The ASSERT asks that one pointer at least is not NULL.
unfoldable pub memcmp : (a b : Ptr) (size : ℕ) → Memory → Run ℤ
unfolding memcmp_loop
memcmp a_ b_ size m = assert (not (a_ == null) || not (b_ == null)) >> ok (memcmp_loop a_ b_ size m)

-- `while (*(dst++) = *(src++));`
unfoldable pub copy_loop : (fuel : ℕ) (dst src : Ptr) → Memory → Run Memory
copy_loop zero dst src m = out_of_fuel
copy_loop (suc fuel) dst src m = elim (m src == 0) [
  | true ↦ ok (write m dst (m src))
  | false ↦ copy_loop fuel (dst + 1) (src + 1) (write m dst (m src))
]

unfoldable pub strcpy : (fuel : ℕ) (dsc src : Ptr) → Memory → Run (Ptr × Memory)
unfolding copy_loop
strcpy fuel dsc_ src_ m = do
  assert (not (dsc_ == null) && not (src_ == null))
  m' ← copy_loop fuel dsc_ src_ m
  ok (dsc_, m')

-- `while (*(ptr++));`: where `ptr` ends
unfoldable pub skip_loop : (fuel : ℕ) (ptr : Ptr) → Memory → Run Ptr
skip_loop zero ptr m = out_of_fuel
skip_loop (suc fuel) ptr m = elim (m ptr == 0) [
  | true ↦ ok (ptr + 1)
  | false ↦ skip_loop fuel (ptr + 1) m
]

unfoldable pub strlen : (fuel : ℕ) (str : Ptr) → Memory → Run ℕ
unfolding skip_loop
strlen fuel str m = do
  assert (not (str == null))
  ptr ← skip_loop fuel str m
  ok ((ptr - str - 1) % 2 ^ 32)

-- `while (*a && *a == *b)`, and the comparison at the end
unfoldable pub strcmp_loop : (fuel : ℕ) (a b : Ptr) → Memory → Run ℤ
strcmp_loop zero a b m = out_of_fuel
strcmp_loop (suc fuel) a b m = elim (not (m a == 0) && (m a == m b)) [
  | true ↦ strcmp_loop fuel (a + 1) (b + 1) m
  | false ↦
      ok (if char_lt (m a) (m b) then negsuc 0 else (if char_lt (m b) (m a) then pos 1 else pos 0))
]

unfoldable pub strcmp : (fuel : ℕ) (a b : Ptr) → Memory → Run ℤ
unfolding strcmp_loop
strcmp fuel a b m = assert (not (a == null) && not (b == null)) >> strcmp_loop fuel a b m

-- `ch` is a `char`; `none` is the result NULL.
unfoldable pub strchr_loop : (fuel : ℕ) (str : Ptr) (ch : ℕ) → Memory → Run (Option Ptr)
strchr_loop zero str ch m = out_of_fuel
strchr_loop (suc fuel) str ch m = elim (m str == 0) [
  | true ↦ ok none
  | false ↦ elim (m str == ch) [ true ↦ ok (some str) | false ↦ strchr_loop fuel (str + 1) ch m ]
]

unfoldable pub strchr : (fuel : ℕ) (str : Ptr) (ch : ℕ) → Memory → Run (Option Ptr)
unfolding strchr_loop
strchr fuel str ch m = assert (not (str == null)) >> strchr_loop fuel str ch m

unfoldable pub strrchr_loop :
    (fuel : ℕ) (str : Ptr) (ch : ℕ) (last : Option Ptr) → Memory → Run (Option Ptr)
strrchr_loop zero str ch last m = out_of_fuel
strrchr_loop (suc fuel) str ch last m = elim (m str == 0) [
  | true ↦ ok last
  | false ↦ strrchr_loop fuel (str + 1) ch (if byte_is_char ch (m str) then some str else last) m
]

-- `ch` is a `uint8_t`.
unfoldable pub strrchr : (fuel : ℕ) (str : Ptr) (ch : ℕ) → Memory → Run (Option Ptr)
unfolding strrchr_loop
strrchr fuel str ch m = assert (not (str == null)) >> strrchr_loop fuel str ch none m

unfoldable pub strcat : (fuel : ℕ) (dsc src : Ptr) → Memory → Run (Ptr × Memory)
unfolding skip_loop copy_loop
strcat fuel dsc_ src_ m = do
  assert (not (dsc_ == null) && not (src_ == null))
  str ← skip_loop fuel dsc_ m
  m' ← copy_loop fuel (str - 1) src_ m
  ok (dsc_, m')

unfoldable pub strchrs_loop : (fuel : ℕ) (str : Ptr) (ch ch_cnt : ℕ) → Memory → Run ℕ
strchrs_loop zero str ch ch_cnt m = out_of_fuel
strchrs_loop (suc fuel) str ch ch_cnt m = elim (m str == 0) [
  | true ↦ ok ch_cnt
  | false ↦
      strchrs_loop fuel (str + 1) ch
        (if byte_is_char ch (m str) then (ch_cnt + 1) % 2 ^ 32 else ch_cnt) m
]

-- The count is returned as a `char *`.
unfoldable pub strchrs : (fuel : ℕ) (str : Ptr) (ch : ℕ) → Memory → Run ℕ
unfolding strchrs_loop
strchrs fuel str ch m = assert (not (str == null)) >> strchrs_loop fuel str ch 0 m

-- The string at `p` is `xs`: its bytes, none of them 0, and a 0 behind them.
abbrev pub Holds : Memory → Ptr → List ℕ → Type 0
Holds m p [] = m p ≡ 0
Holds m p (x ∷ xs) = (m p ≡ x) × (x ≢ 0) × Holds m (p + 1) xs
