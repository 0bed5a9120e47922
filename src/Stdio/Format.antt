-- ===== src/Stdio/Format.antt =====
-- `vsprintf` of lib/stdio.c. The arguments stand on the stack, 4 bytes each, behind the address `ap`.
use os_learning.Base.{ℕ, zero, suc, ◌+◌, ◌-◌, ◌*◌, ◌%◌, ◌^◌, true, false, leb, ◌==◌, if◌then◌else◌}
use os_learning.Base.Run.{Run, ok, out_of_fuel, ◌>>=◌}
use os_learning.CString.{Ptr, Memory, write, strcpy, strlen}
use os_learning.Stdio.Defs.{itoa}

-- the 4 bytes of an `int` or a pointer, the low one first
abbrev pub word : Memory → Ptr → ℕ
word mem p = mem p + 2 ^ 8 * mem (p + 1) + 2 ^ 16 * mem (p + 2) + 2 ^ 24 * mem (p + 3)

-- `buf_ptr`, `index_ptr`, `ap` and the memory
abbrev pub Printer : Type 0
Printer = Ptr × Ptr × Ptr × Memory

unfoldable pub put_string : (fuel : ℕ) → (buf_ptr index_ptr ap : Ptr) → Memory → Run Printer
put_string fuel buf_ptr index_ptr ap mem = do
  let arg_str = word mem (ap + 4)
  (dsc, mem1) ← strcpy fuel buf_ptr arg_str mem
  len ← strlen fuel arg_str mem1
  ok (buf_ptr + len, index_ptr + 1, ap + 4, mem1)

unfoldable pub put_hex : (fuel : ℕ) → (buf_ptr index_ptr ap : Ptr) → Memory → Run Printer
put_hex fuel buf_ptr index_ptr ap mem = do
  let arg_int = word mem (ap + 4)
  (buf_ptr1, mem1) ← itoa fuel arg_int 16 buf_ptr mem
  ok (buf_ptr1, index_ptr + 1, ap + 4, mem1)

-- An `int` from 2 ^ 31 on is negative, and `0 - arg_int` wraps around.
unfoldable pub put_decimal : (fuel : ℕ) → (buf_ptr index_ptr ap : Ptr) → Memory → Run Printer
put_decimal fuel buf_ptr index_ptr ap mem = do
  let arg_int = word mem (ap + 4)
  let negative = leb (2 ^ 31) arg_int
  let value = if negative then (2 ^ 32 - arg_int) % 2 ^ 32 else arg_int
  let start = if negative then buf_ptr + 1 else buf_ptr
  let mem1 = if negative then write mem buf_ptr b'-' else mem
  (buf_ptr1, mem2) ← itoa fuel value 10 start mem1
  ok (buf_ptr1, index_ptr + 1, ap + 4, mem2)

unfoldable pub put_letter : (buf_ptr index_ptr ap : Ptr) → Memory → Run Printer
put_letter buf_ptr index_ptr ap mem =
    ok (buf_ptr + 1, index_ptr + 1, ap + 4, write mem buf_ptr (mem (ap + 4)))

-- The `switch`, with `index_ptr` at the character behind `%`. Any other than the four is left in place.
unfoldable pub directive : (fuel : ℕ) → (buf_ptr index_ptr ap : Ptr) → Memory → Run Printer
unfolding put_string put_hex put_decimal put_letter
directive fuel buf_ptr index_ptr ap mem =
    if mem index_ptr == b's'
    then put_string fuel buf_ptr index_ptr ap mem
    else if mem index_ptr == b'x'
    then put_hex fuel buf_ptr index_ptr ap mem
    else if mem index_ptr == b'd'
    then put_decimal fuel buf_ptr index_ptr ap mem
    else if mem index_ptr == b'c'
    then put_letter buf_ptr index_ptr ap mem
    else ok (buf_ptr, index_ptr, ap, mem)

-- The `while` loop. `index_char` is always what stands at `index_ptr`.
unfoldable pub format_loop : (rounds fuel : ℕ) → (buf_ptr index_ptr ap : Ptr) → Memory → Run Memory
unfolding directive
format_loop zero fuel buf_ptr index_ptr ap mem = out_of_fuel
format_loop (suc rounds) fuel buf_ptr index_ptr ap mem = elim (mem index_ptr == 0) [
  | true ↦ ok mem
  | false ↦ elim (mem index_ptr == b'%') [
    | false ↦
        format_loop rounds fuel (buf_ptr + 1) (index_ptr + 1) ap (write mem buf_ptr (mem index_ptr))
    | true ↦ do
      (buf_ptr1, index_ptr1, ap1, mem1) ← directive fuel buf_ptr (index_ptr + 1) ap mem
      format_loop rounds fuel buf_ptr1 index_ptr1 ap1 mem1
  ]
]

-- No 0 is written behind the text.
unfoldable pub vsprintf : (fuel : ℕ) → (str format ap : Ptr) → Memory → Run (ℕ × Memory)
unfolding format_loop
vsprintf fuel str format ap mem = do
  mem1 ← format_loop fuel fuel str format ap mem
  len ← strlen fuel str mem1
  ok (len, mem1)
