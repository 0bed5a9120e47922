-- ===== src/Stdio/Defs.antt =====
-- `itoa` of lib/stdio.c. The pointer behind `buf_ptr_addr` is passed and returned.
use os_learning.Base.{ℕ, zero, suc, ◌+◌, ◌-◌, ◌/◌, ◌%◌, true, false, ltb, ◌==◌, if◌then◌else◌}
use os_learning.Base.Run.{Run, ok, fault, out_of_fuel, ◌>>=◌}
use os_learning.CString.{Ptr, Memory, write}

-- The character for a digit, cut to a `char`.
unfoldable pub digit_char : ℕ → ℕ
digit_char m = (if ltb m 10 then m + b'0' else m + b'A' - 10) % 256

-- A division by a `base` of 0 is a fault of the processor.
unfoldable pub itoa : (fuel value base : ℕ) → (buf_ptr : Ptr) → Memory → Run (Ptr × Memory)
unfolding digit_char
itoa zero value base buf_ptr mem = out_of_fuel
itoa (suc fuel) value base buf_ptr mem = elim (base == 0) [
  | true ↦ fault
  | false ↦ do
    (buf_ptr1, mem1) ← elim (value / base == 0) [
      | true ↦ ok (buf_ptr, mem)
      | false ↦ itoa fuel (value / base) base buf_ptr mem
    ]
    ok (buf_ptr1 + 1, write mem1 buf_ptr1 (digit_char (value % base)))
]
