-- ===== src/Stdio/Tests.antt =====
-- 255 in hexadecimal, and a line that `u_prog_a` of kernel/main.c prints.
use os_learning.Base.{
  ℕ, ◌+◌, ◌-◌, ◌<◌, ◌≤◌, ◌≡◌, refl, length, none, inl, [], ◌∷◌, List, arith, get_or, ltb,
  if◌then◌else◌,
}
use os_learning.Base.Run.{ok, ◌>>=◌, Returns}
use os_learning.CString.{Memory, Ptr, Holds}
use os_learning.Memory.Pages.Tests.{IsFree-lock}
use os_learning.Syscall.{syscall_init}
use os_learning.Syscall.Tests.{idle}
use os_learning.Stdio.{itoa, vsprintf, printf}
use os_learning.Stdio.Itoa.{Printed, itoa-Printed}
use os_learning.Stdio.Pieces.{Piece, text, hex, letter, spelled, output, Takes}
use os_learning.Stdio.Digits.{digits}
use os_learning.Stdio.Formats.{Formatted, vsprintf-Formats}
use os_learning.Stdio.Prints
use os_learning.Stdio.Prints.{printf-Prints}

abbrev mem : Memory
mem = λ a. 0

prints_ff : (itoa 3 255 16 100 mem >>= λ r. ok (r.1 100)) ≡ ok b'F'
unfolding itoa
prints_ff = refl

itoa-Printed_example : Returns (λ r. (n : ℕ) × Printed 16 255 100 mem n r) (itoa 256 255 16 100 mem)
itoa-Printed_example = itoa-Printed 256 255 16 100 mem (omega arith) (omega arith) (omega arith)

-- "0x%x%c" at 0x100; on the stack from 0x200 on its address, 0xc0de and a newline
abbrev format : List ℕ
format = b'0' ∷ b'x' ∷ b'%' ∷ b'x' ∷ b'%' ∷ b'c' ∷ []

abbrev stack : List ℕ
stack = 0 ∷ 1 ∷ 0 ∷ 0 ∷ 0xde ∷ 0xc0 ∷ 0 ∷ 0 ∷ 10 ∷ 0 ∷ 0 ∷ 0 ∷ []

abbrev line : Memory
line a =
    if ltb a 0x100
    then 0
    else if ltb a 0x200
    then get_or format (a - 0x100) 0
    else if ltb a 0x300
    then get_or stack (a - 0x200) 0
    else 0

abbrev pieces : List Piece
pieces = text b'0' ∷ text b'x' ∷ hex 0xc0de ∷ letter 10 ∷ []

clear : (a : Ptr) → 0x1000 ≤ a → a < 0x1000 + 1024 → line a ≡ 0
clear a from to = ground arith

short : length (output pieces) < 64
unfolding digits
short = omega arith

held : Holds line 0x100 (spelled pieces)
held = omega arith

takes : Takes 0x1000 (0x1000 + 1024) line 0x200 pieces
takes = omega arith

vsprintf-Formats_example :
    Returns (Formatted 0x1000 1024 pieces line) (vsprintf 64 0x1000 0x100 0x200 line)
vsprintf-Formats_example =
    vsprintf-Formats pieces 64 1024 0x1000 0x100 0x200 line (omega arith) (omega arith)
      (omega arith) short held (inl (omega arith)) takes (omega (arith, short)) (omega arith) clear

printf-Prints_example :
    Returns
      (Prints.Printed pieces idle)
      (printf (syscall_init (λ nr. none)) 64 0x200 0x1000 line idle)
printf-Prints_example =
    printf-Prints (λ nr. none) pieces 64 0x200 0x1000 line idle (omega arith) (omega arith)
      (omega arith) short (inl (omega arith)) held (inl (omega arith)) takes (omega (arith, short))
      IsFree-lock
