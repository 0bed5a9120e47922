-- ===== src/Stdio/Printf.antt =====
-- `printf` of lib/stdio.c. Its arguments stand on the stack from `format_at` on, and its buffer at `buf`.
use os_learning.Base.{ℕ, Option, none, some}
use os_learning.Base.Run.{Run, ok, ◌>>=◌}
use os_learning.CString.{Ptr, Memory, memset_loop}
use os_learning.Syscall.{SyscallTable, CallState, write}
use os_learning.Stdio.Format.{word, vsprintf}

abbrev pub buf_size : ℕ
buf_size = 1024

-- `va_start` gives the address of `format`. The buffer's initializer fills it with zeros. There is no answer where
-- the caller has blocked in `write`.
unfoldable pub printf :
    SyscallTable
    → (fuel : ℕ) → (format_at buf : Ptr) → Memory
    → CallState
    → Run (Option ℕ × Memory × CallState)
unfolding memset_loop vsprintf write
printf syscall_table fuel format_at buf mem machine = do
  let mem1 = memset_loop buf 0 buf_size mem
  (retval, mem2) ← vsprintf fuel buf (word mem1 format_at) format_at mem1
  (answer, machine1) ← write syscall_table fuel buf mem2 machine
  ok (elim answer [ none ↦ none | some len ↦ some retval ], mem2, machine1)
