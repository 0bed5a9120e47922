-- ===== src/Stdio/Prints.antt =====
-- From `printf` of lib/stdio.c through the system call to the screen.
use os_learning.Base.{
  ℕ, suc, ◌+◌, ◌<◌, ◌≤◌, ◌≡◌, refl, ap, ◌⊎◌, inl, inr, some, arith, List, ◌++◌, map, length, Option,
}
use os_learning.Base.Run.{Returns}
use os_learning.CString.{Ptr, Memory, Holds, memset_loop}
use os_learning.CString.Block.{memset_loop-within}
use os_learning.Interrupt.Handlers.{put_char}
use os_learning.Sync.Locks.{IsFree}
use os_learning.Syscall.{SyscallTable, syscall_init, CallState}
use os_learning.Syscall.Calls.{write-Prints}
use os_learning.Stdio.Format.{word}
use os_learning.Stdio.Printf.{printf}
use os_learning.Stdio.Pieces.{Piece, spelled, output, Away, Takes}
use os_learning.Stdio.Formats.{vsprintf-prints}

cleared :
    (buf n : ℕ) (mem : Memory) (a : Ptr) → buf ≤ a → a < buf + n → memset_loop buf 0 n mem a ≡ 0
cleared buf n mem a from to = ground (arith, memset_loop-within buf 0 n mem a)

untouched :
    (buf n : ℕ) (mem : Memory) (a : Ptr)
    → (a < buf) ⊎ (buf + n ≤ a)
    → memset_loop buf 0 n mem a ≡ mem a
untouched buf n mem a (inl h) = ground (arith, memset_loop-within buf 0 n mem a)
untouched buf n mem a (inr h) = ground (arith, memset_loop-within buf 0 n mem a)

-- The parameter of 4 bytes is read as it was.
word-untouched :
    (buf n : ℕ) (mem : Memory) (p : Ptr)
    → Away buf (buf + n) p 4
    → word (memset_loop buf 0 n mem) p ≡ word mem p
word-untouched buf n mem p (inl h) = rw (
  untouched buf n mem p (inl (omega arith)),
  untouched buf n mem (p + 1) (inl (omega arith)),
  untouched buf n mem (p + 2) (inl (omega arith)),
  untouched buf n mem (p + 3) (inl (omega arith)),
)
word-untouched buf n mem p (inr h) = rw (
  untouched buf n mem p (inr (omega arith)),
  untouched buf n mem (p + 1) (inr (omega arith)),
  untouched buf n mem (p + 2) (inr (omega arith)),
  untouched buf n mem (p + 3) (inr (omega arith)),
)

-- The text is on the screen behind what was there, and its length is the answer.
abbrev pub Printed :
    (ps : List Piece) (machine : CallState) → Option ℕ × Memory × CallState → Type 0
Printed ps machine (answer, mem', machine') =
    (answer ≡ some (length (output ps)))
    × (machine' ≡ record machine {
      console = record machine.console {
        screen = machine.console.screen ++ map put_char (output ps);
      };
    })

-- For a format of characters and of the directives %s, %x, %d and %c with their arguments on the
-- stack behind it, all outside the buffer, that shows fewer than 1024 characters, and the console's
-- lock free: `printf` after `syscall_init` returns their number in 32 rounds or more, with more
-- rounds than the pieces of the format and the characters; the screen has exactly the text of the
-- pieces behind what it had, and nothing else of the console and the heap has changed.
pub printf-Prints :
    (table : SyscallTable) (ps : List Piece) (fuel format_at buf : ℕ) (mem : Memory)
    (machine : CallState)
    → 0 < buf
    → 32 ≤ fuel
    → length ps < fuel
    → length (output ps) < fuel
    → Away buf (buf + 1024) format_at 4
    → Holds mem (word mem format_at) (spelled ps)
    → Away buf (buf + 1024) (word mem format_at) (suc (length (spelled ps)))
    → Takes buf (buf + 1024) mem format_at ps
    → length (output ps) < 1024
    → IsFree machine.console.console_lock
    → Returns (Printed ps machine) (printf (syscall_init table) fuel format_at buf mem machine)
unfolding printf
printf-Prints table ps fuel format_at buf mem machine start enough pieces short param held out takes
      fits free =
    let mem1 : Memory = memset_loop buf 0 1024 mem in
    let ((len, mem2), run, (count, shows, frame)) =
      vsprintf-prints ps fuel 1024 buf (word mem format_at) format_at mem start enough pieces short
        held out takes fits (omega arith) mem1 (cleared buf 1024 mem) (untouched buf 1024 mem) in
    let prints =
      write-Prints table fuel buf mem2 (output ps) machine shows (λ e. absurd (omega arith)) short
        (omega arith) free in
    let same = word-untouched buf 1024 mem format_at param in
    let after : CallState = record machine {
      console = record machine.console {
        screen = machine.console.screen ++ map put_char (output ps);
      };
    } in
    ((some len, mem2, after), rw (same, run, prints) refl, (ap some count, refl))
