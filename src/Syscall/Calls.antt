-- ===== src/Syscall/Calls.antt =====
-- What the wrappers of lib/user/syscall.c do after `syscall_init`.
use os_learning.Base.{
  ℕ, ◌^◌, ◌<◌, ◌≡◌, ◌≢◌, refl, none, some, if◌then◌else◌, List, ◌++◌, map, length, arith,
}
use os_learning.Base.Run.{ok, fault, ◌>>=◌}
use os_learning.CString.{Ptr, Memory, Holds}
use os_learning.CString.Strings.{strlen-length}
use os_learning.Interrupt.Handlers.{put_char}
use os_learning.Sync.Locks.{IsFree}
use os_learning.Memory.Malloc.{sys_malloc, sys_free}
use os_learning.Console.Output.{console_put-Shows}
use os_learning.Syscall.Defs.{
  SyscallTable, syscall_init, CallState, extend_pid, pool_flags, syscall_handler, getpid, write,
  malloc, free,
}

-- After `syscall_init`, with the console's lock free, `write` of a string returns its length, with
-- its characters behind what was on the screen and nothing else changed.
pub write-Prints :
    (table : SyscallTable) (fuel : ℕ) (str : Ptr) (mem : Memory) (xs : List ℕ) (machine : CallState)
    → Holds mem str xs
    → str ≢ 0
    → length xs < fuel
    → length xs < 2 ^ 32
    → IsFree machine.console.console_lock
    → write (syscall_init table) fuel str mem machine
      ≡ ok (
        some (length xs),
        record machine {
          console = record machine.console { screen = machine.console.screen ++ map put_char xs };
        },
      )
unfolding write syscall_init
write-Prints table fuel str mem xs machine held ne few small free =
    let prints =
      (console_put-Shows fuel str mem xs 0 0 machine.console machine.heap.sched held few free).0 in
    rw (prints, strlen-length mem fuel str xs held ne few small) refl

-- After `syscall_init`, `getpid` gives the caller's pid of 16 bits, extended by its sign to 32, and
-- `malloc` and `free` are `sys_malloc` and `sys_free` on the heap of the caller's pool.
pub calls-Reach :
    (table : SyscallTable) (fuel arg : ℕ) (mem : Memory) (machine : CallState)
    → (getpid (syscall_init table) fuel mem machine
        ≡ ok (some (extend_pid (machine.heap.sched.tasks machine.heap.sched.running).pid), machine))
      × (malloc (syscall_init table) fuel arg mem machine ≡ (
          sys_malloc (pool_flags machine) arg machine.heap >>= λ r.
          ok (r.0, record machine { heap = r.1 })))
      × (free (syscall_init table) fuel arg mem machine ≡ (
          sys_free (pool_flags machine) arg machine.heap >>= λ r.
          ok (if r.0 then some 0 else none, record machine { heap = r.1 })))
unfolding getpid malloc free syscall_init
calls-Reach table fuel arg mem machine = (refl, refl, refl)

-- Where nothing else is in the table, a number from 4 on is a fault.
pub syscall_handler-fault :
    (eax ebx fuel : ℕ) (mem : Memory) (machine : CallState)
    → 3 < eax
    → syscall_handler (syscall_init (λ nr. none)) eax ebx fuel mem machine ≡ fault
unfolding syscall_handler syscall_init
syscall_handler-fault eax ebx fuel mem machine large = ground arith
