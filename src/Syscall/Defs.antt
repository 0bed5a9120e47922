-- ===== src/Syscall/Defs.antt =====
-- The wrappers of lib/user/syscall.c, the entry `syscall_handler` of kernel/kernel.S, and the table and the two
-- functions of userprog/syscall-init.c. The interrupt flag, which the gate turns off and `iretd` gives back, is
-- left out: what the table leads to does not read it but to save and restore it.
use os_learning.Base.{
  ℕ, ◌+◌, ◌-◌, ◌^◌, true, false, Option, none, some, ltb, ◌==◌, if◌then◌else◌, update,
}
use os_learning.Base.Run.{Run, ok, fault, ◌>>=◌}
use os_learning.CString.{Ptr, Memory, strlen}
use os_learning.Console.{Console, console_put_str}
use os_learning.Memory.{PoolFlags, pf_kernel, pf_user}
use os_learning.Memory.Malloc.{Heap, sys_malloc, sys_free}

-- `enum SYSCALL_NR`
abbrev pub sys_getpid_nr : ℕ
sys_getpid_nr = 0

abbrev pub sys_write_nr : ℕ
sys_write_nr = 1

abbrev pub sys_malloc_nr : ℕ
sys_malloc_nr = 2

abbrev pub sys_free_nr : ℕ
sys_free_nr = 3

abbrev pub syscall_nr : ℕ
syscall_nr = 32

-- an entry of `syscall_table`; an entry that is not set is `none`
pub data Syscall : Type 0 where
  getpid_entry write_entry malloc_entry free_entry : Syscall

abbrev pub SyscallTable : Type 0
SyscallTable = ℕ → Option Syscall

unfoldable pub syscall_init : SyscallTable → SyscallTable
syscall_init syscall_table =
    update
      (update
        (update (update syscall_table sys_getpid_nr (some getpid_entry)) sys_write_nr
          (some write_entry))
        sys_malloc_nr (some malloc_entry))
      sys_free_nr (some free_entry)

-- What the calls change: the console, and the heap of the caller with the scheduler's state in it.
pub record CallState : Type 0 where
  pub console : Console
  pub heap : Heap

-- What comes back in `eax`. `none` is no value: the caller has blocked, or the pointer of `sys_malloc` is NULL.
abbrev pub Answer : Type 0
Answer = Option ℕ × CallState

-- `pid_t` has 16 bits and a sign, and the answer 32 bits without.
abbrev pub extend_pid : (pid : ℕ) → ℕ
extend_pid pid = if ltb pid (2 ^ 15) then pid else pid + (2 ^ 32 - 2 ^ 16)

unfoldable pub sys_getpid : CallState → Run Answer
sys_getpid machine =
    let s = machine.heap.sched in ok (some (extend_pid (s.tasks s.running).pid), machine)

unfoldable pub sys_write : (fuel : ℕ) (str : Ptr) → Memory → CallState → Run Answer
sys_write fuel str mem machine = do
  (passed, console, s) ← console_put_str fuel str mem machine.console machine.heap.sched
  let machine1 : CallState = record { console = console; heap = record machine.heap { sched = s } }
  elim passed [
    | false ↦ ok (none, machine1)
    | true ↦ do len ← strlen fuel str mem; ok (some len, machine1)
  ]

-- the pool by `pgdir` of the caller
abbrev pub pool_flags : CallState → PoolFlags
pool_flags machine =
    let s = machine.heap.sched in if (s.tasks s.running).pgdir == 0 then pf_kernel else pf_user

-- `call [syscall_table + 4 * eax]`: a call of address 0, or by what stands behind the table, is a fault. `sys_free`
-- leaves no value in `eax`; its answer is 0 here.
unfoldable pub call_entry : Option Syscall → (fuel arg : ℕ) → Memory → CallState → Run Answer
unfolding sys_getpid sys_write
call_entry none fuel arg mem machine = fault
call_entry (some getpid_entry) fuel arg mem machine = sys_getpid machine
call_entry (some write_entry) fuel arg mem machine = sys_write fuel arg mem machine
call_entry (some malloc_entry) fuel arg mem machine = do
  (b, heap) ← sys_malloc (pool_flags machine) arg machine.heap
  ok (b, record machine { heap = heap })
call_entry (some free_entry) fuel arg mem machine = do
  (passed, heap) ← sys_free (pool_flags machine) arg machine.heap
  ok (if passed then some 0 else none, record machine { heap = heap })

-- `eax` and `ebx` are the number and the argument.
unfoldable pub syscall_handler : SyscallTable → (eax ebx fuel : ℕ) → Memory → CallState → Run Answer
unfolding call_entry
syscall_handler syscall_table eax ebx fuel mem machine =
    if ltb eax syscall_nr then call_entry (syscall_table eax) fuel ebx mem machine else fault

unfoldable pub getpid : SyscallTable → (fuel : ℕ) → Memory → CallState → Run Answer
unfolding syscall_handler
getpid syscall_table fuel mem machine =
    syscall_handler syscall_table sys_getpid_nr 0 fuel mem machine

unfoldable pub write : SyscallTable → (fuel : ℕ) (str : Ptr) → Memory → CallState → Run Answer
unfolding syscall_handler
write syscall_table fuel str mem machine =
    syscall_handler syscall_table sys_write_nr str fuel mem machine

unfoldable pub malloc : SyscallTable → (fuel size : ℕ) → Memory → CallState → Run Answer
unfolding syscall_handler
malloc syscall_table fuel size mem machine =
    syscall_handler syscall_table sys_malloc_nr size fuel mem machine

unfoldable pub free : SyscallTable → (fuel : ℕ) (ptr : Ptr) → Memory → CallState → Run Answer
unfolding syscall_handler
free syscall_table fuel ptr mem machine =
    syscall_handler syscall_table sys_free_nr ptr fuel mem machine
