-- ===== src/Syscall/Tests.antt =====
-- A call that the table does not have, on a console that nobody has and a heap without arenas.
use os_learning.Base.{◌≡◌, none, false, [], arith}
use os_learning.Base.Run.{fault}
use os_learning.Sync.{lock_init}
use os_learning.Thread.Tests.{four_tasks}
use os_learning.Memory.Pages.Tests.{mem, heap}
use os_learning.Syscall.Defs.{CallState, syscall_init, syscall_handler}
use os_learning.Syscall.Calls.{syscall_handler-fault}

abbrev pub idle : CallState
idle = record {
  console = record { console_lock = lock_init; screen = [] };
  heap = record {
    memory = mem;
    vaddr = heap;
    lock = lock_init;
    sched = four_tasks;
    arenas = λ a. record { desc = none; cnt = 0; large = false };
    free_list = λ i. [];
  };
}

fifth : syscall_handler (syscall_init (λ nr. none)) 4 0 9 (λ a. 0) idle ≡ fault
fifth = syscall_handler-fault 4 0 9 (λ a. 0) idle (omega arith)
