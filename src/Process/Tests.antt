-- ===== src/Process/Tests.antt =====
-- A fifth thread beside four, on the first free page of the heap.
use os_learning.Base.{[], ◌∷◌, arith}
use os_learning.Base.Run.{Returns}
use os_learning.Sync.{lock_init}
use os_learning.Thread.Tests.{four_tasks, four_tasks-IsValid}
use os_learning.Memory.Pages.{Spaces}
use os_learning.Memory.Pages.Tests.{mem, heap, CanTake-one, IsFree-lock}
use os_learning.Process.Defs.{Kernel, create_page_dir, thread_start}
use os_learning.Process.Directory.{SharesKernel, create_page_dir-SharesKernel}
use os_learning.Process.Threads.{Started, AreOnTakenPages, thread_start-Started}

abbrev spaces : Spaces
spaces = record {
  memory = mem;
  kernel_vaddr = heap;
  user_vaddr = heap;
  kernel_lock = lock_init;
  user_lock = lock_init;
  sched = four_tasks;
}

abbrev kernel : Kernel
kernel = record {
  spaces = spaces;
  all_list = 1 ∷ 2 ∷ 3 ∷ 4 ∷ [];
  main_thread = 1;
  next_pid = 4;
  pid_lock = lock_init;
  self_kstack = λ t. t;
  names = λ t. [];
  user_vaddr = λ t. heap;
}

apart : AreOnTakenPages kernel
apart = record {
  apart = λ j less free.
      (ground arith, λ e. absurd (omega arith), ground arith, λ e. absurd (omega arith));
}

create_page_dir-SharesKernel_example : Returns (SharesKernel spaces) (create_page_dir spaces)
create_page_dir-SharesKernel_example = create_page_dir-SharesKernel spaces IsFree-lock CanTake-one

thread_start-Started_example :
    Returns
      (Started 0xc0001500 31 0xc0001600 7 (97 ∷ []) kernel)
      (thread_start 0xc0001500 (97 ∷ []) 31 0xc0001600 7 kernel)
thread_start-Started_example =
    thread_start-Started 0xc0001500 31 0xc0001600 7 (97 ∷ []) kernel (omega arith)
      four_tasks-IsValid IsFree-lock apart IsFree-lock CanTake-one
