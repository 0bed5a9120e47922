-- ===== src/Lib.antt =====
-- Verification of OS_Learning, a small x86 kernel in C.
--
-- The program's parts, and the modules that model them:
--   * Bitmap: lib/kernel/bitmap.c. A bitmap is its length in bytes and the bytes behind the pointer.
--   * KernelList: lib/kernel/list.c. A store of `prev` and `next` by address; a list's head and tail are the
--     two nodes at its address. `IsList` relates the store to the list of the elements.
--   * CString: lib/string.c, on a memory of bytes by address. `char` is signed.
--   * Stdio: lib/stdio.c, on the same memory; the arguments of `printf` are words on its stack. Stdio/Pieces says what
--     a format shows.
--   * Console: device/console.c on top of Sync, and `put_str` of lib/kernel/print.S. The screen is the list of the calls
--     that write to it. Console/Terminal has the threads of Contention print, a character at a step.
--   * Syscall: lib/user/syscall.c, `syscall_handler` of kernel/kernel.S and userprog/syscall-init.c, on top of Console
--     and Memory/Malloc. The text is read from the memory of CString, the heap is that of Memory.
--   * Interrupt: the interrupt flag, the table of handlers and the general handler in kernel/interrupt.c. A handler
--     is its address. Interrupt/Frequency has the port writes of device/timer.c and the timer that decodes them.
--   * Descriptors: the gates of kernel/interrupt.c and the segment descriptors of userprog/tss.c, with the
--     constants of kernel/global.h. The addresses of the entry points in kernel/kernel.S are arguments.
--   * Thread: `schedule`, `thread_block` and `thread_unblock` of thread/thread.c, `process_activate` of
--     userprog/process.c, and the handler of device/timer.c; Thread/Sleep, its sleeping, where what the counter
--     shows at each test is an argument. `Sched` holds the tasks, the ready queue as the
--     list of its tasks, the running task, the interrupt flag, and the registers that a switch writes. What
--     `addr_v2p` reads for a page directory is a function in that state.
--   * Sync: thread/sync.c, on top of Thread. A semaphore's waiters are a list of tasks.
--   * Contention: any number of threads that contend for one lock of thread/sync.c. A thread's point is its place
--     in `lock_acquire` and `lock_release`; a step is what the running thread does up to the next point at which
--     the timer can interrupt it, or the handler of device/timer.c. `Reach` is any sequence of steps.
--   * Process: the creation of threads in thread/thread.c and of processes in userprog/process.c, on top of Memory/Pages and
--     Thread. The addresses of `kernel_thread` and `start_process` are arguments.
--   * Ide: device/ide.c. A transfer is the list of its port instructions and of its calls that may block; what the
--     status register gives is an argument, and so is what its test in `busy_wait` gives, a call with an argument too
--     many. `insw` stands without a buffer, as it is called. Ide/Controller describes what a channel and its drives
--     make of such a list. Ide/Interrupts calls `intr_hd_handler` itself, since nothing in the program does.
--   * IoQueue: device/ioqueue.c, on top of Sync and Thread: the ring between the keyboard and its reader.
--   * Keyboard: device/keyboard.c, which puts characters into an IoQueue. The byte that the port gives is an
--     argument of the handler.
--   * Memory: kernel/memory.c. The physical and virtual pools on top of Bitmap, the page tables as the words of memory at their
--     places in the recursive mapping, the layout of `mem_pool_init`, and the addresses of small blocks.
--     Memory/Pages has `malloc_page`, `mfree_page` and the calls with a lock around them, on a state of the pools, the
--     virtual pools and the locks; Memory/Malloc has `sys_malloc` and `sys_free` on a state that keeps the heads of
--     the arenas and the free lists beside the words. What holds of that state between the calls is in
--     Memory/Malloc/Sound; Memory/Malloc/Runs has the calls in any order.
--   * Base: lists with native indices, tests on numbers, facts over finite tables, and `Run`, the outcome of a
--     call: `ok`, `panic` for a failed ASSERT or a PANIC, `fault` for an access or a division that the model
--     gives no meaning, `out_of_fuel` for a loop that outlives its rounds.
--
-- A function that may block (`thread_block`, `sema_down`, `lock_acquire`, `ioq_putchar`) is modelled up to
-- the switch to the next task; its answer says whether the caller has passed. `sema_resume` and `put_resume` are
-- the ways back into their loops. A producer that blocks in the `lock_acquire` of `ioq_putchar` itself goes on at
-- `sema_resume`.
--
-- Numbers are natural; where the C code's integers wrap around in reach, the model writes `% 2 ^ w`. Masks and
-- shifts of addresses are divisions and remainders by powers of 2.
--
-- Fuel: the loop of a disk transfer has as many rounds as sectors, and each round moves at least one. `bitmap_scan` has one round more than the bitmap has bytes, and it needs no more, since each round moves
-- the right end by a bit and stops at that number. The walks over lists, the loops over strings, `vsprintf`, `itoa` and `ticks_to_sleep` take
-- their rounds as an argument, and their theorems ask for more than the elements, the characters or the value.
--
-- Not modelled: assembly (boot/, thread/switch.S, kernel/kernel.S and lib/kernel/print.S but for the parts named above), port writes but those of
-- `pic_init`, `timer_init` and of the disk driver; start-up and the demonstration in kernel/main.c.
pub mod Base
pub mod Bitmap
pub mod Interrupt
pub mod KernelList
pub mod CString
pub mod Stdio
pub mod Descriptors
pub mod Thread
pub mod Sync
pub mod Contention
pub mod Console
pub mod IoQueue
pub mod Keyboard
pub mod Memory
pub mod Syscall
pub mod Process
pub mod Ide
