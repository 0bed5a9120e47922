-- ===== src/Process/Defs.antt =====
-- The creation of threads in thread/thread.c, and of processes in userprog/process.c. The words of memory are those of
-- Memory/Pages; the members of a task that the scheduler does not read stand beside its state.
use os_learning.Base.{
  ℕ, ◌+◌, ◌-◌, ◌*◌, ◌/◌, ◌%◌, ◌^◌, Bool, true, false, ◌&&◌, ◌||◌, not, Option, none, some, bit_or,
  List, [], ◌∷◌, ◌++◌, ltb, leb, ◌==◌, if◌then◌else◌, has, length, update, replicate,
}
use os_learning.Base.Run.{Run, ok, fault, ◌>>=◌, ◌>>◌, assert}
use os_learning.Bitmap.{bitmap_init}
use os_learning.Interrupt.{intr_disable, intr_set_status}
use os_learning.Thread.{Tid, task_running, task_ready, Task, stack_magic_value, Sched, set_task}
use os_learning.Sync.{Lock, lock_acquire, lock_release}
use os_learning.Memory.{VirtualAddr, pf_user, addr_v2p, entry_for, page_size}
use os_learning.Memory.Pages.{Spaces, get_kernel_pages, get_a_page}

-- `spaces` holds the memory and the scheduler's state. `main_thread` is 0 while it is NULL.
pub record Kernel : Type 0 where
  pub spaces : Spaces
  pub all_list : List Tid
  pub main_thread : Tid
  pub next_pid : ℕ
  pub pid_lock : Lock
  pub self_kstack : Tid → ℕ
  pub names : Tid → List ℕ
  pub user_vaddr : Tid → VirtualAddr

abbrev pub set_sched : Sched → Kernel → Kernel
set_sched s st = record st { spaces = record st.spaces { sched = s } }

-- `pid_t` has 16 bits. The answer is `none` where the caller has blocked for the lock.
unfoldable pub allocate_pid : Kernel → Run (Option ℕ × Kernel)
allocate_pid st = do
  (passed, lock, s) ← lock_acquire st.pid_lock st.spaces.sched
  elim passed [
    | false ↦ ok (none, set_sched s (record st { pid_lock = lock }))
    | true ↦ do
      let pid = (st.next_pid + 1) % 2 ^ 16
      (lock', s') ← lock_release lock s
      ok (some pid, set_sched s' (record st { pid_lock = lock'; next_pid = pid }))
  ]

-- `TASK_READY` unless it is the main thread
unfoldable pub new_task : (pthread pid prio main_thread : ℕ) → Task
new_task pthread pid prio main_thread = record {
  pid = pid;
  status = if pthread == main_thread then task_running else task_ready;
  priority = prio % 2 ^ 8;
  ticks = prio % 2 ^ 8;
  elapsed_ticks = 0;
  pgdir = 0;
  stack_magic = stack_magic_value;
}

-- A name and its final 0 must fit 16 bytes. `false` where the caller has blocked.
unfoldable pub init_thread :
    (pthread : Tid) (name : List ℕ) (prio : ℕ) → Kernel → Run (Bool × Kernel)
init_thread pthread name prio st =
    if ltb (length name) 16
    then (do
      (pid, st') ← allocate_pid st
      elim pid [
        | none ↦ ok (false, st')
        | some pid ↦ ok (
          true,
          record (set_sched
              (set_task st'.spaces.sched pthread (new_task pthread pid prio st.main_thread)) st') {
                self_kstack = update st'.self_kstack pthread ((pthread + page_size) % 2 ^ 32);
                names = update st'.names pthread name;
              },
        )
      ])
    else fault

-- `self_kstack` is a pointer to words: the sizes of `struct intr_stack` and of `struct thread_stack`, 76 and 32, are
-- subtracted as counts of words.
abbrev pub stack_room : ℕ
stack_room = 4 * 76 + 4 * 32

-- the words of a `struct thread_stack`, less the return address that nobody reads
unfoldable pub write_stack : (kstack kernel_thread function func_arg : ℕ) → (ℕ → ℕ) → ℕ → ℕ
write_stack kstack kernel_thread function func_arg word a =
    if a == kstack || a == kstack + 4 || a == kstack + 8 || a == kstack + 12
    then 0
    else if a == kstack + 16
    then kernel_thread
    else if a == kstack + 24
    then function
    else if a == kstack + 28
    then func_arg
    else word a

-- `kernel_thread` is the address of that function.
unfoldable pub thread_create :
    (kernel_thread : ℕ) (pthread : Tid) (function func_arg : ℕ) → Kernel → Kernel
unfolding write_stack
thread_create kernel_thread pthread function func_arg st =
    let kstack = (st.self_kstack pthread + 2 ^ 32 - stack_room) % 2 ^ 32 in
    let m = st.spaces.memory in
    record st {
      self_kstack = update st.self_kstack pthread kstack;
      spaces = record st.spaces {
        memory = record m { word = write_stack kstack kernel_thread function func_arg m.word };
      };
    }

-- the ends of `thread_start` and `process_execute`
unfoldable pub enlist : Tid → Kernel → Run Kernel
enlist thread st = do
  let s = st.spaces.sched
  assert (not (has thread s.ready))
  assert (not (has thread st.all_list))
  ok (record (set_sched (record s { ready = s.ready ++ (thread ∷ []) }) st) {
    all_list = st.all_list ++ (thread ∷ []);
  })

-- `none` where the caller has blocked
unfoldable pub thread_start :
    (kernel_thread : ℕ) (name : List ℕ) (prio function func_arg : ℕ)
    → Kernel
    → Run (Option Tid × Kernel)
thread_start kernel_thread name prio function func_arg st = do
  (page, spaces) ← get_kernel_pages 1 st.spaces
  let st1 = record st { spaces = spaces }
  elim page [
    | none ↦ ok (none, st1)
    | some thread ↦ do
      (passed, st2) ← init_thread thread name prio st1
      if passed
          then (do
            st3 ← enlist thread (thread_create kernel_thread thread function func_arg st2)
            ok (some thread, st3))
          else ok (none, st2)
  ]

-- "main"
abbrev pub main_name : List ℕ
main_name = 109 ∷ 97 ∷ 105 ∷ 110 ∷ []

unfoldable pub make_main_thread : Kernel → Run (Bool × Kernel)
make_main_thread st = do
  let main = st.spaces.sched.running
  (passed, st1) ← init_thread main main_name 1 (record st { main_thread = main })
  if passed
      then (do
        assert (not (has main st1.all_list))
        ok (true, record st1 { all_list = st1.all_list ++ (main ∷ []) }))
      else ok (false, st1)

-- `memcpy` of the kernel's 256 entries from the directory in use, and the last entry, which leads to the directory
unfoldable pub copy_entries : (dir : ℕ) → (ℕ → ℕ) → ℕ → ℕ
copy_entries dir word a =
    if leb (dir + 0x300 * 4) a && ltb a (dir + 0x300 * 4 + 1024)
    then word (a - (dir + 0x300 * 4) + (0xfffff000 + 0x300 * 4))
    else word a

unfoldable pub create_page_dir : Spaces → Run (Option ℕ × Spaces)
unfolding copy_entries
create_page_dir st = do
  (page, st') ← get_kernel_pages 1 st
  elim page [
    | none ↦ ok (none, st')
    | some dir ↦
        let word = copy_entries dir st'.memory.word in
        let entry = entry_for (addr_v2p word dir) in
        ok (
          some dir,
          record st' { memory = record st'.memory { word = update word (dir + 1023 * 4) entry } },
        )
  ]

abbrev pub user_vaddr_start : ℕ
user_vaddr_start = 0x8048000

-- The bytes that the bitmap gets are those of fresh pages, and `bitmap_init` clears them again.
unfoldable pub create_user_vaddr_bitmap : (user_prog : Tid) → Kernel → Run (Bool × Kernel)
create_user_vaddr_bitmap user_prog st = do
  let bytes = (0xc0000000 - user_vaddr_start) / page_size / 8
  (bits, spaces) ← get_kernel_pages ((bytes + page_size - 1) / page_size) st.spaces
  let st1 = record st { spaces = spaces }
  elim bits [
    | none ↦ ok (false, st1)
    | some address ↦ do
      btmp ← bitmap_init (record { btmp_bytes_len = bytes; bits = replicate bytes 0 })
      let pool : VirtualAddr = record { vaddr_bitmap = btmp; vaddr_start = user_vaddr_start }
      ok (true, record st1 { user_vaddr = update st1.user_vaddr user_prog pool })
  ]

abbrev pub default_prio : ℕ
default_prio = 31

-- `thread->pgdir`
abbrev pub set_pgdir : Tid → ℕ → Kernel → Kernel
set_pgdir t dir st =
    set_sched (set_task st.spaces.sched t (record (st.spaces.sched.tasks t) { pgdir = dir })) st

-- `start_process` is the address of that function. `block_desc_init` gives each process the same descriptors. `none` where
-- the caller has blocked.
unfoldable pub process_execute :
    (kernel_thread start_process filename : ℕ) (name : List ℕ) → Kernel → Run (Option Tid × Kernel)
unfolding intr_disable intr_set_status
process_execute kernel_thread start_process filename name st = do
  (page, spaces) ← get_kernel_pages 1 st.spaces
  elim page [
    | none ↦ ok (none, record st { spaces = spaces })
    | some thread ↦ do
      (passed, st2) ← init_thread thread name default_prio (record st { spaces = spaces })
      elim passed [
        | false ↦ ok (none, st2)
        | true ↦ do
          (made, st3) ← create_user_vaddr_bitmap thread st2
          elim made [
            | false ↦ ok (none, st3)
            | true ↦ do
              let st4 = thread_create kernel_thread thread start_process filename st3
              (dir, spaces') ← create_page_dir st4.spaces
              elim dir [
                | none ↦ ok (none, record st4 { spaces = spaces' })
                | some pgdir ↦ do
                  let st5 = set_pgdir thread pgdir (record st4 { spaces = spaces' })
                  let (old_status, off) = intr_disable st5.spaces.sched.intr
                  st6 ← enlist thread (set_sched (record st5.spaces.sched { intr = off }) st5)
                  let s = st6.spaces.sched
                  ok (
                    some thread,
                    set_sched (record s { intr = (intr_set_status old_status s.intr).1 }) st6,
                  )
              ]
          ]
      ]
  ]

abbrev pub selector_u_code : ℕ
selector_u_code = 5 * 8 + 0 * 4 + 3

abbrev pub selector_u_data : ℕ
selector_u_data = 6 * 8 + 0 * 4 + 3

-- The members of `struct intr_stack` that `start_process` writes; `general` stands for the eight general registers.
pub record IntrStack : Type 0 where
  pub general : ℕ
  pub gs : ℕ
  pub fs : ℕ
  pub es : ℕ
  pub ds : ℕ
  pub eip : ℕ
  pub cs : ℕ
  pub eflags : ℕ
  pub esp : ℕ
  pub ss : ℕ

abbrev pub user_stack3_vaddr : ℕ
user_stack3_vaddr = 0xc0000000 - 0x1000

-- The frame that `intr_exit` pops, and the place of it. `none` where the caller has blocked for its stack's page.
unfoldable pub start_process : (filename : ℕ) → Kernel → Run (Option (ℕ × IntrStack) × Kernel)
start_process filename st = do
  let cur = st.spaces.sched.running
  let kstack = (st.self_kstack cur + 4 * 32) % 2 ^ 32
  let st1 = record st { self_kstack = update st.self_kstack cur kstack }
  (page, spaces) ← get_a_page pf_user user_stack3_vaddr st1.spaces
  let st2 = record st1 { spaces = spaces }
  elim page [
    | none ↦ ok (none, st2)
    | some stack ↦
        let frame : IntrStack = record {
          general = 0;
          gs = 0;
          fs = selector_u_data;
          es = selector_u_data;
          ds = selector_u_data;
          eip = filename;
          cs = selector_u_code;
          eflags = bit_or (bit_or 0 (2 ^ 1)) (2 ^ 9);
          esp = (stack + page_size) % 2 ^ 32;
          ss = selector_u_data;
        } in
        ok (some (kstack, frame), st2)
  ]
