-- ===== src/Process/Threads.antt =====
-- `thread_start`: a new thread is ready behind the others, and its first switch leads to its function.
use os_learning.Base.{
  ℕ, ◌+◌, ◌-◌, ◌*◌, ◌%◌, ◌^◌, ◌<◌, ◌≡◌, ◌≢◌, refl, sym, ap, ◌∙◌, inl, true, false, ◌||◌, Option,
  some, List, [], ◌∷◌, ◌++◌, arith, ltb, ◌==◌, has, has-append, Distinct-of_parts, length, update,
}
use mathlib.Core.Path.{subst}
use os_learning.Base.Run.{ok, Returns}
use os_learning.Bitmap.{is_free}
use os_learning.Thread.{Tid, task_ready, Task, Sched, set_task, IsValid}
use os_learning.Sync.Locks.{IsFree, lock_acquire-free, lock_acquire-release}
use os_learning.Memory.Pages.{Spaces, get_kernel_pages}
use os_learning.Memory.Pages.Taking.{at}
use os_learning.Memory.Pages.Heap.{CanTake}
use os_learning.Memory.Pages.Kernel.{Zeroed, get_kernel_pages-Zeroed}
use os_learning.Process.Defs.{
  Kernel, allocate_pid, new_task, init_thread, stack_room, write_stack, thread_create, enlist,
  thread_start,
}

-- with the lock free, the next number is given
allocate_pid-eq :
    (st : Kernel)
    → IsFree st.pid_lock
    → allocate_pid st
      ≡ ok (some ((st.next_pid + 1) % 2 ^ 16), record st { next_pid = (st.next_pid + 1) % 2 ^ 16 })
unfolding allocate_pid
allocate_pid-eq st free =
    let takes = lock_acquire-free st.pid_lock st.spaces.sched free in
    let gives =
      rw takes at (lock_acquire-release st.pid_lock st.spaces.sched 0 (inl free) (omega arith)) in
    rw (takes, gives) refl

-- a ready task at the end of the queue
module _ (s : Sched) (v : IsValid s) (t : Tid) (task : Task) (new : has t s.ready ≡ false)
    (other : t ≢ s.running) (ready : task.status ≡ task_ready) where
  abbrev pub queued : Sched
  queued = record (set_task s t task) { ready = s.ready ++ (t ∷ []) }

  has-queued : (u : Tid) → has u queued.ready ≡ (has u s.ready || (u == t))
  has-queued u = ground (arith, has-append u s.ready (t ∷ []))

  pub queued-IsValid : IsValid queued
  queued-IsValid = record {
    runs = ground (arith, v.runs, other);
    alone = λ u e. ground (arith, v.alone u, ready, e);
    queued = λ u i. ground (arith, has-queued u, v.queued u, ready, i);
    ready_in = λ u e. ground (arith, has-queued u, v.ready_in u, e);
    distinct =
        Distinct-of_parts s.ready (t ∷ []) v.distinct (refl, tt) (λ a i. ground (arith, new));
  }

-- The new thread: its task, its place in the lists, and the stack that `switch_to` will use first.
pub record Started (kernel_thread prio function func_arg : ℕ) (name : List ℕ) (st : Kernel)
    (r : Option Tid × Kernel) : Type 0 where
  pub thread : Tid
  pub answer : r.0 ≡ some thread
  pub valid : IsValid r.1.spaces.sched
  pub pid : (r.1.spaces.sched.tasks thread).pid ≡ (st.next_pid + 1) % 2 ^ 16
  pub status : (r.1.spaces.sched.tasks thread).status ≡ task_ready
  pub priority : (r.1.spaces.sched.tasks thread).priority ≡ prio % 2 ^ 8
  pub ticks : (r.1.spaces.sched.tasks thread).ticks ≡ prio % 2 ^ 8
  pub elapsed_ticks : (r.1.spaces.sched.tasks thread).elapsed_ticks ≡ 0
  pub pgdir : (r.1.spaces.sched.tasks thread).pgdir ≡ 0
  pub stack_magic : (r.1.spaces.sched.tasks thread).stack_magic ≡ 0x19980906
  pub others : (u : Tid) → u ≢ thread → r.1.spaces.sched.tasks u ≡ st.spaces.sched.tasks u
  pub ready : r.1.spaces.sched.ready ≡ st.spaces.sched.ready ++ (thread ∷ [])
  pub all_list : r.1.all_list ≡ st.all_list ++ (thread ∷ [])
  pub runs : r.1.spaces.sched.running ≡ st.spaces.sched.running
  pub named : r.1.names thread ≡ name
  pub kstack : r.1.self_kstack thread ≡ thread + 4096 - stack_room
  pub eip : r.1.spaces.memory.word (thread + 4096 - stack_room + 16) ≡ kernel_thread
  pub function_at : r.1.spaces.memory.word (thread + 4096 - stack_room + 24) ≡ function
  pub func_arg_at : r.1.spaces.memory.word (thread + 4096 - stack_room + 28) ≡ func_arg

-- No task stands on a page of the heap that is free.
pub record AreOnTakenPages (st : Kernel) : Type 0 where
  pub apart :
      (j : ℕ)
      → j < 8 * st.spaces.kernel_vaddr.vaddr_bitmap.btmp_bytes_len
      → is_free st.spaces.kernel_vaddr.vaddr_bitmap j ≡ true
      → (has (at st.spaces.kernel_vaddr.vaddr_start j) st.spaces.sched.ready ≡ false)
        × (at st.spaces.kernel_vaddr.vaddr_start j ≢ st.spaces.sched.running)
        × (has (at st.spaces.kernel_vaddr.vaddr_start j) st.all_list ≡ false)
        × (at st.spaces.kernel_vaddr.vaddr_start j ≢ st.main_thread)

module _ (kernel_thread prio function func_arg : ℕ) (name : List ℕ) (st : Kernel)
    (short : length name < 16) (v : IsValid st.spaces.sched) (pid_free : IsFree st.pid_lock)
    (apart : AreOnTakenPages st) where
  module _ (answer : Option ℕ) (sp : Spaces) (z : Zeroed 1 st.spaces (answer, sp)) where
    abbrev t : Tid
    t = z.vaddr

    fresh :
        (has t st.spaces.sched.ready ≡ false)
        × (t ≢ st.spaces.sched.running)
        × (has t st.all_list ≡ false)
        × (t ≢ st.main_thread)
    fresh = rw z.at_place (apart.apart z.place z.in_heap z.was_free)

    abbrev task : Task
    task = new_task t ((st.next_pid + 1) % 2 ^ 16) prio st.main_thread

    is_ready : task.status ≡ task_ready
    unfolding new_task
    is_ready = ground (arith, fresh.3)

    not_queued : has t sp.sched.ready ≡ false
    not_queued = ap (λ s. has t s.ready) z.same_sched ∙ fresh.0

    not_running : t ≢ sp.sched.running
    not_running e = absurd (fresh.1 (e ∙ ap (λ s. s.running) z.same_sched))

    abbrev inited : Kernel
    inited = record st {
      spaces = record sp { sched = set_task sp.sched t task };
      next_pid = (st.next_pid + 1) % 2 ^ 16;
      self_kstack = update st.self_kstack t ((t + 4096) % 2 ^ 32);
      names = update st.names t name;
    }

    init_thread-eq : init_thread t name prio (record st { spaces = sp }) ≡ ok (true, inited)
    unfolding init_thread
    init_thread-eq =
        let fits : ltb (length name) 16 ≡ true = ground (arith, short) in
        rw (fits, allocate_pid-eq (record st { spaces = sp }) pid_free) refl

    abbrev created : Kernel
    created = thread_create kernel_thread t function func_arg inited

    abbrev final : Kernel
    final = record created {
      spaces = record created.spaces {
        sched = record created.spaces.sched { ready = created.spaces.sched.ready ++ (t ∷ []) };
      };
      all_list = created.all_list ++ (t ∷ []);
    }

    enlist-eq : enlist t created ≡ ok final
    unfolding enlist thread_create
    enlist-eq = rw (not_queued, fresh.2) refl

    kstack-eq :
        (update st.self_kstack t ((t + 4096) % 2 ^ 32) t + 2 ^ 32 - stack_room) % 2 ^ 32
        ≡ t + 4096 - stack_room
    kstack-eq = let self : (t == t) ≡ true = ground arith in rw self (omega (arith, z.low))

    here : final.spaces.sched.tasks t ≡ task
    unfolding thread_create
    here = ground arith

    final-Started : Started kernel_thread prio function func_arg name st (some t, final)
    unfolding thread_create write_stack new_task
    final-Started = record {
      thread = t;
      answer = refl;
      valid =
          queued-IsValid sp.sched (subst IsValid (sym z.same_sched) v) t task not_queued not_running
            is_ready;
      pid = ap (λ k. k.pid) here;
      status = ap (λ k. k.status) here ∙ is_ready;
      priority = ap (λ k. k.priority) here;
      ticks = ap (λ k. k.ticks) here;
      elapsed_ticks = ap (λ k. k.elapsed_ticks) here;
      pgdir = ap (λ k. k.pgdir) here;
      stack_magic = ap (λ k. k.stack_magic) here;
      others = λ u ne. ground (arith, ne, ap (λ s. s.tasks u) z.same_sched);
      ready = ap (λ s. s.ready ++ (t ∷ [])) z.same_sched;
      all_list = refl;
      runs = ap (λ s. s.running) z.same_sched;
      named = ground arith;
      kstack = rw kstack-eq (ground arith);
      eip = rw kstack-eq (ground arith);
      function_at = rw kstack-eq (ground arith);
      func_arg_at = rw kstack-eq (ground arith);
    }

  -- From a valid scheduler's state, with the kernel's lock of pages and the lock of pids free, one
  -- page that can be taken, no task on a free page of the heap, and a name below 16 characters,
  -- `thread_start` returns a new thread: its task has the next pid of 16 bits, the low 8 bits of
  -- the priority as its priority and its slice, no ticks so far, no page directory and the mark of
  -- its stack, and is ready behind the others and in the list of all tasks; the state is valid and
  -- no other task has changed; its stack lies in its own page, and the words there that the first
  -- switch uses are `kernel_thread`, the function and its argument.
  pub thread_start-Started :
      IsFree st.spaces.kernel_lock
      → CanTake 1 st.spaces.kernel_vaddr st.spaces.memory
      → Returns
          (Started kernel_thread prio function func_arg name st)
          (thread_start kernel_thread name prio function func_arg st)
  unfolding thread_start
  thread_start-Started free c =
      let ((answer, sp), run, z) = get_kernel_pages-Zeroed 1 st.spaces free c in
      let given : get_kernel_pages 1 st.spaces ≡ ok (some z.vaddr, sp) =
        run ∙ ap (λ a. ok (a, sp)) z.answer in
      (
        (some z.vaddr, final answer sp z),
        rw (given, init_thread-eq answer sp z, enlist-eq answer sp z) refl,
        final-Started answer sp z,
      )
