-- ===== src/Thread/Defs.antt =====
-- The functions of thread/thread.c and of the timer's handler. A task is named by the address of its
-- `struct task_struct`. A queue of `general_tag`s is the list of its tasks, which lib/kernel/list.c
-- implements. After `switch_to` the state is that of the task that runs: what follows the switch
-- in `schedule`'s callers runs when they are resumed.
use os_learning.Base.{
  ℕ, ◌+◌, ◌-◌, ◌%◌, ◌^◌, ◌≡◌, Bool, true, false, not, List, [], ◌∷◌, ◌++◌, ◌==◌, if◌then◌else◌, has,
  Distinct, update,
}
use os_learning.Base.Run.{Run, ok, panic, ◌>>=◌, ◌>>◌, assert}
use os_learning.Interrupt.{IntrStatus, intr_off, intr_on, intr_disable, intr_set_status}

abbrev pub Tid : Type 0
Tid = ℕ

-- `enum task_status`
pub data TaskStatus : Type 0 where
  task_running task_ready task_blocked task_waiting task_hanging task_died : TaskStatus

-- The fields of `struct task_struct` that the scheduler and the timer read and write.
pub record Task : Type 0 where
  pub pid : ℕ
  pub status : TaskStatus
  pub priority : ℕ
  pub ticks : ℕ
  pub elapsed_ticks : ℕ
  pub pgdir : ℕ
  pub stack_magic : ℕ

abbrev pub stack_magic_value : ℕ
stack_magic_value = 0x19980906

-- `running` is what `running_thread()` finds on the stack in use. `cr3` and `esp0` are the register and
-- the field of the TSS that `process_activate` writes; `addr_v2p` is what that function of
-- kernel/memory.c reads off the page tables; `ticks` is the global of device/timer.c.
pub record Sched : Type 0 where
  pub tasks : Tid → Task
  pub ready : List Tid
  pub running : Tid
  pub intr : IntrStatus
  pub addr_v2p : ℕ → ℕ
  pub cr3 : ℕ
  pub esp0 : ℕ
  pub ticks : ℕ

abbrev pub status_of : Sched → Tid → TaskStatus
status_of s t = (s.tasks t).status

abbrev pub set_task : Sched → Tid → Task → Sched
set_task s t task = record s { tasks = update s.tasks t task }

abbrev pub set_status : Sched → Tid → TaskStatus → Sched
set_status s t status = set_task s t (record (s.tasks t) { status = status })

abbrev pub is_off : IntrStatus → Bool
is_off intr_off = true
is_off intr_on = false

abbrev pub is_running : TaskStatus → Bool
is_running task_running = true
is_running _ = false

abbrev pub is_ready : TaskStatus → Bool
is_ready task_ready = true
is_ready _ = false

-- The statuses that `thread_block` takes and `thread_unblock` ends.
abbrev pub is_blocked : TaskStatus → Bool
is_blocked task_blocked = true
is_blocked task_waiting = true
is_blocked task_hanging = true
is_blocked _ = false

-- A process has its own page directory and kernel stack; a kernel thread runs on the kernel's
-- directory, at 0x100000.
unfoldable pub process_activate : Tid → Sched → Sched
process_activate t s =
    let pgdir = (s.tasks t).pgdir in
    if pgdir == 0
    then record s { cr3 = 0x100000 }
    else record s { cr3 = s.addr_v2p pgdir; esp0 = (t + 4096) % 2 ^ 32 }

-- The first part of `schedule`: a task that still runs goes to the end of the queue with a new slice.
unfoldable pub put_back : Sched → Run Sched
put_back s =
    let cur = s.running in
    if is_running (status_of s cur)
    then (do
      assert (not (has cur s.ready))
      let task = record (s.tasks cur) { ticks = (s.tasks cur).priority; status = task_ready }
      ok (record (set_task s cur task) { ready = s.ready ++ (cur ∷ []) }))
    else ok s

-- The second part: the head of the queue runs. The ASSERT fails on an empty queue.
unfoldable pub run_next : (ready : List Tid) → Sched → Run Sched
run_next [] s = panic
run_next (next ∷ rest) s =
    let s1 = set_status (record s { ready = rest }) next task_running in
    ok (record (process_activate next s1) { running = next })

unfoldable pub schedule : Sched → Run Sched
schedule s = do assert (is_off s.intr); s1 ← put_back s; run_next s1.ready s1

-- Up to the switch: the old status waits on the blocked task's stack.
unfoldable pub thread_block : TaskStatus → Sched → Run Sched
unfolding schedule intr_disable
thread_block stat s = do
  assert (is_blocked stat)
  let off = (intr_disable s.intr).1
  schedule (set_status (record s { intr = off }) s.running stat)

-- The test for READY behind the ASSERT never passes; the second look into the queue repeats the ASSERT.
unfoldable pub thread_unblock : Tid → Sched → Run Sched
unfolding intr_disable intr_set_status
thread_unblock t s = do
  let (old_status, off) = intr_disable s.intr
  let s1 = record s { intr = off }
  assert (is_blocked (status_of s1 t))
  s2 ← if is_ready (status_of s1 t) then ok s1 else (do
    assert (not (has t s1.ready))
    ok (set_status (record s1 { ready = t ∷ s1.ready }) t task_ready))
  ok (record s2 { intr = (intr_set_status old_status s2.intr).1 })

-- `intr_timer_handler` of device/timer.c, which runs with interrupts off
unfoldable pub intr_timer_handler : Sched → Run Sched
intr_timer_handler s = do
  let cur = s.running
  let task = s.tasks cur
  assert (task.stack_magic == stack_magic_value)
  let counted = record task { elapsed_ticks = (task.elapsed_ticks + 1) % 2 ^ 32 }
  let s1 = record (set_task s cur counted) { ticks = (s.ticks + 1) % 2 ^ 32 }
  let switched = schedule s1
  if counted.ticks == 0
      then switched
      else ok (set_task s1 cur (record counted { ticks = counted.ticks - 1 }))

-- The queue and the statuses agree, and one task runs.
pub record IsValid (s : Sched) : Type 0 where
  pub runs : status_of s s.running ≡ task_running
  pub alone : (t : Tid) → status_of s t ≡ task_running → t ≡ s.running
  pub queued : (t : Tid) → has t s.ready ≡ true → status_of s t ≡ task_ready
  pub ready_in : (t : Tid) → status_of s t ≡ task_ready → has t s.ready ≡ true
  pub distinct : Distinct s.ready
