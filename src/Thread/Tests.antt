-- ===== src/Thread/Tests.antt =====
-- The scheduler on four tasks: 1 runs, 2 and 3 are ready, 4 has blocked.
use os_learning.Base.{ℕ, ◌+◌, ◌-◌, ◌*◌, ◌≡◌, refl, [], ◌∷◌, arith, ◌==◌, if◌then◌else◌}
use os_learning.Base.Run.{Returns}
use os_learning.Interrupt.{intr_off}
use os_learning.Thread.{
  TaskStatus, task_running, task_ready, task_blocked, task_died, Task, Sched, stack_magic_value,
  status_of, schedule, intr_timer_handler, IsValid,
}
use os_learning.Thread.Schedule.{Turned, schedules, schedule-Turned, schedules-running}
use os_learning.Thread.Sleep.{ticks_to_sleep, mtime_sleep, ticks_to_sleep-ends, mtime_sleep-panic}
use os_learning.Base.Run.{ok, panic}
use os_learning.Base.{◌^◌, ◌%◌}
use os_learning.Thread.Timer.{Ticked, timer-Ticked}

abbrev status : ℕ → TaskStatus
status t =
    if t == 1
    then task_running
    else if t == 2
    then task_ready
    else if t == 3
    then task_ready
    else if t == 4
    then task_blocked
    else task_died

-- each with a page directory of its own but the first
abbrev task : ℕ → Task
task t = record {
  pid = t;
  status = status t;
  priority = 31;
  ticks = 5;
  elapsed_ticks = 0;
  pgdir = if t == 1 then 0 else 4096 * t;
  stack_magic = stack_magic_value;
}

abbrev pub four_tasks : Sched
four_tasks = record {
  tasks = task;
  ready = 2 ∷ 3 ∷ [];
  running = 1;
  intr = intr_off;
  addr_v2p = λ a. a + 4096;
  cr3 = 0x100000;
  esp0 = 0;
  ticks = 7;
}

pub four_tasks-IsValid : IsValid four_tasks
four_tasks-IsValid = record {
  runs = refl;
  alone = λ t e. ground arith;
  queued = λ t e. ground arith;
  ready_in = λ t e. ground arith;
  distinct = (refl, (refl, tt));
}

-- one task alone
abbrev one_task : Sched
one_task = record four_tasks {
  tasks = λ t. record (task t) { status = if t == 1 then task_running else task_died };
  ready = [];
}

one_task-IsValid : IsValid one_task
one_task-IsValid = record {
  runs = refl;
  alone = λ t e. ground arith;
  queued = λ t e. ground arith;
  ready_in = λ t e. ground arith;
  distinct = tt;
}

schedule-Turned_example : Returns (Turned four_tasks) (schedule four_tasks)
schedule-Turned_example = schedule-Turned four_tasks four_tasks-IsValid refl

schedules-running_example :
    Returns (λ s'. (s'.running ≡ 3) × (status_of s' 3 ≡ task_running)) (schedules 2 four_tasks)
schedules-running_example =
    schedules-running (1 ∷ 2 ∷ []) 3 [] four_tasks four_tasks-IsValid refl refl

timer-Ticked_example : Returns (Ticked four_tasks) (intr_timer_handler four_tasks)
timer-Ticked_example = timer-Ticked four_tasks four_tasks-IsValid refl refl

-- the counter is about to wrap when the sleep starts
ticks_to_sleep-ends_example :
    ticks_to_sleep 4 (2 ^ 32 - 1) (λ j. (2 ^ 32 - 1 + j) % 2 ^ 32) 3 ≡ ok 3
ticks_to_sleep-ends_example =
    ticks_to_sleep-ends 3 4 (2 ^ 32 - 1) 3 (λ j. (2 ^ 32 - 1 + j) % 2 ^ 32) (λ j. j) (omega arith)
      (omega arith) (λ j. refl) (λ j less. less) (omega arith) (omega arith)

mtime_sleep-panic_example : mtime_sleep 4 7 (λ j. 7 + j) 10 ≡ panic
mtime_sleep-panic_example = mtime_sleep-panic 4 7 (λ j. 7 + j) 10 (omega arith)
