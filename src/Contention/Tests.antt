-- ===== src/Contention/Tests.antt =====
-- Three threads at one lock: the first holds it, the second waits, the third runs.
use os_learning.Base.{◌≡◌, ◌≢◌, ◌⊎◌, inl, refl, true, some, has}
use os_learning.Base.Run.{ok}
use os_learning.Interrupt.{intr_on, intr_disable, intr_set_status}
use os_learning.Sync.{lock_init, sema_down, down_round, lock_take}
use os_learning.Thread.{
  Tid, Sched, IsValid, process_activate, put_back, run_next, schedule, thread_block,
  intr_timer_handler,
}
use os_learning.Thread.Schedule.{turn}
use os_learning.Thread.Tests.{four_tasks, four_tasks-IsValid}
use os_learning.Contention.System.{outside, holding, waiting, System, place, acquire, take, preempt}
use os_learning.Contention.Invariant.{is_inner, waiters}
use os_learning.Contention.Exclusion.{
  start, acquires, takes, interrupted, execute, Reach, begins, goes, Reach-goes, mutual_exclusion,
  no_lost_wakeup,
}

-- every slice is used up
abbrev pub tasks : Sched
tasks = record four_tasks { intr = intr_on; tasks = λ t. record (four_tasks.tasks t) { ticks = 0 } }

pub tasks-IsValid : IsValid tasks
tasks-IsValid = record {
  runs = refl;
  alone = four_tasks-IsValid.alone;
  queued = four_tasks-IsValid.queued;
  ready_in = four_tasks-IsValid.ready_in;
  distinct = four_tasks-IsValid.distinct;
}

pub holding_differs : holding ≢ waiting
holding_differs e = cc

-- 1 has the lock, 2 has asked for it, and 3 runs
reached :
    (y : System) × Reach tasks y
    × (place y ≡ outside)
    × (y.point 1 ≡ holding)
    × (has 2 (waiters y) ≡ true)
unfolding start acquire take preempt intr_disable intr_set_status lock_init sema_down down_round
    lock_take process_activate put_back run_next schedule thread_block intr_timer_handler
reached =
    let r1 = goes begins acquires (inl refl) refl in
    let r2 = goes r1 takes refl refl in
    let r3 = goes r2 interrupted holding_differs refl in
    let r4 = goes r3 acquires (inl refl) refl in (_, r4, refl, refl, refl)

Reach-goes_example : (y : System) × (execute acquires reached.0 ≡ ok y) × Reach tasks y
Reach-goes_example =
    Reach-goes tasks tasks-IsValid refl (λ t. refl) reached.0 acquires reached.1 (inl reached.2)

abbrev first : Tid
first = 1

mutual_exclusion_example : (first ≡ first) × (reached.0.lock.holder ≡ some first)
mutual_exclusion_example =
    mutual_exclusion tasks tasks-IsValid refl (λ t. refl) reached.0 reached.1 first first reached.3
      (rw reached.3 refl)

no_lost_wakeup_example :
    (t : Tid) × (t ≢ 2)
    × (has t (turn reached.0.sched) ≡ true)
    × ((is_inner (reached.0.point t) ≡ true) ⊎ (reached.0.point t ≡ waiting))
no_lost_wakeup_example =
    no_lost_wakeup tasks tasks-IsValid refl (λ t. refl) reached.0 reached.1 2 reached.4
