-- ===== src/Contention/System.antt =====
-- Threads that contend for one lock. A step is what the running thread does between two points at which
-- the timer may take the processor from it, and the timer's interrupt itself.
use os_learning.Base.{◌+◌, ◌%◌, ◌^◌, Bool, true, false, if◌then◌else◌, update}
use os_learning.Base.Run.{Run, ok, ◌>>=◌}
use os_learning.Interrupt.{IntrStatus, intr_off, intr_on, intr_disable}
use os_learning.Thread.{Tid, Sched, intr_timer_handler}
use os_learning.Sync.{
  Semaphore, Lock, sema_down, sema_resume, sema_up, is_holder, lock_take, lock_drop,
}

-- Where a thread stands: outside `lock_acquire` and `lock_release` without the lock; in `sema_down`, stopped
-- or woken; behind `sema_down`, before it is the holder; with the lock; before `sema_up`.
pub data Point : Type 0 where
  outside waiting entered holding leaving : Point

-- `saved` is the `old_status` of `sema_down` on the stack of a thread that waits.
pub record System : Type 0 where
  pub lock : Lock
  pub sched : Sched
  pub point : Tid → Point
  pub saved : Tid → IntrStatus

-- The flag with which a thread goes on: off in `sema_down`, on elsewhere, where only the interrupt that
-- came with the flag on has stopped it.
abbrev pub flag_at : Point → IntrStatus
flag_at waiting = intr_off
flag_at _ = intr_on

abbrev pub place : System → Point
place y = y.point y.sched.running

abbrev pub move_to : Point → System → System
move_to p y = record y { point = update y.point y.sched.running p }

-- After `sema_down` or its resumption: `old` is the status that it has saved. Where the thread has
-- blocked, the one that runs is resumed at its own point.
abbrev pub after_down : System → IntrStatus → Bool × Semaphore × Sched → System
after_down y old (true, psema, s) = record (move_to entered y) {
  lock = record y.lock { semaphore = psema };
  sched = s;
}
after_down y old (false, psema, s) = record (move_to waiting y) {
  lock = record y.lock { semaphore = psema };
  sched = record s { intr = flag_at (y.point s.running) };
  saved = update y.saved y.sched.running old;
}

-- `lock_acquire`, up to the end of `sema_down` or its block
unfoldable pub acquire : System → Run System
unfolding intr_disable
acquire y =
    if is_holder y.lock y.sched.running
    then ok (record y {
      lock = record y.lock { holder_repeat_nr = (y.lock.holder_repeat_nr + 1) % 2 ^ 32 };
    })
    else (do
      r ← sema_down y.lock.semaphore y.sched
      ok (after_down y (intr_disable y.sched.intr).0 r))

-- a thread that has waited is resumed
unfoldable pub resume : System → Run System
resume y = do
  r ← sema_resume (y.saved y.sched.running) y.lock.semaphore y.sched
  ok (after_down y (y.saved y.sched.running) r)

-- the rest of `lock_acquire`
unfoldable pub take : System → Run System
take y = do lock ← lock_take y.sched.running y.lock; ok (record (move_to holding y) { lock = lock })

-- `lock_release`, up to `sema_up`
unfoldable pub release : System → Run System
release y = do
  (up, lock) ← lock_drop y.sched.running y.lock
  let y' = if up then move_to leaving y else y
  ok (record y' { lock = lock })

-- the rest of `lock_release`
unfoldable pub signal : System → Run System
signal y = do
  (psema, s) ← sema_up y.lock.semaphore y.sched
  ok (record (move_to outside y) { lock = record y.lock { semaphore = psema }; sched = s })

-- The timer's interrupt: the processor turns the flag off before the handler runs.
unfoldable pub preempt : System → Run System
preempt y = do
  s ← intr_timer_handler (record y.sched { intr = intr_off })
  ok (record y { sched = record s { intr = flag_at (y.point s.running) } })
