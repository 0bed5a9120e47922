-- ===== src/Sync/Defs.antt =====
-- The functions of thread/sync.c. A thread that blocks in `sema_down` goes on, when it is resumed,
-- at the test of the `while` loop: `sema_down` and `sema_resume` are the two ways into that loop.
use os_learning.Base.{
  ℕ, ◌+◌, ◌-◌, ◌%◌, ◌^◌, Bool, true, false, not, Option, none, some, List, [], ◌∷◌, ◌++◌, ltb, ◌==◌,
  if◌then◌else◌, has,
}
use os_learning.Base.Run.{Run, ok, ◌>>=◌, ◌>>◌, assert}
use os_learning.Interrupt.{IntrStatus, intr_off, intr_disable, intr_set_status}
use os_learning.Thread.{Tid, task_blocked, Sched, thread_block, thread_unblock}

-- `struct semaphore`
pub record Semaphore : Type 0 where
  pub value : ℕ
  pub waiters : List Tid

-- `struct lock`; a `holder` of NULL is `none`.
pub record Lock : Type 0 where
  pub holder : Option Tid
  pub semaphore : Semaphore
  pub holder_repeat_nr : ℕ

unfoldable pub sema_init : ℕ → Semaphore
sema_init value = record { value = value; waiters = [] }

unfoldable pub lock_init : Lock
unfolding sema_init
lock_init = record { holder = none; semaphore = sema_init 1; holder_repeat_nr = 0 }

-- One round of the loop of `sema_down`, with interrupts off: `true` if the thread has passed, `false`
-- if it has blocked and another runs. The PANIC behind the ASSERT repeats its test.
unfoldable pub down_round : Semaphore → Sched → Run (Bool × Semaphore × Sched)
down_round psema s =
    if psema.value == 0
    then (do
      assert (not (has s.running psema.waiters))
      s' ← thread_block task_blocked s
      ok (false, record psema { waiters = psema.waiters ++ (s.running ∷ []) }, s'))
    else (do assert (psema.value - 1 == 0); ok (true, record psema { value = psema.value - 1 }, s))

-- The status that the thread gets back when it has passed.
abbrev pub restore : IntrStatus → Bool × Semaphore × Sched → Bool × Semaphore × Sched
restore old (true, psema, s) = (true, psema, record s { intr = (intr_set_status old s.intr).1 })
restore old (false, psema, s) = (false, psema, s)

unfoldable pub sema_down : Semaphore → Sched → Run (Bool × Semaphore × Sched)
unfolding intr_disable intr_set_status
sema_down psema s = do
  let (old_status, off) = intr_disable s.intr
  r ← down_round psema (record s { intr = off })
  ok (restore old_status r)

-- The end of `thread_block`, whose old status is off, and the loop of `sema_down` again.
unfoldable pub sema_resume :
    (old_status : IntrStatus) → Semaphore → Sched → Run (Bool × Semaphore × Sched)
unfolding intr_set_status
sema_resume old_status psema s = do
  r ← down_round psema (record s { intr = (intr_set_status intr_off s.intr).1 })
  ok (restore old_status r)

-- `if (!list_empty(waiters)) thread_unblock(list_pop(waiters));`, and the waiters that are left
unfoldable pub wake_first : (waiters : List Tid) → Sched → Run (List Tid × Sched)
wake_first [] s = ok ([], s)
wake_first (t ∷ rest) s = do s' ← thread_unblock t s; ok (rest, s')

unfoldable pub sema_up : Semaphore → Sched → Run (Semaphore × Sched)
unfolding intr_disable intr_set_status
sema_up psema s = do
  let (old_status, off) = intr_disable s.intr
  assert (psema.value == 0)
  (waiters, s1) ← wake_first psema.waiters (record s { intr = off })
  let psema1 : Semaphore = record { value = (psema.value + 1) % 2 ^ 8; waiters = waiters }
  assert (psema1.value == 1)
  ok (psema1, record s1 { intr = (intr_set_status old_status s1.intr).1 })

-- `plock->holder == running_thread()`
abbrev pub is_holder : Lock → Tid → Bool
is_holder plock t = elim plock.holder [ none ↦ false | some h ↦ h == t ]

-- The part of `lock_acquire` behind `sema_down`.
unfoldable pub lock_take : Tid → Lock → Run Lock
lock_take t plock = do
  let held = record plock { holder = some t }
  assert (held.holder_repeat_nr == 0)
  ok (record held { holder_repeat_nr = 1 })

-- The part of `lock_release` before `sema_up`: `true` if that comes next.
unfoldable pub lock_drop : Tid → Lock → Run (Bool × Lock)
lock_drop t plock = do
  assert (is_holder plock t)
  if ltb 1 plock.holder_repeat_nr
      then ok (false, record plock { holder_repeat_nr = plock.holder_repeat_nr - 1 })
      else (do
        assert (plock.holder_repeat_nr == 1)
        ok (true, record plock { holder = none; holder_repeat_nr = 0 }))

-- The whole of `lock_acquire`: `false` where the caller has blocked.
unfoldable pub lock_acquire : Lock → Sched → Run (Bool × Lock × Sched)
lock_acquire plock s = elim (is_holder plock s.running) [
  | true ↦ ok (true, record plock { holder_repeat_nr = (plock.holder_repeat_nr + 1) % 2 ^ 32 }, s)
  | false ↦ do
    (passed, psema, s1) ← sema_down plock.semaphore s
    let plock1 = record plock { semaphore = psema }
    elim passed [
      | false ↦ ok (false, plock1, s1)
      | true ↦ do plock2 ← lock_take s1.running plock1; ok (true, plock2, s1)
    ]
]

unfoldable pub lock_release : Lock → Sched → Run (Lock × Sched)
lock_release plock s = do
  (up, plock1) ← lock_drop s.running plock
  elim up [
    | false ↦ ok (plock1, s)
    | true ↦ do
      (psema, s1) ← sema_up plock1.semaphore s
      ok (record plock1 { semaphore = psema }, s1)
  ]
