-- ===== src/Contention/Invariant.antt =====
-- What holds of threads that contend for a lock, at every point at which the processor can be taken away.
use os_learning.Base.{
  ℕ, ◌<◌, ◌≤◌, ◌≡◌, refl, Bool, true, false, none, some, List, [], ◌∷◌, arith, has, has-append,
  Distinct,
}
use os_learning.Interrupt.{intr_on}
use os_learning.Thread.{Tid, task_ready, task_blocked, Sched, stack_magic_value, status_of, IsValid}
use os_learning.Thread.Schedule.{turn, rotate}
use os_learning.Contention.System.{Point, outside, waiting, holding, System, flag_at, place}

-- between the passage of `sema_down` and that of `sema_up`
abbrev pub is_inner : Point → Bool
is_inner outside = false
is_inner waiting = false
is_inner _ = true

abbrev pub waiters : System → List Tid
waiters y = y.lock.semaphore.waiters

abbrev pub value : System → ℕ
value y = y.lock.semaphore.value

-- The scheduler's state is valid, every stack has its mark; the waiters are the blocked threads inside `sema_down`; the semaphore is
-- at 0 exactly while a thread is inside, one at most, and that thread can run; the holder is the thread that
-- holds; while the semaphore is at 1 and a thread waits, a woken one can run.
pub record Inv (y : System) : Type 0 where
  pub sched : IsValid y.sched
  pub marked : (t : Tid) → (y.sched.tasks t).stack_magic ≡ stack_magic_value
  pub flag : y.sched.intr ≡ flag_at (place y)
  pub waits : (t : Tid) → has t (waiters y) ≡ true → status_of y.sched t ≡ task_blocked
  pub at_wait : (t : Tid) → has t (waiters y) ≡ true → y.point t ≡ waiting
  pub listed :
      (t : Tid)
      → y.point t ≡ waiting
      → status_of y.sched t ≡ task_blocked
      → has t (waiters y) ≡ true
  pub distinct : Distinct (waiters y)
  pub binary : value y ≤ 1
  pub unique : (t u : Tid) → is_inner (y.point t) ≡ true → is_inner (y.point u) ≡ true → t ≡ u
  pub free : (t : Tid) → value y ≡ 1 → is_inner (y.point t) ≡ false
  pub taken : value y ≡ 0 → (t : Tid) × (is_inner (y.point t) ≡ true)
  pub alive : (t : Tid) → is_inner (y.point t) ≡ true → has t (turn y.sched) ≡ true
  pub holds : (t : Tid) → y.lock.holder ≡ some t → y.point t ≡ holding
  pub held : (t : Tid) → y.point t ≡ holding → y.lock.holder ≡ some t
  pub idle : y.lock.holder ≡ none → y.lock.holder_repeat_nr ≡ 0
  pub counted : (t : Tid) → y.lock.holder ≡ some t → 0 < y.lock.holder_repeat_nr
  pub saved_on : (t : Tid) → y.point t ≡ waiting → y.saved t ≡ intr_on
  pub woken :
      (u : Tid)
      → value y ≡ 1
      → has u (waiters y) ≡ true
      → (t : Tid) × (y.point t ≡ waiting) × (has t (turn y.sched) ≡ true)

-- A task has a turn if it runs or is ready.
pub has-turn_of_ready :
    (s : Sched) (t : Tid) → IsValid s → status_of s t ≡ task_ready → has t (turn s) ≡ true
has-turn_of_ready s t v e = ground (arith, v.ready_in t)

pub has-turn-status :
    (s : Sched) (t : Tid) → IsValid s → status_of s t ≡ task_blocked → has t (turn s) ≡ false
has-turn-status s t v e = ground (arith, v.queued t, v.runs)

pub has-rotate : (t : Tid) (q : List Tid) → has t (rotate q) ≡ has t q
has-rotate t [] = refl
has-rotate t (x ∷ xs) = ground (arith, has-append t xs (x ∷ []))

pub ready_running : (s : Sched) → IsValid s → has s.running s.ready ≡ false
ready_running s v = ground (arith, v.runs, v.queued s.running)

-- An owner that does not run is ready, so the queue is not empty.
pub ready_of_owner :
    (y : System)
    → Inv y
    → value y ≡ 0
    → is_inner (place y) ≡ false
    → (next : Tid) × (rest : List Tid) × (y.sched.ready ≡ next ∷ rest)
ready_of_owner y i zero out =
    let (t, inner) = i.taken zero in split y.sched.ready refl t (ground (arith, i.alive t inner))
  where
    split :
        (q : List Tid)
        → y.sched.ready ≡ q
        → (t : Tid) → has t y.sched.ready ≡ true
        → (next : Tid) × (rest : List Tid) × (y.sched.ready ≡ next ∷ rest)
    split [] e t h = absurd (ground (arith, e))
    split (x ∷ xs) e t h = (x, xs, e)
