-- ===== src/Contention/Exclusion.antt =====
-- Any interleaving of threads that contend for one lock: mutual exclusion, no failed ASSERT, no lost wakeup.
use os_learning.Base.{
  ◌+◌, ◌^◌, ◌<◌, ◌≡◌, ◌≢◌, ◌⊎◌, inl, inr, refl, Bool-cases, true, some, arith, ◌==◌, has,
}
use os_learning.Base.Run.{Run, ok, Returns, Returns-at}
use os_learning.Interrupt.{intr_on}
use os_learning.Thread.{Tid, Sched, stack_magic_value, IsValid}
use os_learning.Thread.Schedule.{turn}
use os_learning.Sync.{lock_init}
use os_learning.Contention.System.{
  outside, waiting, entered, holding, leaving, System, place, acquire, resume, take, release,
  signal, preempt,
}
use os_learning.Contention.Invariant.{Inv, is_inner, waiters, value, has-turn-status}
use os_learning.Contention.Enter.{enter-Inv, acquire-enter, resume-enter}
use os_learning.Contention.Hold.{take-Inv, again-Inv, release-Inv}
use os_learning.Contention.Leave.{signal-Inv}
use os_learning.Contention.Preempt.{preempt-Inv}

-- nobody has asked for the lock yet
unfoldable pub start : Sched → System
unfolding lock_init
start s = record { lock = lock_init; sched = s; point = λ t. outside; saved = λ t. intr_on }

pub data Action : Type 0 where
  acquires resumes takes releases signals interrupted : Action

-- What the running thread may do, by where it stands: a holder may ask again, unless its count of 32
-- bits is full, and the timer interrupts a thread whose flag is on.
abbrev pub May : Action → System → Type 0
May acquires y =
    (place y ≡ outside) ⊎ ((place y ≡ holding) × (y.lock.holder_repeat_nr + 1 < 2 ^ 32))
May resumes y = place y ≡ waiting
May takes y = place y ≡ entered
May releases y = place y ≡ holding
May signals y = place y ≡ leaving
May interrupted y = place y ≢ waiting

abbrev pub execute : Action → System → Run System
execute acquires y = acquire y
execute resumes y = resume y
execute takes y = take y
execute releases y = release y
execute signals y = signal y
execute interrupted y = preempt y

pub data Reach (s : Sched) : System → Type 0 where
  begins : Reach s (start s)
  goes : {y y' : System} → Reach s y → (a : Action) → May a y → execute a y ≡ ok y' → Reach s y'

-- A call that the running thread may make at its point, or the timer's interrupt where its flag is
-- on, returns from a state that satisfies the invariant `Inv` with one that does: of the scheduler,
-- the semaphore, its waiters, the lock's holder and the point of each thread.
pub execute-Inv : (a : Action) (y : System) → Inv y → May a y → Returns Inv (execute a y)
execute-Inv acquires y i (inl e) = rw (acquire-enter y i e) (enter-Inv y i (rw e refl))
execute-Inv acquires y i (inr (e, small)) = again-Inv y i e small
execute-Inv resumes y i e = rw (resume-enter y i e) (enter-Inv y i (rw e refl))
execute-Inv takes y i e = take-Inv y i e
execute-Inv releases y i e = release-Inv y i e
execute-Inv signals y i e = signal-Inv y i e
execute-Inv interrupted y i ne = preempt-Inv y i

-- a scheduler that runs, with interrupts on
module _ (s : Sched) (v : IsValid s) (on : s.intr ≡ intr_on)
    (marked : (t : Tid) → (s.tasks t).stack_magic ≡ stack_magic_value) where
  pub start-Inv : Inv (start s)
  unfolding start lock_init
  start-Inv = record {
    sched = v;
    marked = marked;
    flag = on;
    waits = λ t h. cc;
    at_wait = λ t h. cc;
    listed = λ t e b. cc;
    distinct = tt;
    binary = omega arith;
    unique = λ t u a b. cc;
    free = λ t e. refl;
    taken = λ e. absurd (omega arith);
    alive = λ t a. cc;
    holds = λ t h. cc;
    held = λ t h. cc;
    idle = λ h. refl;
    counted = λ t h. cc;
    saved_on = λ t h. refl;
    woken = λ u e h. cc;
  }

  pub Reach-Inv : {y : System} → Reach s y → Inv y
  Reach-Inv begins = start-Inv
  Reach-Inv (goes {y} r a may run) = Returns-at (execute-Inv a y (Reach-Inv r) may) run

  -- From a scheduler in a valid state that runs with interrupts on, every stack with its mark: in
  -- every state that the contending threads reach, each call that the running thread may make at
  -- its point, and the timer's interrupt, returns: no ASSERT fails and the ready queue is not empty
  -- when a thread blocks; the state that it returns is reached.
  pub Reach-goes :
      (y : System) (a : Action)
      → Reach s y
      → May a y
      → (y' : System) × (execute a y ≡ ok y') × Reach s y'
  Reach-goes y a r may =
      let (y', run, i) = execute-Inv a y (Reach-Inv r) may in (y', run, goes r a may run)

  -- From a scheduler in a valid state that runs with interrupts on, every stack with its mark: in
  -- every state that threads reach which ask for one lock, wait, hold and release it and are
  -- interrupted by the timer in any order, a thread that holds the lock is the only one between the
  -- passage of `sema_down` and that of `sema_up`, and it is the lock's holder.
  pub mutual_exclusion :
      (y : System)
      → Reach s y
      → (t u : Tid) → y.point t ≡ holding
      → is_inner (y.point u) ≡ true
      → (t ≡ u) × (y.lock.holder ≡ some t)
  mutual_exclusion y r t u a b = let i = Reach-Inv r in (i.unique t u (rw a refl) b, i.held t a)

  -- From a scheduler in a valid state that runs with interrupts on, every stack with its mark: in
  -- every state that the contending threads reach, if a thread is among the semaphore's waiters,
  -- then another thread has a turn at the processor, running or ready, that has passed `sema_down`
  -- and not yet `sema_up`, or that has been woken from `sema_down`.
  pub no_lost_wakeup :
      (y : System)
      → Reach s y
      → (u : Tid) → has u (waiters y) ≡ true
      → (t : Tid) × (t ≢ u)
        × (has t (turn y.sched) ≡ true)
        × ((is_inner (y.point t) ≡ true) ⊎ (y.point t ≡ waiting))
  no_lost_wakeup y r u h =
      let i = Reach-Inv r in
      elim (Bool-cases (value y == 0)) [
        | inl zero ↦
            let (t, inner) = i.taken (ground arith) in
            (
              t,
              (λ same. absurd (ground (arith, i.at_wait u h, same, inner))),
              i.alive t inner,
              inl inner,
            )
        | inr more ↦
            let (t, at, alive) = i.woken u (ground (arith, i.binary)) h in
            (
              t,
              (λ same.
                  absurd
                    (ground (arith, has-turn-status y.sched u i.sched (i.waits u h), same, alive))),
              alive,
              inr at,
            )
      ]
