-- ===== src/Thread/Block.antt =====
-- `thread_block` and `thread_unblock` of thread/thread.c.
use os_learning.Base.{
  ◌≡◌, refl, ap, ◌∙◌, ◌≢◌, ◌⊎◌, inl, inr, Bool-cases, true, false, List, [], ◌∷◌, arith, has,
}
use os_learning.Base.Run.{panic, Returns}
use os_learning.Interrupt.{intr_off, intr_disable-eq, intr_set_status-eq}
use os_learning.Thread.Defs.{
  Tid, TaskStatus, task_ready, Sched, status_of, set_status, is_ready, is_blocked, run_next,
  thread_block, thread_unblock, IsValid,
}
use os_learning.Thread.Valid.{
  put_back-stopped, stopped-IsWaiting, running-not_queued, run_next-ready,
}
use os_learning.Thread.Schedule.{schedule-eq}

-- The caller `t` has stopped with the status, the queue's head runs, with interrupts off; no other task
-- has changed.
pub record Blocked (s : Sched) (stat : TaskStatus) (next : Tid) (rest : List Tid) (s' : Sched)
    : Type 0 where
  pub valid : IsValid s'
  pub runs : s'.running ≡ next
  pub queue : s'.ready ≡ rest
  pub stopped : status_of s' s.running ≡ stat
  pub off : s'.intr ≡ intr_off
  pub others : (t : Tid) → t ≢ s.running → t ≢ next → s'.tasks t ≡ s.tasks t
  pub marks : (t : Tid) → (s'.tasks t).stack_magic ≡ (s.tasks t).stack_magic

-- the state in which `thread_block` calls `schedule`
abbrev stopping : TaskStatus → Sched → Sched
stopping stat s = set_status (record s { intr = intr_off }) s.running stat

off-IsValid : (s : Sched) → IsValid s → IsValid (record s { intr = intr_off })
off-IsValid s v = record {
  runs = v.runs;
  alone = v.alone;
  queued = v.queued;
  ready_in = v.ready_in;
  distinct = v.distinct;
}

thread_block-eq :
    (stat : TaskStatus) (s : Sched)
    → IsValid s
    → is_blocked stat ≡ true
    → thread_block stat s ≡ run_next s.ready (stopping stat s)
unfolding thread_block
thread_block-eq stat s v b =
    rw (b, intr_disable-eq)
      (schedule-eq (stopping stat s) refl
        ∙ rw (put_back-stopped (record s { intr = intr_off }) (off-IsValid s v) stat b))

-- From a valid state whose ready queue begins with `next`, `thread_block` with one of its three
-- statuses returns a valid state, with interrupts off, in which `next` runs, the caller has the
-- status, and no other task has changed.
pub thread_block-Blocked :
    (stat : TaskStatus) (s : Sched) (next : Tid) (rest : List Tid)
    → IsValid s
    → is_blocked stat ≡ true
    → s.ready ≡ next ∷ rest
    → Returns (Blocked s stat next rest) (thread_block stat s)
thread_block-Blocked stat s next rest v b e =
    let w = stopped-IsWaiting (record s { intr = intr_off }) (off-IsValid s v) stat b in
    let (s', run, sw) = run_next-ready (stopping stat s) next rest w e in
    let first : has next s.ready ≡ true = rw e (ground arith) in
    (
      s',
      thread_block-eq stat s v b ∙ run,
      record {
        valid = sw.valid;
        runs = sw.runs;
        queue = sw.queue;
        stopped = ground (arith, sw.others s.running, running-not_queued s v, first);
        off = sw.same_intr;
        others = λ t ne ne'. ground (arith, sw.others t, ne, ne');
        marks = λ t. sw.marks t ∙ ground arith;
      },
    )

-- With no task ready, or another status, an ASSERT fails.
pub thread_block-panic :
    (stat : TaskStatus) (s : Sched)
    → IsValid s
    → (is_blocked stat ≡ false) ⊎ (s.ready ≡ [])
    → thread_block stat s ≡ panic
unfolding thread_block run_next
thread_block-panic stat s v (inl b) = rw b
thread_block-panic stat s v (inr e) = elim (Bool-cases (is_blocked stat)) [
  | inl b ↦ thread_block-eq stat s v b ∙ ap (λ q. run_next q (stopping stat s)) e
  | inr n ↦ rw n
]

-- The task is ready, at the front of the queue; the running task goes on, and nothing else has changed.
pub record Unblocked (s : Sched) (t : Tid) (s' : Sched) : Type 0 where
  pub valid : IsValid s'
  pub runs : s'.running ≡ s.running
  pub queue : s'.ready ≡ t ∷ s.ready
  pub same_intr : s'.intr ≡ s.intr
  pub others : (u : Tid) → u ≢ t → s'.tasks u ≡ s.tasks u
  pub marks : (u : Tid) → (s'.tasks u).stack_magic ≡ (s.tasks u).stack_magic

not_ready : (status : TaskStatus) → is_blocked status ≡ true → is_ready status ≡ false
not_ready task_ready b = cc
not_ready status b = refl

-- From a valid state, `thread_unblock` of a task that is blocked, waiting or hanging returns a
-- valid state in which that task is the first of the ready queue; the same task runs, the interrupt
-- flag is as it was, and no other task has changed.
pub thread_unblock-Unblocked :
    (t : Tid) (s : Sched)
    → IsValid s
    → is_blocked (status_of s t) ≡ true
    → Returns (Unblocked s t) (thread_unblock t s)
unfolding thread_unblock
thread_unblock-Unblocked t s v b =
    let out : has t s.ready ≡ false = ground (arith, v.queued t, b) in
    (
      record (set_status s t task_ready) { ready = t ∷ s.ready },
      rw (intr_disable-eq, b, not_ready (status_of s t) b, out, intr_set_status-eq),
      record {
        valid = record {
          runs = ground (arith, v.runs, b);
          alone = λ u i. ground (arith, v.alone u, i);
          queued = λ u i. ground (arith, v.queued u, i);
          ready_in = λ u i. ground (arith, v.ready_in u, i);
          distinct = (out, v.distinct);
        };
        runs = refl;
        queue = refl;
        same_intr = refl;
        others = λ u ne. ground (arith, ne);
        marks = λ u. ground arith;
      },
    )

-- A task that is not stopped fails the ASSERT.
pub thread_unblock-panic :
    (t : Tid) (s : Sched) → is_blocked (status_of s t) ≡ false → thread_unblock t s ≡ panic
unfolding thread_unblock
thread_unblock-panic t s b = rw (intr_disable-eq, b)
