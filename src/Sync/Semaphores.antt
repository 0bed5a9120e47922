-- ===== src/Sync/Semaphores.antt =====
-- `sema_down` and `sema_up` of thread/sync.c, called by one thread.
use os_learning.Base.{
  ◌+◌, ◌%◌, ◌^◌, ◌≡◌, refl, ap, ◌∙◌, inr, ◌<◌, Bool, true, false, List, [], ◌∷◌, ◌++◌, arith, ◌==◌,
  has,
}
use os_learning.Base.Run.{ok, panic, Returns}
use os_learning.Interrupt.{IntrStatus, intr_off, intr_disable-eq, intr_set_status-eq}
use os_learning.Thread.{Tid, task_blocked, Sched, status_of, is_blocked, IsValid}
use os_learning.Thread.Block.{
  Blocked, thread_block-Blocked, thread_block-panic, Unblocked, thread_unblock-Unblocked,
}
use os_learning.Sync.Defs.{Semaphore, down_round, restore, sema_down, wake_first, sema_up}

abbrev pub off : Sched → Sched
off s = record s { intr = intr_off }

pub IsValid-intr : (s : Sched) (i : IntrStatus) → IsValid s → IsValid (record s { intr = i })
IsValid-intr s i v = record {
  runs = v.runs;
  alone = v.alone;
  queued = v.queued;
  ready_in = v.ready_in;
  distinct = v.distinct;
}

-- With the value 1 the round passes.
pub down_round-passes :
    (psema : Semaphore) (s : Sched)
    → psema.value ≡ 1
    → down_round psema s ≡ ok (true, record psema { value = 0 }, s)
unfolding down_round
down_round-passes psema s e = ground arith

-- The caller has gone to the end of the waiters, and the queue's head runs.
pub record Waits (psema : Semaphore) (s : Sched) (next : Tid) (rest : List Tid)
    (r : Bool × Semaphore × Sched) : Type 0 where
  pub blocked : r.0 ≡ false
  pub sema : r.1 ≡ record psema { waiters = psema.waiters ++ (s.running ∷ []) }
  pub sched : Blocked s task_blocked next rest r.2

-- From a valid state with `next` first of the ready queue, the loop of `sema_down` on a semaphore
-- at 0, for whose waiters the caller is new, puts the caller behind the waiters, blocks it, and
-- `next` runs.
pub down_round-Waits :
    (psema : Semaphore) (s : Sched) (next : Tid) (rest : List Tid)
    → psema.value ≡ 0
    → has s.running psema.waiters ≡ false
    → IsValid s
    → s.ready ≡ next ∷ rest
    → Returns (Waits psema s next rest) (down_round psema s)
unfolding down_round
down_round-Waits psema s next rest e out v q =
    let (s', run, b) = thread_block-Blocked task_blocked s next rest v refl q in
    let z : (psema.value == 0) ≡ true = ground arith in
    (_, rw (z, out, run), record { blocked = refl; sema = refl; sched = b })

pub sema_down-Waits :
    (psema : Semaphore) (s : Sched) (next : Tid) (rest : List Tid)
    → psema.value ≡ 0
    → has s.running psema.waiters ≡ false
    → IsValid s
    → s.ready ≡ next ∷ rest
    → Returns (Waits psema s next rest) (sema_down psema s)
unfolding sema_down
sema_down-Waits psema s next rest e out v q =
    let ((passed, psema', s'), run, w) =
      down_round-Waits psema (off s) next rest e out (IsValid-intr s intr_off v) q in
    (
      (false, psema', s'),
      rw (intr_disable-eq, run) (ap (λ b. ok (restore s.intr (b, psema', s'))) w.blocked),
      record {
        blocked = refl;
        sema = w.sema;
        sched = record {
          valid = w.sched.valid;
          runs = w.sched.runs;
          queue = w.sched.queue;
          stopped = w.sched.stopped;
          off = w.sched.off;
          others = w.sched.others;
          marks = w.sched.marks;
        };
      },
    )

pub down_round-panic :
    (psema : Semaphore) (s : Sched)
    → psema.value ≡ 0
    → IsValid s
    → s.ready ≡ []
    → down_round psema s ≡ panic
unfolding down_round
down_round-panic psema s e v q =
    let z : (psema.value == 0) ≡ true = ground arith in
    rw (z, thread_block-panic task_blocked s v (inr q)) (ground arith)

-- `sema_down` with the value 1 takes it to 0, and nothing else changes.
pub sema_down-passes :
    (psema : Semaphore) (s : Sched)
    → psema.value ≡ 1
    → sema_down psema s ≡ ok (true, record psema { value = 0 }, s)
unfolding sema_down
sema_down-passes psema s e =
    rw (intr_disable-eq, down_round-passes psema (off s) e, intr_set_status-eq)

-- The answer of `sema_up`, once the waiters are seen to.
sema_up-eq :
    (psema : Semaphore) (s : Sched) (r : List Tid × Sched)
    → psema.value ≡ 0
    → wake_first psema.waiters (off s) ≡ ok r
    → sema_up psema s ≡ ok (record { value = 1; waiters = r.0 }, record r.1 { intr = s.intr })
unfolding sema_up
sema_up-eq psema s r e w =
    let z : (psema.value == 0) ≡ true = ground arith in
    let one : (psema.value + 1) % 2 ^ 8 ≡ 1 = omega arith in
    rw (intr_disable-eq, z, w, one, intr_set_status-eq)

-- `sema_up` with no one waiting takes the value from 0 to 1, and nothing else changes.
pub sema_up-idle :
    (psema : Semaphore) (s : Sched)
    → psema.value ≡ 0
    → psema.waiters ≡ []
    → sema_up psema s ≡ ok (record { value = 1; waiters = [] }, s)
unfolding wake_first
sema_up-idle psema s e q = sema_up-eq psema s ([], off s) e (ap (λ l. wake_first l (off s)) q)

-- The first waiter is ready, in front of the queue, and out of the waiters; the value is 1.
pub record Wakes (s : Sched) (t : Tid) (rest : List Tid) (r : Semaphore × Sched) : Type 0 where
  pub sema : r.0 ≡ record { value = 1; waiters = rest }
  pub sched : Unblocked s t r.1

-- From a valid state, `sema_up` on a semaphore at 0 whose first waiter `t` has stopped returns with
-- the value 1, `t` out of the waiters and first of the ready queue.
pub sema_up-Wakes :
    (psema : Semaphore) (s : Sched) (t : Tid) (rest : List Tid)
    → psema.value ≡ 0
    → psema.waiters ≡ t ∷ rest
    → IsValid s
    → is_blocked (status_of s t) ≡ true
    → Returns (Wakes s t rest) (sema_up psema s)
unfolding wake_first
sema_up-Wakes psema s t rest e q v b =
    let (s', run, u) = thread_unblock-Unblocked t (off s) (IsValid-intr s intr_off v) b in
    let woken : wake_first psema.waiters (off s) ≡ ok (rest, s') =
      ap (λ l. wake_first l (off s)) q ∙ rw run in
    (
      _,
      sema_up-eq psema s (rest, s') e woken,
      record {
        sema = refl;
        sched = record {
          valid = IsValid-intr s' s.intr u.valid;
          runs = u.runs;
          queue = u.queue;
          same_intr = refl;
          others = u.others;
          marks = u.marks;
        };
      },
    )

-- A semaphore that is not at 0 fails the ASSERT of `sema_up`.
pub sema_up-panic : (psema : Semaphore) (s : Sched) → 0 < psema.value → sema_up psema s ≡ panic
unfolding sema_up
sema_up-panic psema s h = rw intr_disable-eq (ground arith)

-- A semaphore above 1 fails the second ASSERT of `sema_down`: the semaphores are binary.
pub sema_down-panic : (psema : Semaphore) (s : Sched) → 1 < psema.value → sema_down psema s ≡ panic
unfolding sema_down down_round
sema_down-panic psema s h = rw intr_disable-eq (ground arith)
