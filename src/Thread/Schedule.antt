-- ===== src/Thread/Schedule.antt =====
-- `schedule` of thread/thread.c: round robin.
use os_learning.Base.{
  ℕ, zero, suc, ◌≡◌, refl, sym, ap, ap₂, ◌∙◌, ◌≢◌, List, [], ◌∷◌, ◌++◌, arith, length,
}
use mathlib.Core.List.{append-nil, append_assoc}
use os_learning.Base.Run.{Run, ok, ◌>>=◌, ◌>>◌, assert, Returns}
use os_learning.Interrupt.{intr_off}
use os_learning.Thread.Defs.{
  Tid, task_running, Sched, status_of, is_off, put_back, run_next, schedule, IsValid,
}
use os_learning.Thread.Valid.{
  Switched, returned, put_back-eq, returned-IsWaiting, run_next-Switched,
}

-- the running task, and those that wait for the processor, in order
abbrev pub turn : Sched → List Tid
turn s = s.running ∷ s.ready

abbrev pub rotate : List Tid → List Tid
rotate [] = []
rotate (x ∷ xs) = xs ++ (x ∷ [])

-- A turn of the queue: the invariant holds, each task but the two that change stays as it was, and the
-- interrupts stay off.
pub record Turned (s s' : Sched) : Type 0 where
  pub valid : IsValid s'
  pub order : turn s' ≡ rotate (turn s)
  pub off : s'.intr ≡ intr_off
  pub others : (t : Tid) → t ≢ s.running → t ≢ s'.running → s'.tasks t ≡ s.tasks t
  pub elapsed : (t : Tid) → (s'.tasks t).elapsed_ticks ≡ (s.tasks t).elapsed_ticks
  pub marks : (t : Tid) → (s'.tasks t).stack_magic ≡ (s.tasks t).stack_magic
  pub same_ticks : s'.ticks ≡ s.ticks
  pub slice : (s'.tasks s.running).ticks ≡ (s.tasks s.running).priority

pub schedule-eq :
    (s : Sched) → s.intr ≡ intr_off → schedule s ≡ (put_back s >>= λ s1. run_next s1.ready s1)
unfolding schedule
schedule-eq s off = ap (λ i. assert (is_off i) >> (put_back s >>= λ s1. run_next s1.ready s1)) off

-- the queue's head runs, and the rest of the queue waits
Turned-of_Switched :
    (s : Sched) (v : IsValid s) (next : Tid) (rest : List Tid) (s' : Sched)
    → s.intr ≡ intr_off
    → s.ready ++ (s.running ∷ []) ≡ next ∷ rest
    → Switched (returned s v) next rest s'
    → Turned s s'
Turned-of_Switched s v next rest s' off e sw = record {
  valid = sw.valid;
  order = ap₂ ◌∷◌ sw.runs sw.queue ∙ sym e;
  off = sw.same_intr ∙ off;
  others = λ t ne ne'. ground (arith, sw.others t, sw.runs, ne, ne');
  elapsed = λ t. sw.elapsed t ∙ ground arith;
  marks = λ t. sw.marks t ∙ ground arith;
  same_ticks = sw.same_ticks;
  slice = sw.slices s.running ∙ ground arith;
}

-- From a valid state with interrupts off, `schedule` returns a valid state with interrupts off in
-- which the queue has turned by one: the first ready task runs, and the caller is at the end with a
-- full slice; no task but these two has changed, and no task's `elapsed_ticks` or `stack_magic`.
pub schedule-Turned : (s : Sched) → IsValid s → s.intr ≡ intr_off → Returns (Turned s) (schedule s)
schedule-Turned s v off =
    rw (schedule-eq s off, put_back-eq s v) (go (s.ready ++ (s.running ∷ [])) refl)
  where
    go :
        (q : List Tid)
        → s.ready ++ (s.running ∷ []) ≡ q
        → Returns (Turned s) (run_next q (returned s v))
    go [] e = absurd (some_waits s.ready e)
      where
        some_waits : (q : List Tid) → q ++ (s.running ∷ []) ≢ []
        some_waits [] e = cc
        some_waits (t ∷ q) e = cc
    go (t ∷ q) e =
        let (s', run, sw) = run_next-Switched (returned s v) t q (returned-IsWaiting s v) e in
        (s', run, Turned-of_Switched s v t q s' off e sw)

-- `n` turns of the scheduler
unfoldable pub schedules : (n : ℕ) → Sched → Run Sched
schedules zero s = ok s
schedules (suc n) s = do s' ← schedule s; schedules n s'

abbrev pub rotations : ℕ → List Tid → List Tid
rotations zero q = q
rotations (suc n) q = rotations n (rotate q)

-- After `n` turns with no other event the queue has gone round by `n` tasks; the scheduler does not fail.
pub schedules-rotations :
    (n : ℕ) (s : Sched)
    → IsValid s
    → s.intr ≡ intr_off
    → Returns (λ s'. IsValid s' × (turn s' ≡ rotations n (turn s))) (schedules n s)
unfolding schedules
schedules-rotations zero s v off = (s, refl, (v, refl))
schedules-rotations (suc n) s v off =
    let (s1, run, t) = schedule-Turned s v off in
    let (s2, runs, (v2, order)) = schedules-rotations n s1 t.valid t.off in
    (s2, rw (run, runs), (v2, order ∙ ap (rotations n) t.order))

rotations-head :
    (before : List Tid) (t : Tid) (after : List Tid)
    → rotations (length before) (before ++ t ∷ after) ≡ t ∷ (after ++ before)
rotations-head [] t after = ap (λ q. t ∷ q) (sym (append-nil after))
rotations-head (x ∷ xs) t after =
    ap (rotations (length xs)) (append_assoc xs (t ∷ after) (x ∷ []))
    ∙ rotations-head xs t (after ++ (x ∷ []))
    ∙ ap (λ q. t ∷ q) (append_assoc after (x ∷ []) xs)

-- No task starves: from a valid state with interrupts off, a task that stands behind the list
-- `before` of tasks, the running one included, runs after as many turns of `schedule` as that list
-- is long.
pub schedules-running :
    (before : List Tid) (t : Tid) (after : List Tid) (s : Sched)
    → IsValid s
    → s.intr ≡ intr_off
    → turn s ≡ before ++ t ∷ after
    → Returns
        (λ s'. (s'.running ≡ t) × (status_of s' t ≡ task_running))
        (schedules (length before) s)
schedules-running before t after s v off e =
    let (s', run, (v', order)) = schedules-rotations (length before) s v off in
    let at : turn s' ≡ t ∷ (after ++ before) =
      order ∙ ap (rotations (length before)) e ∙ rotations-head before t after in
    let head : s'.running ≡ t = cc in (s', run, (head, rw (← head) v'.runs))
