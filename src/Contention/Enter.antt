-- ===== src/Contention/Enter.antt =====
-- The loop of `sema_down` keeps the invariant: a thread passes it, or waits.
use os_learning.Base.{
  ◌≡◌, ◌≢◌, inl, inr, refl, ap, ap₂, Bool-cases, Option-cases, ◌∙◌, true, false, ◌||◌, List, [],
  ◌∷◌, ◌++◌, arith, ◌==◌, has, has-append, Distinct-of_parts,
}
use os_learning.Base.Run.{Run, ok, ◌>>=◌, Returns, bind-ok}
use os_learning.Interrupt.{intr_on, intr_off, intr_disable-eq, intr_set_status-eq}
use os_learning.Thread.{Tid, task_blocked, Sched, status_of}
use os_learning.Thread.Block.{Blocked}
use os_learning.Sync.{is_holder, down_round, restore, sema_down, sema_resume}
use os_learning.Sync.Semaphores.{off, IsValid-intr, down_round-passes, down_round-Waits}
use os_learning.Contention.System.{
  outside, waiting, holding, System, flag_at, place, after_down, acquire, resume,
}
use os_learning.Contention.Invariant.{Inv, is_inner, waiters, value, ready_running, ready_of_owner}

-- the loop, from the point where `old_status` is on
abbrev pub enter : System → Run System
enter y = do
  r ← down_round y.lock.semaphore (off y.sched)
  ok (after_down y intr_on (restore intr_on r))

module _ (y : System) (i : Inv y) (out : is_inner (place y) ≡ false) where
  new_waiter : has y.sched.running (waiters y) ≡ false
  new_waiter = ground (arith, i.waits y.sched.running, i.sched.runs)

  -- with the semaphore at 1
  abbrev passed : System
  passed =
      after_down y intr_on
        (true, record y.lock.semaphore { value = 0 }, record y.sched { intr = intr_on })

  passed-Inv : value y ≡ 1 → Inv passed
  passed-Inv one = record {
    sched = IsValid-intr y.sched intr_on i.sched;
    marked = i.marked;
    flag = ground arith;
    waits = i.waits;
    at_wait = λ t h. ground (arith, i.at_wait t h, i.waits t h, i.sched.runs);
    listed = λ t e b. ground (arith, i.listed t, e, b);
    distinct = i.distinct;
    binary = omega arith;
    unique = λ t u a b. ground (arith, i.free t one, i.free u one, a, b);
    free = λ t e. absurd (omega arith);
    taken = λ e. (y.sched.running, ground arith);
    alive = λ t e. ground (arith, i.free t one, e);
    holds = λ t e. ground (arith, i.holds t e, i.free t one);
    held = λ t e. ground (arith, i.held t, e);
    idle = i.idle;
    counted = i.counted;
    saved_on = λ t e. ground (arith, i.saved_on t, e);
    woken = λ u e h. absurd (omega arith);
  }

  -- with the semaphore at 0, `next` first of the queue
  module _ (zero : value y ≡ 0) (next : Tid) (rest : List Tid) (q : y.sched.ready ≡ next ∷ rest)
      (s' : Sched) (b : Blocked (off y.sched) task_blocked next rest s') where
    abbrev stopped : System
    stopped =
        after_down y intr_on
          (false, record y.lock.semaphore { waiters = waiters y ++ (y.sched.running ∷ []) }, s')

    next-ne : next ≢ y.sched.running
    next-ne e = absurd (ground (arith, ready_running y.sched i.sched, ap (has next) q))

    has-waiters :
        (t : Tid) → has t (waiters stopped) ≡ (has t (waiters y) || (t == y.sched.running))
    has-waiters t = ground (arith, has-append t (waiters y) (y.sched.running ∷ []))

    next-out : has next (waiters y) ≡ false
    next-out = ground (arith, i.waits next, i.sched.queued next, ap (has next) q)

    status-stopped :
        (t : Tid) → t ≢ y.sched.running → t ≢ next → status_of s' t ≡ status_of y.sched t
    status-stopped t ne ne' = ap (λ task. task.status) (b.others t ne ne')

    waits-stopped : (t : Tid) → has t (waiters stopped) ≡ true → status_of s' t ≡ task_blocked
    waits-stopped t h =
        ground (arith, has-waiters t, next-out, b.stopped, status-stopped t, i.waits t, h)

    stopped-Inv : Inv stopped
    stopped-Inv = record {
      sched = IsValid-intr s' _ b.valid;
      marked = λ t. b.marks t ∙ i.marked t;
      flag = ground (arith, b.runs, next-ne);
      waits = waits-stopped;
      at_wait = λ t h. ground (arith, has-waiters t, i.at_wait t, h);
      listed = λ t e s.
          ground (arith, has-waiters t, i.listed t, status-stopped t, b.valid.runs, b.runs, e, s);
      distinct =
          Distinct-of_parts (waiters y) (y.sched.running ∷ []) i.distinct (refl, tt)
            (λ a h. ground (arith, new_waiter));
      binary = i.binary;
      unique = λ t u e f. ground (arith, i.unique t u, e, f);
      free = λ t e. absurd (omega arith);
      taken = λ e. let (t, inner) = i.taken zero in (t, ground (arith, out));
      alive = λ t e.
          ground (arith, i.alive t, b.runs, b.queue, ap (has t) q, e, ap (λ l. has t l) b.queue);
      holds = λ t e. ground (arith, i.holds t e, out);
      held = λ t e. ground (arith, i.held t, e);
      idle = i.idle;
      counted = i.counted;
      saved_on = λ t e. ground (arith, i.saved_on t, e);
      woken = λ u e h. absurd (omega arith);
    }

  pub enter-Inv : Returns Inv (enter y)
  enter-Inv = elim (Bool-cases (value y == 0)) [
    | inr n ↦
        let one : value y ≡ 1 = ground (arith, i.binary) in
        (
          passed,
          rw (down_round-passes y.lock.semaphore (off y.sched) one, intr_set_status-eq),
          passed-Inv one,
        )
    | inl z ↦
        let zero : value y ≡ 0 = ground arith in
        let (next, rest, q) = ready_of_owner y i zero out in
        let ((pass, psema, s'), run, w) =
          down_round-Waits y.lock.semaphore (off y.sched) next rest zero new_waiter
            (IsValid-intr y.sched intr_off i.sched) q in
        let answer = run ∙ ap₂ (λ p m. ok (p, m, s')) w.blocked w.sema in
        (stopped zero next rest q s' w.sched, rw answer, stopped-Inv zero next rest q s' w.sched)
  ]

pub not_holder : (y : System) → Inv y → place y ≢ holding → is_holder y.lock y.sched.running ≡ false
not_holder y i ne = elim (Option-cases y.lock.holder) [
  | inl e ↦ rw e
  | inr (h, e) ↦ rw e (ground (arith, i.holds h e, ne))
]

-- `acquire` from outside, and `resume`, are that loop.
pub acquire-enter : (y : System) → Inv y → place y ≡ outside → acquire y ≡ enter y
unfolding acquire sema_down
acquire-enter y i e =
    let on : y.sched.intr ≡ intr_on = i.flag ∙ ap flag_at e in
    rw (not_holder y i (λ h. absurd (ground arith)), intr_disable-eq, on, acquire)
      (bind-ok (down_round y.lock.semaphore (off y.sched)) (restore intr_on)
        (λ r. ok (after_down y intr_on r)))

pub resume-enter : (y : System) → Inv y → place y ≡ waiting → resume y ≡ enter y
unfolding resume sema_resume
resume-enter y i e =
    rw (i.saved_on y.sched.running e, intr_set_status-eq intr_off y.sched.intr)
      (bind-ok (down_round y.lock.semaphore (off y.sched)) (restore intr_on)
        (λ r. ok (after_down y intr_on r)))
