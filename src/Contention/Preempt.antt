-- ===== src/Contention/Preempt.antt =====
-- The timer's interrupt keeps the invariant: its handler changes neither who waits nor who can run.
use os_learning.Base.{◌≡◌, Bool-cases, inl, inr, refl, sym, ap, ◌∙◌, false, arith, ◌==◌, has}
use os_learning.Base.Run.{Returns}
use os_learning.Interrupt.{intr_off}
use os_learning.Thread.{Tid, task_blocked, Sched, status_of}
use os_learning.Thread.Schedule.{turn, rotate}
use os_learning.Thread.Timer.{Ticked, timer-Ticked}
use os_learning.Sync.Semaphores.{off, IsValid-intr}
use os_learning.Contention.System.{System, flag_at, preempt}
use os_learning.Contention.Invariant.{Inv, has-turn-status, has-rotate}

module _ (y : System) (i : Inv y) (s' : Sched) (t : Ticked (off y.sched) s') where
  abbrev switched : System
  switched = record y { sched = record s' { intr = flag_at (y.point s'.running) } }

  same_turn : (x : Tid) → has x (turn s') ≡ has x (turn y.sched)
  same_turn x = elim (Bool-cases ((y.sched.tasks y.sched.running).ticks == 0)) [
    | inl done ↦
        let order : turn s' ≡ rotate (turn y.sched) = rw done at t.order in
        ap (has x) order ∙ has-rotate x (turn y.sched)
    | inr more ↦ let order : turn s' ≡ turn y.sched = rw more at t.order in ap (has x) order
  ]

  still_blocked : (x : Tid) → status_of y.sched x ≡ task_blocked → status_of s' x ≡ task_blocked
  still_blocked x e =
      let none : has x (turn y.sched) ≡ false = has-turn-status y.sched x i.sched e in
      let same =
        t.others x (λ h. absurd (ground (arith, none, h)))
          (λ h. absurd (ground (arith, none, same_turn x, h))) in
      ap (λ task. task.status) same ∙ e

  was_blocked : (x : Tid) → status_of s' x ≡ task_blocked → status_of y.sched x ≡ task_blocked
  was_blocked x e =
      let none : has x (turn s') ≡ false = has-turn-status s' x t.valid e in
      let same =
        t.others x (λ h. absurd (ground (arith, none, same_turn x, h)))
          (λ h. absurd (ground (arith, none, h))) in
      ap (λ task. task.status) (sym same) ∙ e

  switched-Inv : Inv switched
  switched-Inv = record {
    sched = IsValid-intr s' _ t.valid;
    marked = λ x. t.marks x ∙ i.marked x;
    flag = refl;
    waits = λ x h. still_blocked x (i.waits x h);
    at_wait = i.at_wait;
    listed = λ x p b. i.listed x p (was_blocked x b);
    distinct = i.distinct;
    binary = i.binary;
    unique = i.unique;
    free = i.free;
    taken = i.taken;
    alive = λ x a. same_turn x ∙ i.alive x a;
    holds = i.holds;
    held = i.held;
    idle = i.idle;
    counted = i.counted;
    saved_on = i.saved_on;
    woken = λ u one h. let (x, at, alive) = i.woken u one h in (x, at, same_turn x ∙ alive);
  }

pub preempt-Inv : (y : System) → Inv y → Returns Inv (preempt y)
unfolding preempt
preempt-Inv y i =
    let (s', run, t) =
      timer-Ticked (off y.sched) (IsValid-intr y.sched intr_off i.sched) refl
        (i.marked y.sched.running) in
    (switched y i s' t, rw run refl, switched-Inv y i s' t)
