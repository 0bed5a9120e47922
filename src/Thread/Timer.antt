-- ===== src/Thread/Timer.antt =====
-- `intr_timer_handler` of device/timer.c: time slices.
use os_learning.Base.{
  ℕ, zero, suc, ◌+◌, ◌-◌, ◌%◌, ◌^◌, ◌≤◌, ◌≡◌, ◌≢◌, refl, ◌∙◌, inl, inr, Bool-cases, true, false,
  arith, ◌==◌, if◌then◌else◌,
}
use os_learning.Base.Run.{Run, ok, ◌>>=◌, Returns}
use os_learning.Interrupt.{intr_off}
use os_learning.Thread.Defs.{
  Tid, Task, Sched, stack_magic_value, set_task, intr_timer_handler, IsValid,
}
use os_learning.Thread.Schedule.{turn, rotate, schedule-Turned}

-- One timer interrupt: both counters go up, and the queue turns if the slice of the running task is
-- used up; if not, that has one tick less. Only the task that stops and the one that goes on change.
pub record Ticked (s s' : Sched) : Type 0 where
  pub valid : IsValid s'
  pub off : s'.intr ≡ intr_off
  pub total : s'.ticks ≡ (s.ticks + 1) % 2 ^ 32
  pub elapsed :
      (s'.tasks s.running).elapsed_ticks ≡ ((s.tasks s.running).elapsed_ticks + 1) % 2 ^ 32
  pub order : turn s' ≡ (if (s.tasks s.running).ticks == 0 then rotate (turn s) else turn s)
  pub others : (t : Tid) → t ≢ s.running → t ≢ s'.running → s'.tasks t ≡ s.tasks t
  pub marks : (t : Tid) → (s'.tasks t).stack_magic ≡ (s.tasks t).stack_magic
  pub slice : (s'.tasks s.running).ticks ≡ (
      if (s.tasks s.running).ticks == 0
      then (s.tasks s.running).priority
      else (s.tasks s.running).ticks - 1)

module _ (s : Sched) (v : IsValid s) where
  abbrev counted : Task
  counted = record (s.tasks s.running) {
    elapsed_ticks = ((s.tasks s.running).elapsed_ticks + 1) % 2 ^ 32;
  }

  -- the state when the handler has counted
  abbrev counting : Sched
  counting = record (set_task s s.running counted) { ticks = (s.ticks + 1) % 2 ^ 32 }

  abbrev used : Sched
  used = set_task counting s.running (record counted { ticks = counted.ticks - 1 })

  counting-IsValid : IsValid counting
  counting-IsValid = record {
    runs = ground (arith, v.runs);
    alone = λ t i. ground (arith, v.alone t, i);
    queued = λ t i. ground (arith, v.queued t, i);
    ready_in = λ t i. ground (arith, v.ready_in t, i);
    distinct = v.distinct;
  }

  used-IsValid : IsValid used
  used-IsValid = record {
    runs = ground (arith, v.runs);
    alone = λ t i. ground (arith, v.alone t, i);
    queued = λ t i. ground (arith, v.queued t, i);
    ready_in = λ t i. ground (arith, v.ready_in t, i);
    distinct = v.distinct;
  }

  marked :
      (s.tasks s.running).stack_magic ≡ stack_magic_value
      → ((s.tasks s.running).stack_magic == stack_magic_value) ≡ true
  marked magic = ground arith

  -- From a valid state with interrupts off, where the running task's stack has its mark, the
  -- timer's handler returns a valid state: the global and the task's count go up by 1 modulo 2^32;
  -- with no tick left the queue turns and the task's slice is its priority, and else the order
  -- stays and the slice has one tick less; only the task that stops and the one that goes on
  -- change.
  pub timer-Ticked :
      s.intr ≡ intr_off
      → (s.tasks s.running).stack_magic ≡ stack_magic_value
      → Returns (Ticked s) (intr_timer_handler s)
  unfolding intr_timer_handler
  timer-Ticked off magic = elim (Bool-cases ((s.tasks s.running).ticks == 0)) [
    | inl done ↦
        let (s', run, t1) = schedule-Turned counting counting-IsValid off in
        (
          s',
          rw (marked magic, done) run,
          record {
            valid = t1.valid;
            off = t1.off;
            total = t1.same_ticks;
            elapsed = t1.elapsed s.running ∙ ground arith;
            order = rw done t1.order;
            others = λ t ne ne'. t1.others t ne ne' ∙ ground (arith, ne);
            marks = λ t. t1.marks t ∙ ground arith;
            slice = rw done (t1.slice ∙ ground arith);
          },
        )
    | inr more ↦ (
      used,
      rw (marked magic, more),
      record {
        valid = used-IsValid;
        off = off;
        total = refl;
        elapsed = ground arith;
        order = rw more;
        others = λ t ne ne'. ground (arith, ne);
        marks = λ t. ground arith;
        slice = rw more (ground arith);
      },
    )
  ]

-- `n` timer interrupts
unfoldable pub timer_ticks : (n : ℕ) → Sched → Run Sched
timer_ticks zero s = ok s
timer_ticks (suc n) s = do s' ← intr_timer_handler s; timer_ticks n s'

-- From a valid state with interrupts off, where every stack has its mark, a task keeps the
-- processor through `n` timer interrupts if its slice has `n` ticks or more, and has `n` fewer
-- then.
pub timer_ticks-keep :
    (n : ℕ) (s : Sched)
    → IsValid s
    → s.intr ≡ intr_off
    → ((t : Tid) → (s.tasks t).stack_magic ≡ stack_magic_value)
    → n ≤ (s.tasks s.running).ticks
    → Returns
        (λ s'. (turn s' ≡ turn s) × ((s'.tasks s.running).ticks ≡ (s.tasks s.running).ticks - n))
        (timer_ticks n s)
unfolding timer_ticks
timer_ticks-keep zero s v off magic h = (s, refl, (refl, omega arith))
timer_ticks-keep (suc n) s v off magic h =
    let (s1, run, t) = timer-Ticked s v off (magic s.running) in
    let more : ((s.tasks s.running).ticks == 0) ≡ false = ground arith in
    let order : turn s1 ≡ turn s = rw more at t.order in
    let same : s1.running ≡ s.running = cc in
    let slice : (s1.tasks s.running).ticks ≡ (s.tasks s.running).ticks - 1 = rw more at t.slice in
    let left : (s1.tasks s1.running).ticks ≡ (s.tasks s.running).ticks - 1 = rw same slice in
    let (s2, runs, (order2, slice2)) =
      timer_ticks-keep n s1 t.valid t.off (λ u. t.marks u ∙ magic u) (omega arith) in
    (s2, rw (run, runs), (order2 ∙ order, (rw same at slice2) ∙ omega arith))
