-- ===== src/Thread/Valid.antt =====
-- What the parts of `schedule` do to the invariant.
use os_learning.Base.{
  ◌≡◌, refl, sym, ap, Bool-cases, ◌≢◌, inl, inr, true, false, ◌||◌, List, [], ◌∷◌, ◌++◌, arith,
  ◌==◌, if◌then◌else◌, has, Distinct, has-append, Distinct-of_parts,
}
use mathlib.Core.Path.{subst}
use os_learning.Base.Run.{ok, Returns}
use os_learning.Thread.Defs.{
  Tid, TaskStatus, task_running, task_ready, Sched, status_of, set_task, set_status, is_blocked,
  process_activate, put_back, run_next, IsValid,
}

-- The invariant between the two parts of `schedule`, when no task runs.
pub record IsWaiting (s : Sched) : Type 0 where
  pub none_runs : (t : Tid) → status_of s t ≢ task_running
  pub queued : (t : Tid) → has t s.ready ≡ true → status_of s t ≡ task_ready
  pub ready_in : (t : Tid) → status_of s t ≡ task_ready → has t s.ready ≡ true
  pub distinct : Distinct s.ready

module _ (s : Sched) (v : IsValid s) where
  pub running-not_queued : has s.running s.ready ≡ false
  running-not_queued = ground (arith, v.runs, v.queued s.running)

  -- where the running task still runs
  abbrev pub returned : Sched
  returned =
      record (set_task s s.running (record (s.tasks s.running) {
        ticks = (s.tasks s.running).priority;
        status = task_ready;
      })) { ready = s.ready ++ (s.running ∷ []) }

  pub put_back-eq : put_back s ≡ ok returned
  unfolding put_back
  put_back-eq = rw (v.runs, running-not_queued)

  pub returned-IsWaiting : IsWaiting returned
  returned-IsWaiting = record {
    none_runs = λ t e. ground (arith, v.alone t, e);
    queued = λ t i. ground (arith, has-append t s.ready (s.running ∷ []), v.queued t, i);
    ready_in = λ t e. ground (arith, has-append t s.ready (s.running ∷ []), v.ready_in t, e);
    distinct =
        Distinct-of_parts s.ready (s.running ∷ []) v.distinct (refl, tt)
          (λ a i. ground (arith, running-not_queued));
  }

  -- where `thread_block` has changed its status
  module _ (stat : TaskStatus) (b : is_blocked stat ≡ true) where
    pub put_back-stopped : put_back (set_status s s.running stat) ≡ ok (set_status s s.running stat)
    unfolding put_back
    put_back-stopped = ground (arith, b)

    pub stopped-IsWaiting : IsWaiting (set_status s s.running stat)
    stopped-IsWaiting = record {
      none_runs = λ t e. ground (arith, v.alone t, e, b);
      queued = λ t i. ground (arith, v.queued t i, running-not_queued, i);
      ready_in = λ t e. ground (arith, v.ready_in t, e, b);
      distinct = v.distinct;
    }

-- The state in which the head of the queue runs.
pub record Switched (s : Sched) (next : Tid) (rest : List Tid) (s' : Sched) : Type 0 where
  pub valid : IsValid s'
  pub runs : s'.running ≡ next
  pub queue : s'.ready ≡ rest
  pub same_intr : s'.intr ≡ s.intr
  pub space :
      s'.cr3 ≡ (if (s.tasks next).pgdir == 0 then 0x100000 else s.addr_v2p (s.tasks next).pgdir)
  pub others : (t : Tid) → t ≢ next → s'.tasks t ≡ s.tasks t
  pub slices : (t : Tid) → (s'.tasks t).ticks ≡ (s.tasks t).ticks
  pub elapsed : (t : Tid) → (s'.tasks t).elapsed_ticks ≡ (s.tasks t).elapsed_ticks
  pub marks : (t : Tid) → (s'.tasks t).stack_magic ≡ (s.tasks t).stack_magic
  pub same_ticks : s'.ticks ≡ s.ticks

-- what `process_activate` leaves alone, and the address space that it chooses
record Activated (t : Tid) (s s' : Sched) : Type 0 where
  tasks : s'.tasks ≡ s.tasks
  ready : s'.ready ≡ s.ready
  intr : s'.intr ≡ s.intr
  ticks : s'.ticks ≡ s.ticks
  cr3 : s'.cr3 ≡ (if (s.tasks t).pgdir == 0 then 0x100000 else s.addr_v2p (s.tasks t).pgdir)

process_activate-Activated : (t : Tid) (s : Sched) → Activated t s (process_activate t s)
unfolding process_activate
process_activate-Activated t s = elim (Bool-cases ((s.tasks t).pgdir == 0)) [
  | inl e ↦ rw e (record { tasks = refl; ready = refl; intr = refl; ticks = refl; cr3 = rw e })
  | inr e ↦ rw e (record { tasks = refl; ready = refl; intr = refl; ticks = refl; cr3 = rw e })
]

module _ (s : Sched) (next : Tid) (rest : List Tid) (w : IsWaiting s)
    (e : s.ready ≡ next ∷ rest) where
  -- the state when `process_activate` is called
  abbrev chosen : Sched
  chosen = set_status (record s { ready = rest }) next task_running

  next_in : has next s.ready ≡ true
  next_in = rw e (ground arith)

  next_once : has next rest ≡ false
  next_once = let d : Distinct (next ∷ rest) = rw e at w.distinct in d.0

  in_rest : (t : Tid) → has t s.ready ≡ ((t == next) || has t rest)
  in_rest t = ap (has t) e

  chosen-IsValid : IsValid (record chosen { running = next })
  chosen-IsValid = record {
    runs = ground arith;
    alone = λ t i. ground (arith, w.none_runs t, i);
    queued = λ t i. ground (arith, w.queued t, in_rest t, next_once, i);
    ready_in = λ t i. ground (arith, w.ready_in t, in_rest t, i);
    distinct = let d : Distinct (next ∷ rest) = rw e at w.distinct in d.1;
  }

  pub run_next-Switched : Returns (Switched s next rest) (run_next (next ∷ rest) s)
  unfolding run_next
  run_next-Switched = (
    _,
    refl,
    record {
      valid = record {
        runs = rw a.tasks c.runs;
        alone = rw a.tasks c.alone;
        queued = rw (a.tasks, a.ready) c.queued;
        ready_in = rw (a.tasks, a.ready) c.ready_in;
        distinct = rw a.ready c.distinct;
      };
      runs = refl;
      queue = a.ready;
      same_intr = a.intr;
      space = ground (arith, a.cr3);
      others = λ t ne. rw a.tasks (ground (arith, ne));
      slices = λ t. rw a.tasks (ground arith);
      elapsed = λ t. rw a.tasks (ground arith);
      marks = λ t. rw a.tasks (ground arith);
      same_ticks = a.ticks;
    },
  )
    where
      a : Activated next chosen (process_activate next chosen)
      a = process_activate-Activated next chosen

      c : IsValid (record chosen { running = next })
      c = chosen-IsValid

  -- as `schedule` calls it
  pub run_next-ready : Returns (Switched s next rest) (run_next s.ready s)
  run_next-ready =
      subst (λ q. Returns (Switched s next rest) (run_next q s)) (sym e) run_next-Switched
