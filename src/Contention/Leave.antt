-- ===== src/Contention/Leave.antt =====
-- `signal`, the `sema_up` of `lock_release`, keeps the invariant.
use os_learning.Base.{
  ◌≡◌, ◌≢◌, refl, ap, ◌∙◌, true, ◌||◌, some, List, [], ◌∷◌, arith, ◌==◌, has, Distinct,
}
use os_learning.Base.Run.{ok, Returns}
use os_learning.Thread.{Tid, task_ready, Sched, status_of, is_blocked}
use os_learning.Thread.Block.{Unblocked}
use os_learning.Thread.Schedule.{turn}
use os_learning.Sync.{Semaphore}
use os_learning.Sync.Semaphores.{sema_up-idle, sema_up-Wakes}
use os_learning.Contention.System.{outside, leaving, System, place, move_to, signal}
use os_learning.Contention.Invariant.{Inv, is_inner, waiters, value}

module _ (y : System) (i : Inv y) (e : place y ≡ leaving) where
  only : (t : Tid) → is_inner (y.point t) ≡ true → t ≡ y.sched.running
  only t inner = i.unique t y.sched.running inner (rw e refl)

  none_holds : (t : Tid) → y.lock.holder ≢ some t
  none_holds t h = absurd (ground (arith, i.holds t h, only t))

  zero : value y ≡ 0
  zero = ground (arith, i.binary, i.free y.sched.running)

  abbrev left : Semaphore → Sched → System
  left psema s = record (move_to outside y) {
    lock = record y.lock { semaphore = psema };
    sched = s;
  }

  idle-Inv : waiters y ≡ [] → Inv (left (record { value = 1; waiters = [] }) y.sched)
  idle-Inv q = record {
    sched = i.sched;
    marked = i.marked;
    flag = ground (arith, i.flag);
    waits = λ t h. cc;
    at_wait = λ t h. cc;
    listed = λ t p b. ground (arith, i.listed t, ap (λ l. has t l) q, p, b);
    distinct = tt;
    binary = omega arith;
    unique = λ t u a b. ground (arith, only t, only u, a, b);
    free = λ t one. ground (arith, only t);
    taken = λ z. absurd (omega arith);
    alive = λ t a. ground (arith, only t, a);
    holds = λ t h. absurd (none_holds t h);
    held = λ t h. ground (arith, i.held t, h);
    idle = i.idle;
    counted = i.counted;
    saved_on = λ t h. ground (arith, i.saved_on t, h);
    woken = λ u one h. cc;
  }

  module _ (t : Tid) (rest : List Tid) (q : waiters y ≡ t ∷ rest) (s' : Sched)
      (u : Unblocked y.sched t s') where
    first : has t (waiters y) ≡ true
    first = rw q (ground arith)

    once : Distinct (t ∷ rest)
    once = rw q at i.distinct

    in_waiters : (x : Tid) → has x (waiters y) ≡ (x == t || has x rest)
    in_waiters x = ap (has x) q

    now_ready : status_of s' t ≡ task_ready
    now_ready = u.valid.queued t (rw u.queue (ground arith))

    same_status : (x : Tid) → x ≢ t → status_of s' x ≡ status_of y.sched x
    same_status x ne = ap (λ task. task.status) (u.others x ne)

    now_turn :
        (x : Tid) → has x (turn s') ≡ (x == y.sched.running || (x == t || has x y.sched.ready))
    now_turn x = ground (arith, u.runs, ap (λ l. has x l) u.queue)

    woken-Inv : Inv (left (record { value = 1; waiters = rest }) s')
    woken-Inv = record {
      sched = u.valid;
      marked = λ x. u.marks x ∙ i.marked x;
      flag = ground (arith, i.flag, u.runs, u.same_intr);
      waits = λ x h. ground (arith, in_waiters x, once.0, same_status x, i.waits x, h);
      at_wait = λ x h. ground (arith, in_waiters x, i.at_wait x, h);
      listed = λ x p b. ground (arith, in_waiters x, i.listed x, same_status x, now_ready, p, b);
      distinct = once.1;
      binary = omega arith;
      unique = λ x z a b. ground (arith, only x, only z, a, b);
      free = λ x one. ground (arith, only x);
      taken = λ z. absurd (omega arith);
      alive = λ x a. ground (arith, only x, a);
      holds = λ x h. absurd (none_holds x h);
      held = λ x h. ground (arith, i.held x, h);
      idle = i.idle;
      counted = i.counted;
      saved_on = λ x h. ground (arith, i.saved_on x, h);
      woken = λ x one h. (t, ground (arith, i.at_wait t first), ground (arith, now_turn t));
    }

  -- the next waiter is woken, if there is one
  pub signal-Inv : Returns Inv (signal y)
  unfolding signal
  signal-Inv = go (waiters y) refl
    where
      go : (q : List Tid) → waiters y ≡ q → Returns Inv (signal y)
      go [] q = (_, rw (sema_up-idle y.lock.semaphore y.sched zero q), idle-Inv q)
      go (t ∷ rest) q =
          let first : has t (waiters y) ≡ true = rw q (ground arith) in
          let b : is_blocked (status_of y.sched t) ≡ true = ground (arith, i.waits t first) in
          let ((psema, s'), run, w) =
            sema_up-Wakes y.lock.semaphore y.sched t rest zero q i.sched b in
          (
            left (record { value = 1; waiters = rest }) s',
            rw (run ∙ ap (λ m. ok (m, s')) w.sema),
            woken-Inv t rest q s' w.sched,
          )
