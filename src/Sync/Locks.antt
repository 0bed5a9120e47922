-- ===== src/Sync/Locks.antt =====
-- `lock_acquire` and `lock_release` of thread/sync.c.
use os_learning.Base.{
  ℕ, ◌∙◌, ◌+◌, ◌-◌, ◌%◌, ◌^◌, ◌<◌, ◌≡◌, ◌≢◌, refl, ◌⊎◌, inl, inr, ap, Bool, true, false, ◌++◌, has,
  Option, none, some, List, [], ◌∷◌, arith, ltb, ◌==◌,
}
use os_learning.Base.Run.{Run, ok, panic, ◌>>=◌, Returns}
use os_learning.Thread.{task_blocked, Tid, Sched, status_of, is_blocked, IsValid}
use os_learning.Sync.Defs.{
  Semaphore, Lock, sema_up, is_holder, lock_take, lock_drop, lock_acquire, lock_release,
}
use os_learning.Thread.Block.{Blocked}
use os_learning.Sync.Semaphores.{
  sema_down-Waits, sema_down-passes, sema_up-idle, sema_up-Wakes, Wakes,
}

-- free, with the semaphore at 1
pub record IsFree (plock : Lock) : Type 0 where
  pub no_holder : plock.holder ≡ none
  pub none_waits : plock.semaphore.waiters ≡ []
  pub up : plock.semaphore.value ≡ 1
  pub unused : plock.holder_repeat_nr ≡ 0

-- held by `t`, `n` times
pub record IsHeld (plock : Lock) (t : Tid) (n : ℕ) : Type 0 where
  pub owner : plock.holder ≡ some t
  pub down : plock.semaphore.value ≡ 0
  pub times : plock.holder_repeat_nr ≡ n
  pub taken : 0 < n

-- A free lock goes to the caller, once; nothing else of the state changes.
pub lock_acquire-free :
    (plock : Lock) (s : Sched)
    → IsFree plock
    → lock_acquire plock s
      ≡ ok (
        true,
        record {
          holder = some s.running;
          semaphore = record plock.semaphore { value = 0 };
          holder_repeat_nr = 1;
        },
        s,
      )
unfolding lock_acquire lock_take
lock_acquire-free plock s f = rw (f.no_holder, sema_down-passes plock.semaphore s f.up, f.unused)

lock_acquire-again :
    (plock : Lock) (s : Sched) (n : ℕ)
    → IsHeld plock s.running n
    → n + 1 < 2 ^ 32
    → lock_acquire plock s ≡ ok (true, record plock { holder_repeat_nr = n + 1 }, s)
unfolding lock_acquire
lock_acquire-again plock s n h small =
    let me : is_holder plock s.running ≡ true = rw h.owner (ground arith) in
    let e : (plock.holder_repeat_nr + 1) % 2 ^ 32 ≡ n + 1 = omega (arith, h.times) in
    rw (me, e, lock_acquire)

lock_release-again :
    (plock : Lock) (s : Sched) (n : ℕ)
    → IsHeld plock s.running n
    → 1 < n
    → lock_release plock s ≡ ok (record plock { holder_repeat_nr = n - 1 }, s)
unfolding lock_release lock_drop
lock_release-again plock s n h many =
    let me : (s.running == s.running) ≡ true = ground arith in
    let e : ltb 1 n ≡ true = ground arith in rw (h.owner, me, h.times, e)

-- the last release, with the answer of `sema_up`
lock_release-last :
    (plock : Lock) (s : Sched) (r : Semaphore × Sched)
    → IsHeld plock s.running 1
    → sema_up plock.semaphore s ≡ ok r
    → lock_release plock s
      ≡ ok (record { holder = none; semaphore = r.0; holder_repeat_nr = 0 }, r.1)
unfolding lock_release lock_drop
lock_release-last plock s r h e =
    let me : (s.running == s.running) ≡ true = ground arith in rw (h.owner, me, h.times, e)

-- `lock_acquire` and then `lock_release`
abbrev pub lock_and_release : Lock → Sched → Run (Lock × Sched)
lock_and_release plock s = do (passed, plock1, s1) ← lock_acquire plock s; lock_release plock1 s1

-- For a lock that is free, or that the caller holds `n` times with `n + 1` below 2^32,
-- `lock_acquire` and then `lock_release` pass, and give back the lock and the scheduler's state as
-- they were.
pub lock_acquire-release :
    (plock : Lock) (s : Sched) (n : ℕ)
    → IsFree plock ⊎ IsHeld plock s.running n
    → n + 1 < 2 ^ 32
    → lock_and_release plock s ≡ ok (plock, s)
lock_acquire-release plock s n (inl f) small = rw (lock_acquire-free plock s f) (
    lock_release-last _ s _
      (record { owner = refl; down = refl; times = refl; taken = omega arith })
      (sema_up-idle _ s refl f.none_waits)
    ∙ rw (f.no_holder, f.none_waits, f.up, f.unused))
lock_acquire-release plock s n (inr h) small =
    let back : n + 1 - 1 ≡ plock.holder_repeat_nr = omega (arith, h.times) in
    rw (lock_acquire-again plock s n h small) (
      lock_release-again (record plock { holder_repeat_nr = n + 1 }) s (n + 1)
        (record { owner = h.owner; down = h.down; times = refl; taken = omega arith })
        (omega (arith, h.taken))
      ∙ rw back)

-- The last release of a lock that others wait for wakes the first of them, and leaves the lock free.
abbrev pub HandsOn : Lock → Sched → Tid → List Tid → Lock × Sched → Type 0
HandsOn plock s t rest (plock', s') =
    (plock'.holder ≡ none) × (plock'.holder_repeat_nr ≡ 0) × Wakes s t rest (plock'.semaphore, s')

-- From a valid state, where the caller holds the lock once and a stopped task waits first for it,
-- `lock_release` returns with the lock without a holder, its semaphore at 1, that task out of the
-- waiters and first of the ready queue.
pub lock_release-HandsOn :
    (plock : Lock) (s : Sched) (t : Tid) (rest : List Tid)
    → IsHeld plock s.running 1
    → plock.semaphore.waiters ≡ t ∷ rest
    → IsValid s
    → is_blocked (status_of s t) ≡ true
    → Returns (HandsOn plock s t rest) (lock_release plock s)
lock_release-HandsOn plock s t rest h q v b =
    let (r, run, w) = sema_up-Wakes plock.semaphore s t rest h.down q v b in
    (_, lock_release-last plock s r h run, (refl, refl, w))

not_mine :
    (h : Option Tid) (t : Tid) → h ≢ some t → (elim h [ none ↦ false | some u ↦ u == t ]) ≡ false
not_mine none t ne = refl
not_mine (some u) t ne = ground (arith, ne)

-- A thread that is not the holder fails the ASSERT of `lock_release`.
pub lock_release-panic :
    (plock : Lock) (s : Sched) → plock.holder ≢ some s.running → lock_release plock s ≡ panic
unfolding lock_release lock_drop
lock_release-panic plock s ne = rw (not_mine plock.holder s.running ne, lock_drop)

-- The caller has gone to the end of the lock's waiters and stopped, the lock is else as it was, and `next`
-- runs.
abbrev pub WaitsFor : Lock → Sched → Tid → List Tid → Bool × Lock × Sched → Type 0
WaitsFor plock s next rest (passed, plock', s') =
    (passed ≡ false)
    × (plock' ≡ record plock {
      semaphore = record plock.semaphore { waiters = plock.semaphore.waiters ++ (s.running ∷ []) };
    })
    × Blocked s task_blocked next rest s'

-- From a valid state with `next` first of the ready queue, `lock_acquire` of a lock that another
-- thread holds, for whose waiters the caller is new, puts the caller behind the waiters, changes
-- nothing else of the lock, blocks the caller, and `next` runs.
pub lock_acquire-WaitsFor :
    (plock : Lock) (s : Sched) (holder : Tid) (n : ℕ) (next : Tid) (rest : List Tid)
    → IsHeld plock holder n
    → holder ≢ s.running
    → has s.running plock.semaphore.waiters ≡ false
    → IsValid s
    → s.ready ≡ next ∷ rest
    → Returns (WaitsFor plock s next rest) (lock_acquire plock s)
unfolding lock_acquire
lock_acquire-WaitsFor plock s holder n next rest h ne out v q =
    let ((passed, psema, s'), run, w) =
      sema_down-Waits plock.semaphore s next rest h.down out v q in
    let not_me : is_holder plock s.running ≡ false = rw h.owner (ground (arith, ne)) in
    let blocks = run ∙ ap (λ b. ok (b, psema, s')) w.blocked in
    (
      (false, record plock { semaphore = psema }, s'),
      rw (not_me, blocks, lock_acquire),
      (refl, ap (λ p. record plock { semaphore = p }) w.sema, w.sched),
    )
