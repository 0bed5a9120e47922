-- ===== src/Contention/Hold.antt =====
-- The parts of `lock_acquire` and `lock_release` that only change the lock keep the invariant.
use os_learning.Base.{
  ℕ, ◌+◌, ◌-◌, ◌%◌, ◌^◌, ◌<◌, ◌≡◌, ◌≢◌, inl, inr, refl, sym, ap, ◌∙◌, Bool-cases, Option-cases,
  true, none, some, arith, ltb, has, update,
}
use os_learning.Base.Run.{Returns}
use os_learning.Thread.{Tid}
use os_learning.Sync.{Lock, is_holder, lock_take, lock_drop}
use os_learning.Contention.System.{
  Point, entered, holding, leaving, System, place, move_to, acquire, take, release,
}
use os_learning.Contention.Invariant.{Inv, is_inner, waiters, value}

-- the caller stays inside, at `p`, and the other threads stay where they are
module _ (y : System) (i : Inv y) (p : Point) (point : Tid → Point) (lock : Lock) where
  abbrev moved : System
  moved = record y { lock = lock; point = point }

  record Fits : Type 0 where
    from_inner : is_inner (place y) ≡ true
    to_inner : is_inner p ≡ true
    here : point y.sched.running ≡ p
    others : (t : Tid) → t ≢ y.sched.running → point t ≡ y.point t
    same_sema : lock.semaphore ≡ y.lock.semaphore
    holds : (t : Tid) → lock.holder ≡ some t → (t ≡ y.sched.running) × (p ≡ holding)
    held : p ≡ holding → lock.holder ≡ some y.sched.running
    idle : lock.holder ≡ none → lock.holder_repeat_nr ≡ 0
    counted : (t : Tid) → lock.holder ≡ some t → 0 < lock.holder_repeat_nr

  only : Fits → (t : Tid) → is_inner (point t) ≡ true → t ≡ y.sched.running
  only f t e = ground (arith, i.unique t y.sched.running, f.from_inner, f.others t, e)

  -- the running thread still has its turn, and the queue of waiters is the same
  moved-Inv : Fits → Inv moved
  moved-Inv f =
      let w : waiters moved ≡ waiters y = ap (λ m. m.waiters) f.same_sema in
      let v : value moved ≡ value y = ap (λ m. m.value) f.same_sema in
      let free : (t : Tid) → value y ≢ 1 =
        λ t one. ground (arith, i.free y.sched.running one, f.from_inner) in
      record {
        sched = i.sched;
        marked = i.marked;
        flag = ground (arith, i.flag, f.from_inner, f.to_inner, f.here);
        waits = λ t h. i.waits t (ap (has t) (sym w) ∙ h);
        at_wait =
            λ t h. ground (arith, i.at_wait t (ap (has t) (sym w) ∙ h), f.from_inner, f.others t);
        listed = λ t a b.
            ap (has t) w ∙ ground (arith, i.listed t, f.to_inner, f.here, f.others t, a, b);
        distinct = rw w i.distinct;
        binary = rw v i.binary;
        unique = λ t u a b. ground (arith, only f t, only f u, a, b);
        free = λ t one. absurd (free t (sym v ∙ one));
        taken = λ z. (y.sched.running, rw f.here f.to_inner);
        alive = λ t a. ground (arith, only f t a);
        holds = λ t h. ground (arith, f.holds t h, f.here);
        held = λ t h.
            let same : t ≡ y.sched.running = ground (arith, only f t, f.to_inner, h) in
            rw same (f.held (ground (arith, h, same, f.here)));
        idle = f.idle;
        counted = f.counted;
        saved_on = λ t h. ground (arith, i.saved_on t, f.to_inner, f.here, f.others t, h);
        woken = λ u one h. absurd (free u (sym v ∙ one));
      }

-- an inner caller that does not hold the lock meets it free
none_holds :
    (y : System) → Inv y → is_inner (place y) ≡ true → place y ≢ holding → y.lock.holder ≡ none
none_holds y i inner ne = elim (Option-cases y.lock.holder) [
  | inl e ↦ e
  | inr (h, e) ↦ absurd (ground (arith, i.holds h e, i.unique h y.sched.running))
]

-- the caller becomes the holder
pub take-Inv : (y : System) → Inv y → place y ≡ entered → Returns Inv (take y)
unfolding take lock_take
take-Inv y i e =
    let free : y.lock.holder ≡ none =
      none_holds y i (rw e refl) (λ h. absurd (ground (arith, e))) in
    let idle : y.lock.holder_repeat_nr ≡ 0 = i.idle free in
    (
      moved y i holding (update y.point y.sched.running holding)
          (record y.lock { holder = some y.sched.running; holder_repeat_nr = 1 }),
      rw idle refl,
      moved-Inv y i holding _ _ (record {
        from_inner = rw e refl;
        to_inner = refl;
        here = ground arith;
        others = λ t ne. ground arith;
        same_sema = refl;
        holds = λ t h. (ground (arith, h), refl);
        held = λ h. refl;
        idle = λ h. cc;
        counted = λ t h. omega arith;
      }),
    )

-- the holder counts its calls
module _ (y : System) (i : Inv y) (e : place y ≡ holding) where
  holder : y.lock.holder ≡ some y.sched.running
  holder = i.held y.sched.running e

  mine : is_holder y.lock y.sched.running ≡ true
  mine = rw holder (ground arith)

  counted-Inv : (n : ℕ) → 0 < n → Inv (record y { lock = record y.lock { holder_repeat_nr = n } })
  counted-Inv n pos = moved-Inv y i holding y.point _ (record {
    from_inner = rw e refl;
    to_inner = refl;
    here = e;
    others = λ t ne. refl;
    same_sema = refl;
    holds = λ t h. (ground (arith, holder, h), refl);
    held = λ h. holder;
    idle = λ h. absurd (ground (arith, holder, h));
    counted = λ t h. pos;
  })

  pub again-Inv : y.lock.holder_repeat_nr + 1 < 2 ^ 32 → Returns Inv (acquire y)
  unfolding acquire
  again-Inv small =
      let n : (y.lock.holder_repeat_nr + 1) % 2 ^ 32 ≡ y.lock.holder_repeat_nr + 1 = ground arith in
      (_, rw (mine, n) refl, counted-Inv (y.lock.holder_repeat_nr + 1) (omega arith))

  pub release-Inv : Returns Inv (release y)
  unfolding release lock_drop
  release-Inv = elim (Bool-cases (ltb 1 y.lock.holder_repeat_nr)) [
    | inl more ↦
        (_, rw (mine, more) refl, counted-Inv (y.lock.holder_repeat_nr - 1) (ground (arith, more)))
    | inr last ↦
        let one : y.lock.holder_repeat_nr ≡ 1 =
          ground (arith, i.counted y.sched.running holder, last) in
        (
          record (move_to leaving y) {
            lock = record y.lock { holder = none; holder_repeat_nr = 0 };
          },
          rw (mine, one) refl,
          moved-Inv y i leaving _ _ (record {
            from_inner = rw e refl;
            to_inner = refl;
            here = ground arith;
            others = λ t ne. ground arith;
            same_sema = refl;
            holds = λ t h. absurd cc;
            held = λ h. absurd cc;
            idle = λ h. refl;
            counted = λ t h. absurd cc;
          }),
        )
  ]
