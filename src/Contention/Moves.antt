-- ===== src/Contention/Moves.antt =====
-- How an action moves the points of the threads.
use mathlib.Core.Path.{subst}
use os_learning.Base.{
  ◌+◌, ◌%◌, ◌^◌, ◌≡◌, ◌≢◌, refl, sym, ◌∙◌, ◌⊎◌, inl, inr, Bool, Bool-cases, true, false,
  if◌then◌else◌, update, arith,
}
use os_learning.Base.Run.{Run, ok, ◌>>=◌, panic, fault, out_of_fuel}
use os_learning.Interrupt.{IntrStatus, intr_disable, intr_off}
use os_learning.Thread.{Tid, Sched, intr_timer_handler}
use os_learning.Sync.{
  Semaphore, Lock, is_holder, sema_down, sema_resume, lock_take, lock_drop, sema_up,
}
use os_learning.Contention.System.{
  Point, outside, waiting, entered, holding, leaving, System, place, move_to, flag_at, after_down,
  acquire, resume, take, release, signal, preempt,
}
use os_learning.Contention.Exclusion.{
  Action, acquires, resumes, takes, releases, signals, interrupted, execute,
}

abbrev pub is_holding : Point → Bool
is_holding holding = true
is_holding _ = false

-- the point to which an action moves the running thread
abbrev pub Lands : Action → (from to : Point) → Type 0
Lands acquires from to = (to ≡ from) ⊎ (is_holding to ≡ false)
Lands resumes from to = is_holding to ≡ false
Lands takes from to = to ≡ holding
Lands releases from to = (to ≡ from) ⊎ (to ≡ leaving)
Lands signals from to = to ≡ outside
Lands interrupted from to = to ≡ from

-- Only the running thread moves.
pub record Moves (a : Action) (y y' : System) : Type 0 where
  pub lands : Lands a (place y) (y'.point y.sched.running)
  pub others : (t : Tid) → t ≢ y.sched.running → y'.point t ≡ y.point t

-- an action that is known by the system behind it
moves-by : (a : Action) (y w y' : System) → ok w ≡ ok y' → Moves a y w → Moves a y y'
moves-by a y w y' e m = let same : w ≡ y' = cc in rw (← same) m

-- the running thread at `to`, and the others where they were
moved :
    (a : Action) (y w : System) (to : Point)
    → ((t : Tid) → w.point t ≡ update y.point y.sched.running to t)
    → Lands a (place y) to
    → Moves a y w
moved a y w to h l =
    let self : update y.point y.sched.running to y.sched.running ≡ to = ground arith in
    record {
      lands = subst (Lands a (place y)) (sym (h y.sched.running ∙ self)) l;
      others = λ t ne. h t ∙ ground arith;
    }

stays :
    (a : Action) (y w : System)
    → ((t : Tid) → w.point t ≡ y.point t)
    → Lands a (place y) (place y)
    → Moves a y w
stays a y w h l = record {
  lands = subst (Lands a (place y)) (sym (h y.sched.running)) l;
  others = λ t ne. h t;
}

down-Moves :
    (a : Action) (y : System) (old : IntrStatus) (r : Bool × Semaphore × Sched)
    → Lands a (place y) entered
    → Lands a (place y) waiting
    → Moves a y (after_down y old r)
down-Moves a y old (true, psema, s) l l' = moved a y _ entered (λ t. refl) l
down-Moves a y old (false, psema, s) l l' = moved a y _ waiting (λ t. refl) l'

-- whatever a call gives
returns-Moves :
    {A : Type 0} (act : Action) (y y' : System) (m : Run A) (g : A → System)
    → (m >>= λ a. ok (g a)) ≡ ok y'
    → ((a : A) → Moves act y (g a))
    → Moves act y y'
returns-Moves act y y' (ok a) g e h = moves-by act y (g a) y' e (h a)
returns-Moves act y y' panic g e h = cc
returns-Moves act y y' fault g e h = cc
returns-Moves act y y' out_of_fuel g e h = cc

released : System → Bool × Lock → System
released y (true, lock) = record (move_to leaving y) { lock = lock }
released y (false, lock) = record y { lock = lock }

release-eq :
    (y : System) → release y ≡ (lock_drop y.sched.running y.lock >>= λ r. ok (released y r))
unfolding release released
release-eq y = split (lock_drop y.sched.running y.lock)
  where
    split :
        (m : Run (Bool × Lock))
        → (m >>= λ r. ok (record (if r.0 then move_to leaving y else y) { lock = r.1 }))
          ≡ (m >>= λ r. ok (released y r))
    split (ok (true, lock)) = refl
    split (ok (false, lock)) = refl
    split panic = refl
    split fault = refl
    split out_of_fuel = refl

pub execute-Moves : (a : Action) (y y' : System) → execute a y ≡ ok y' → Moves a y y'
unfolding acquire resume take signal preempt released
execute-Moves acquires y y' e = elim (Bool-cases (is_holder y.lock y.sched.running)) [
  | inl mine ↦
      let again : System = record y {
        lock = record y.lock { holder_repeat_nr = (y.lock.holder_repeat_nr + 1) % 2 ^ 32 };
      } in
      moves-by acquires y again y' (rw mine at e) (stays acquires y again (λ t. refl) (inl refl))
  | inr other ↦
      let old : IntrStatus = (intr_disable y.sched.intr).0 in
      returns-Moves acquires y y' (sema_down y.lock.semaphore y.sched) (after_down y old)
        (rw other at e) (λ r. down-Moves acquires y old r (inr refl) (inr refl))
]
execute-Moves resumes y y' e =
    let old : IntrStatus = y.saved y.sched.running in
    returns-Moves resumes y y' (sema_resume old y.lock.semaphore y.sched) (after_down y old) e
      (λ r. down-Moves resumes y old r refl refl)
execute-Moves takes y y' e =
    returns-Moves takes y y' (lock_take y.sched.running y.lock)
      (λ lock. record (move_to holding y) { lock = lock }) e
      (λ lock. moved takes y _ holding (λ t. refl) refl)
execute-Moves releases y y' e =
    returns-Moves releases y y' (lock_drop y.sched.running y.lock) (released y)
      (sym (release-eq y) ∙ e) drop
  where
    drop : (r : Bool × Lock) → Moves releases y (released y r)
    drop (true, lock) = moved releases y _ leaving (λ t. refl) (inr refl)
    drop (false, lock) = stays releases y _ (λ t. refl) (inl refl)
execute-Moves signals y y' e =
    returns-Moves signals y y' (sema_up y.lock.semaphore y.sched)
      (λ (psema, s). record (move_to outside y) {
        lock = record y.lock { semaphore = psema };
        sched = s;
      })
      e (λ r. moved signals y _ outside (λ t. refl) refl)
execute-Moves interrupted y y' e =
    returns-Moves interrupted y y' (intr_timer_handler (record y.sched { intr = intr_off }))
      (λ s. record y { sched = record s { intr = flag_at (y.point s.running) } }) e
      (λ s. stays interrupted y _ (λ t. refl) refl)
