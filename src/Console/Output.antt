-- ===== src/Console/Output.antt =====
-- What the calls of device/console.c put on the screen.
use os_learning.Base.{
  ℕ, zero, suc, ◌+◌, ◌<◌, ◌≡◌, ◌≢◌, refl, ap, ◌∙◌, Bool, true, false, List, [], ◌∷◌, ◌++◌, map,
  length, ◌==◌, arith, inl, has,
}
use os_learning.Base.Run.{Run, ok, Returns}
use os_learning.CString.{Ptr, Memory, Holds}
use os_learning.Interrupt.Handlers.{Output, put_char, put_int}
use os_learning.Thread.{Sched, Tid, IsValid}
use os_learning.Sync.{lock_acquire}
use os_learning.Sync.Locks.{
  IsFree, IsHeld, lock_acquire-free, lock_acquire-release, WaitsFor, lock_acquire-WaitsFor,
}
use os_learning.Console.Defs.{
  Console, put_str, locked_output, console_put_str, console_put_int, console_put_char,
}

put_str-map :
    (fuel : ℕ) (str : Ptr) (mem : Memory) (xs : List ℕ)
    → Holds mem str xs
    → length xs < fuel
    → put_str fuel str mem ≡ ok (map put_char xs)
unfolding put_str
put_str-map zero str mem xs h f = absurd (omega arith)
put_str-map (suc fuel) str mem [] h f =
    let e : (mem str == 0) ≡ true = ground arith in rw (e, put_str)
put_str-map (suc fuel) str mem (x ∷ xs) h f =
    let e : (mem str == 0) ≡ false = ground (arith, h.0, h.1) in
    rw (e, put_str-map fuel (str + 1) mem xs h.2 (omega arith), h.0, put_str)

-- With the lock free, the output is appended, and the lock and the scheduler are as before.
locked_output-free :
    (output : Run (List Output)) (out : List Output) (console : Console) (s : Sched)
    → output ≡ ok out
    → IsFree console.console_lock
    → locked_output output console s
      ≡ ok (true, record console { screen = console.screen ++ out }, s)
unfolding locked_output
locked_output-free output out console s e free =
    let back = lock_acquire-release console.console_lock s 1 (inl free) (omega arith) in
    let lets = rw (lock_acquire-free console.console_lock s free) at back in
    rw (lock_acquire-free console.console_lock s free, e) (rw lets refl)

-- With the console's lock free, each of the three calls returns with its output behind what was on
-- the screen, and the lock and the scheduler's state as they were.
pub console_put-Shows :
    (fuel : ℕ) (str : Ptr) (mem : Memory) (xs : List ℕ) (num chr : ℕ) (console : Console)
    (s : Sched)
    → Holds mem str xs
    → length xs < fuel
    → IsFree console.console_lock
    → (console_put_str fuel str mem console s
        ≡ ok (true, record console { screen = console.screen ++ map put_char xs }, s))
      × (console_put_int num console s
          ≡ ok (true, record console { screen = console.screen ++ (put_int num ∷ []) }, s))
      × (console_put_char chr console s
          ≡ ok (true, record console { screen = console.screen ++ (put_char chr ∷ []) }, s))
unfolding console_put_str console_put_int console_put_char
console_put-Shows fuel str mem xs num chr console s held few free = (
  locked_output-free _ _ console s (put_str-map fuel str mem xs held few) free,
  locked_output-free _ _ console s refl free,
  locked_output-free _ _ console s refl free,
)

-- The caller waits for the console's lock, nothing is on the screen, and `next` runs.
abbrev pub Waits : Console → Sched → Tid → List Tid → Bool × Console × Sched → Type 0
Waits console s next rest (passed, console', s') =
    (console'.screen ≡ console.screen)
    × WaitsFor console.console_lock s next rest (passed, console'.console_lock, s')

module _ (console : Console) (s : Sched) (holder : Tid) (n : ℕ) (next : Tid) (rest : List Tid)
    (held : IsHeld console.console_lock holder n) (other : holder ≢ s.running)
    (new : has s.running console.console_lock.semaphore.waiters ≡ false) (v : IsValid s)
    (q : s.ready ≡ next ∷ rest) where
  locked_output-Waits :
      (output : Run (List Output))
      → Returns (Waits console s next rest) (locked_output output console s)
  unfolding locked_output
  locked_output-Waits output =
      let ((passed, lock, s'), run, w) =
        lock_acquire-WaitsFor console.console_lock s holder n next rest held other new v q in
      let stops : lock_acquire console.console_lock s ≡ ok (false, lock, s') =
        run ∙ ap (λ b. ok (b, lock, s')) w.0 in
      ((false, record console { console_lock = lock }, s'), rw stops refl, (refl, (refl, w.1, w.2)))

  -- From a valid state with `next` first of the ready queue, where another thread holds the
  -- console's lock, for whose waiters the caller is new, each of the three calls puts nothing on
  -- the screen: the caller is behind the waiters and blocked, the lock is else as it was, and
  -- `next` runs.
  pub console_put-Waits :
      (fuel : ℕ) (str : Ptr) (mem : Memory) (num chr : ℕ)
      → Returns (Waits console s next rest) (console_put_str fuel str mem console s)
        × Returns (Waits console s next rest) (console_put_int num console s)
        × Returns (Waits console s next rest) (console_put_char chr console s)
  unfolding console_put_str console_put_int console_put_char
  console_put-Waits fuel str mem num chr = (
    locked_output-Waits (put_str fuel str mem),
    locked_output-Waits (ok (put_int num ∷ [])),
    locked_output-Waits (ok (put_char chr ∷ [])),
  )
