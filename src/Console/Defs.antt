-- ===== src/Console/Defs.antt =====
-- The functions of device/console.c, with `put_str` of lib/kernel/print.S. The screen is the list of the
-- calls of `put_char` and `put_int`, which write to the video memory.
use os_learning.Base.{ℕ, zero, suc, ◌+◌, Bool, true, false, List, [], ◌∷◌, ◌++◌, ◌==◌}
use os_learning.Base.Run.{Run, ok, out_of_fuel, ◌>>=◌}
use os_learning.CString.{Ptr, Memory}
use os_learning.Interrupt.Handlers.{Output, put_char, put_int}
use os_learning.Thread.{Sched}
use os_learning.Sync.{Lock, lock_init, lock_acquire, lock_release}

pub record Console : Type 0 where
  pub console_lock : Lock
  pub screen : List Output

-- `console_init` sets the lock and leaves the screen.
unfoldable pub console_init : Console → Console
unfolding lock_init
console_init console = record console { console_lock = lock_init }

-- `false` where the caller has blocked
unfoldable pub console_acquire : Console → Sched → Run (Bool × Console × Sched)
console_acquire console s = do
  (passed, lock, s1) ← lock_acquire console.console_lock s
  ok (passed, record console { console_lock = lock }, s1)

unfoldable pub console_release : Console → Sched → Run (Console × Sched)
console_release console s = do
  (lock, s1) ← lock_release console.console_lock s
  ok (record console { console_lock = lock }, s1)

-- the characters up to the 0, each by `put_char`
unfoldable pub put_str : (fuel : ℕ) (str : Ptr) → Memory → Run (List Output)
put_str zero str mem = out_of_fuel
put_str (suc fuel) str mem = elim (mem str == 0) [
  | true ↦ ok []
  | false ↦ do rest ← put_str fuel (str + 1) mem; ok (put_char (mem str) ∷ rest)
]

-- The three calls differ in what they put on the screen between the two of the lock.
unfoldable pub locked_output : Run (List Output) → Console → Sched → Run (Bool × Console × Sched)
unfolding console_acquire console_release
locked_output output console s = do
  (passed, console1, s1) ← console_acquire console s
  elim passed [
    | false ↦ ok (false, console1, s1)
    | true ↦ do
      out ← output
      (console2, s2) ← console_release (record console1 { screen = console1.screen ++ out }) s1
      ok (true, console2, s2)
  ]

unfoldable pub console_put_str :
    (fuel : ℕ) (str : Ptr) → Memory → Console → Sched → Run (Bool × Console × Sched)
unfolding put_str locked_output
console_put_str fuel str mem = locked_output (put_str fuel str mem)

unfoldable pub console_put_int : (num : ℕ) → Console → Sched → Run (Bool × Console × Sched)
unfolding locked_output
console_put_int num = locked_output (ok (put_int num ∷ []))

unfoldable pub console_put_char : (chr : ℕ) → Console → Sched → Run (Bool × Console × Sched)
unfolding locked_output
console_put_char chr = locked_output (ok (put_char chr ∷ []))
