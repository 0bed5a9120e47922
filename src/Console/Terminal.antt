-- ===== src/Console/Terminal.antt =====
-- Threads that print through device/console.c, interrupted by the timer at any character: the steps of
-- Contention for the console's lock, and `put_char` of the thread that has it.
use os_learning.Base.{ℕ, ◌≡◌, ◌≢◌, List, [], ◌∷◌, ◌++◌, if◌then◌else◌, update}
use os_learning.Base.Run.{ok}
use os_learning.Thread.{Tid, Sched}
use os_learning.Contention.System.{outside, holding, System, place}
use os_learning.Contention.Exclusion.{Action, acquires, releases, May, execute, start}
use os_learning.Contention.Moves.{is_holding}

-- `message t` is the argument of the thread's call, and `left t` what it has still to print. `printed` are the
-- messages whose calls have given the lock up.
pub record Terminal : Type 0 where
  pub system : System
  pub message : Tid → List ℕ
  pub left : Tid → List ℕ
  pub screen : List ℕ
  pub printed : List (List ℕ)

abbrev pub runs : Terminal → Tid
runs z = z.system.sched.running

abbrev pub blank : Sched → Terminal
blank s = record { system = start s; message = λ t. []; left = λ t. []; screen = []; printed = [] }

abbrev pub concat : List (List ℕ) → List ℕ
concat [] = []
concat (xs ∷ xss) = xs ++ concat xss

-- a call with a message asks for the lock
abbrev pub asks : (xs : List ℕ) → (y' : System) → Terminal → Terminal
asks xs y' z = record z {
  system = y';
  message = update z.message (runs z) xs;
  left = update z.left (runs z) xs;
}

-- one character, and the rest of the message
abbrev pub puts : (c : ℕ) → (cs : List ℕ) → Terminal → Terminal
puts c cs z = record z { left = update z.left (runs z) cs; screen = z.screen ++ (c ∷ []) }

-- `console_release`
abbrev pub finishes : (y' : System) → Terminal → Terminal
finishes y' z = record z {
  system = y';
  printed =
      if is_holding (y'.point (runs z)) then z.printed else z.printed ++ (z.message (runs z) ∷ []);
}

pub data Prints (s : Sched) : Terminal → Type 0 where
  starts : Prints s (blank s)
  calls :
      {z : Terminal} {y' : System} (xs : List ℕ)
      → Prints s z
      → place z.system ≡ outside
      → execute acquires z.system ≡ ok y'
      → Prints s (asks xs y' z)
  shows :
      {z : Terminal} (c : ℕ) (cs : List ℕ)
      → Prints s z
      → place z.system ≡ holding
      → z.left (runs z) ≡ c ∷ cs
      → Prints s (puts c cs z)
  ends :
      {z : Terminal} {y' : System}
      → Prints s z
      → place z.system ≡ holding
      → z.left (runs z) ≡ []
      → execute releases z.system ≡ ok y'
      → Prints s (finishes y' z)
  moves :
      {z : Terminal} {y' : System} (a : Action)
      → Prints s z
      → a ≢ acquires
      → a ≢ releases
      → May a z.system
      → execute a z.system ≡ ok y'
      → Prints s (record z { system = y' })
