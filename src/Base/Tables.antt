-- ===== src/Base/Tables.antt =====
-- Facts over a small range of numbers, by evaluation at each of them.
use Prim.Native.Nat.{ℕ, zero, suc, ◌<◌}
use mathlib.Core.Path.{◌≡◌}
use mathlib.Core.Bool.{Bool, true, ◌&&◌}
use native.Mathlib.Omega.{arith}

-- whether the check passes at every number below the bound
unfoldable pub all_below : (bound : ℕ) (check : ℕ → Bool) → Bool
all_below (suc top) check = check top && all_below top check
all_below zero check = true

pub all_below_sound :
    (bound : ℕ) (check : ℕ → Bool) (at : ℕ)
    → all_below bound check ≡ true
    → at < bound
    → check at ≡ true
unfolding all_below
all_below_sound (suc top) check at passed below = ground (arith, all_below_sound top check at)
all_below_sound zero check at passed below = absurd (omega arith)
