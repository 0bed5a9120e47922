-- ===== src/Base/Run.antt =====
-- The outcome of a call in the kernel. `panic` is a failed ASSERT or a PANIC: `panic_spin` never
-- returns. `fault` is an access outside the memory that the model describes. `out_of_fuel` is a
-- loop that outlives the rounds that it is given.
use mathlib.Core.Path.{◌≡◌, refl, subst}
use mathlib.Core.Bool.{Bool, true, false}
use mathlib.Core.Option.{Option, none, some}

pub data Run {ℓ} (A : Type ℓ) : Type ℓ where
  panic fault out_of_fuel : Run A
  ok : A → Run A

-- The next call runs only where this one has returned.
abbrev pub ◌>>=◌ {ℓ κ} : {A : Type ℓ} {B : Type κ} → Run A → (A → Run B) → Run B
out_of_fuel >>= rest = out_of_fuel
panic >>= rest = panic
fault >>= rest = fault
ok value >>= rest = rest value

abbrev pub ◌>>◌ {ℓ} : {B : Type ℓ} → Run (Unit {0}) → Run B → Run B
call >> rest = call >>= λ _. rest

infixl 5 ◌>>=◌ ◌>>◌
-- `ASSERT(b)` of kernel/debug.h
abbrev pub assert : Bool → Run (Unit {0})
assert true = ok tt
assert false = panic

-- an access that the model describes only where it gives `some`
abbrev pub access {ℓ} : {A : Type ℓ} → Option A → Run A
access none = fault
access (some a) = ok a

-- the call returns, with a value that satisfies `P`
abbrev pub Returns {ℓ κ} : {A : Type ℓ} → (A → Type κ) → Run A → Type (ℓ ⊔ κ)
Returns {A} P r = (a : A) × (r ≡ ok a) × P a

-- A call whose value is only changed, and the call behind it.
pub bind-ok {ℓ κ μ} :
    {A : Type ℓ} {B : Type κ} {C : Type μ} (m : Run A) (f : A → B) (k : B → Run C)
    → ((m >>= λ a. ok (f a)) >>= k) ≡ (m >>= λ a. k (f a))
bind-ok (ok a) f k = refl
bind-ok panic f k = refl
bind-ok fault f k = refl
bind-ok out_of_fuel f k = refl

-- what a call returns has the property
pub Returns-at {ℓ κ} :
    {A : Type ℓ} {P : A → Type κ} {r : Run A} {a : A} → Returns P r → r ≡ ok a → P a
Returns-at {P = P} {a = a} (b, run, p) e = let same : b ≡ a = cc in subst P same p
