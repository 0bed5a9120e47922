-- ===== src/Keyboard/Characters.antt =====
-- The table of device/keyboard.c and the choice of its column.
use os_learning.Base.{
  ℕ, ◌-◌, ◌<◌, ◌≡◌, refl, Bool, true, false, not, ◌&&◌, ◌||◌, List, [], ◌∷◌, arith, leb, ◌==◌,
  ==_iff, if◌then◌else◌, has, all_below, all_below_sound,
}
use os_learning.Keyboard.Defs.{use_shift, key_char}

abbrev pub is_letter : ℕ → Bool
is_letter c = leb b'a' c && leb c b'z'

-- What a key types: a letter is a capital if shift or caps lock is in force, and not both; any other key
-- types what stands above on it if shift is down, whatever caps lock says.
abbrev pub typed : (scancode : ℕ) → (shift caps : Bool) → ℕ
typed scancode shift caps =
    let plain = key_char scancode false in
    if is_letter plain
    then (if (if shift then not caps else caps) then plain - 32 else plain)
    else (if shift then key_char scancode true else plain)

abbrev flag : ℕ → Bool
flag n = n == 1

typed_at : (scancode shift caps : ℕ) → Bool
typed_at scancode shift caps =
    key_char scancode (use_shift scancode (flag shift) (flag caps))
    == typed scancode (flag shift) (flag caps)

typed_table : all_below 0x3b (λ c. all_below 2 λ s. all_below 2 λ l. typed_at c s l) ≡ true
unfolding all_below typed_at key_char use_shift
typed_table = refl

typed_checked : (scancode s l : ℕ) → scancode < 0x3b → s < 2 → l < 2 → typed_at scancode s l ≡ true
typed_checked scancode s l h hs hl =
    all_below_sound 2 _ l (all_below_sound 2 _ s (all_below_sound 0x3b _ scancode typed_table h) hs)
      hl

-- At each scan code below 0x3b, and in each state of the shift and caps lock flags, the handler's
-- table and column give what the key types: caps lock changes the case of letters only, and shift
-- turns that over.
pub key_char-typed :
    (scancode : ℕ) (shift caps : Bool)
    → scancode < 0x3b
    → key_char scancode (use_shift scancode shift caps) ≡ typed scancode shift caps
unfolding typed_at
key_char-typed scancode true true h =
    (==_iff _ _).0 (typed_checked scancode 1 1 h (omega arith) (omega arith))
key_char-typed scancode true false h =
    (==_iff _ _).0 (typed_checked scancode 1 0 h (omega arith) (omega arith))
key_char-typed scancode false true h =
    (==_iff _ _).0 (typed_checked scancode 0 1 h (omega arith) (omega arith))
key_char-typed scancode false false h =
    (==_iff _ _).0 (typed_checked scancode 0 0 h (omega arith) (omega arith))

-- the keys that only change a flag
abbrev pub modifiers : List ℕ
modifiers = 0x1d ∷ 0x2a ∷ 0x36 ∷ 0x38 ∷ 0x3a ∷ []

silent_at : ℕ → Bool
silent_at c =
    (c == 0)
    || ((if has c modifiers then key_char c false == 0 else not (key_char c false == 0))
        && (if has c modifiers then key_char c true == 0 else not (key_char c true == 0)))

silent_table : all_below 0x3b silent_at ≡ true
unfolding all_below silent_at key_char
silent_table = refl

-- Between 1 and 0x3a the keys without a character are those five, so no key is unknown there.
pub key_char-silent :
    (scancode : ℕ) (shift : Bool)
    → 0 < scancode
    → scancode < 0x3b
    → (key_char scancode shift == 0) ≡ has scancode modifiers
unfolding silent_at
key_char-silent scancode true pos h =
    let e = all_below_sound 0x3b silent_at scancode silent_table h in ground arith
key_char-silent scancode false pos h =
    let e = all_below_sound 0x3b silent_at scancode silent_table h in ground arith
