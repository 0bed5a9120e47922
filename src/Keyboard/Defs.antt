-- ===== src/Keyboard/Defs.antt =====
-- `intr_keyboard_handler` of device/keyboard.c, and `keyboard_init`.
use os_learning.Base.{
  ℕ, ◌-◌, ◌/◌, ◌%◌, Bool, true, false, not, ◌&&◌, ◌||◌, ltb, ◌==◌, if◌then◌else◌, get_or,
}
use os_learning.Base.Run.{Run, ok, ◌>>=◌}
use os_learning.Thread.{Sched}
use os_learning.IoQueue.{IoQueue, ioq_full, ioq_putchar}
use os_learning.Keyboard.Keymap.{
  shift_l_make, shift_r_make, alt_l_make, alt_r_make, ctrl_l_make, ctrl_r_make, caps_lock_make,
  keymap,
}

-- the flags of device/keyboard.c
pub record Keyboard : Type 0 where
  pub ctrl_status : Bool
  pub shift_status : Bool
  pub alt_status : Bool
  pub caps_lock_status : Bool
  pub ext_scancode : Bool

-- `make_code` is the scan code less its bit 7.
unfoldable pub on_break : (make_code : ℕ) → Keyboard → Keyboard
on_break make_code k =
    if (make_code == ctrl_l_make) || (make_code == ctrl_r_make)
    then record k { ctrl_status = false }
    else if (make_code == shift_l_make) || (make_code == shift_r_make)
    then record k { shift_status = false }
    else if (make_code == alt_l_make) || (make_code == alt_r_make)
    then record k { alt_status = false }
    else k

-- The scan codes on which caps lock has no effect.
unfoldable pub is_double : (scancode : ℕ) → Bool
is_double scancode =
    ltb scancode 0x0e
    || (scancode == 0x29)
    || (scancode == 0x1a)
    || (scancode == 0x1b)
    || (scancode == 0x2b)
    || (scancode == 0x27)
    || (scancode == 0x28)
    || (scancode == 0x33)
    || (scancode == 0x34)
    || (scancode == 0x35)

-- The column of the table.
unfoldable pub use_shift : (scancode : ℕ) → (shift_down_last caps_lock_last : Bool) → Bool
unfolding is_double
use_shift scancode shift_down_last caps_lock_last =
    if is_double scancode
    then shift_down_last
    else if shift_down_last && caps_lock_last
    then false
    else shift_down_last || caps_lock_last

-- `keymap[index][shift]`, at an index in the table
unfoldable pub key_char : (index : ℕ) → (shift : Bool) → ℕ
key_char index shift = let row = get_or keymap index (0, 0) in if shift then row.1 else row.0

-- A make code with no character. `put_str` of an unknown key is not part of the state.
unfoldable pub on_modifier : (scancode : ℕ) → Keyboard → Keyboard
on_modifier scancode k =
    if (scancode == ctrl_l_make) || (scancode == ctrl_r_make)
    then record k { ctrl_status = true }
    else if (scancode == shift_l_make) || (scancode == shift_r_make)
    then record k { shift_status = true }
    else if (scancode == alt_l_make) || (scancode == alt_r_make)
    then record k { alt_status = true }
    else if scancode == caps_lock_make
    then record k { caps_lock_status = not k.caps_lock_status }
    else k

-- The character for the queue, if the queue is not full.
unfoldable pub put_key : (cur_char : ℕ) → IoQueue → Sched → Run (IoQueue × Sched)
put_key cur_char ioq s = do
  full ← ioq_full ioq s
  elim full [
    | true ↦ ok (ioq, s)
    | false ↦ do (passed, ioq', s') ← ioq_putchar ioq cur_char s; ok (ioq', s')
  ]

-- On the byte that `inb(KBD_BUF_PORT)` reads.
unfoldable pub intr_keyboard_handler :
    (scancode : ℕ) → Keyboard → IoQueue → Sched → Run (Keyboard × IoQueue × Sched)
unfolding on_break use_shift key_char on_modifier
intr_keyboard_handler scancode k ioq s =
    if scancode == 0xe0
    then ok (record k { ext_scancode = true }, ioq, s)
    else if not ((scancode / 0x80) % 2 == 0)
    then ok (on_break (scancode - 0x80) k, ioq, s)
    else if (ltb 0x00 scancode && ltb scancode 0x3b)
        || (scancode == alt_r_make)
        || (scancode == ctrl_r_make)
    then (let cur_char =
          key_char (scancode % 0x100) (use_shift scancode k.shift_status k.caps_lock_status) in
        if not (cur_char == 0)
        then (do (ioq', s') ← put_key cur_char ioq s; ok (k, ioq', s'))
        else ok (on_modifier scancode k, ioq, s))
    else ok (k, ioq, s)
