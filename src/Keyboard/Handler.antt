-- ===== src/Keyboard/Handler.antt =====
-- `intr_keyboard_handler` of device/keyboard.c: what a key does to the flags and to the queue.
use os_learning.Base.{
  ℕ, ◌+◌, ◌-◌, ◌/◌, ◌%◌, ◌<◌, ◌≤◌, ◌≡◌, refl, ◌≢◌, inl, inr, true, false, not, ◌&&◌, Bool-cases, [],
  ◌∷◌, ◌++◌, arith, ltb, ◌==◌, if◌then◌else◌, length,
}
use os_learning.Base.Run.{ok, ◌>>=◌, Returns}
use os_learning.Interrupt.{intr_off}
use os_learning.Thread.{Sched}
use os_learning.IoQueue.{IoQueue}
use os_learning.IoQueue.Slots.{contents, IsQueue}
use os_learning.IoQueue.Ring.{CanWake, Woken, ioq_full-eq, count-length, ioq_putchar-Put}
use os_learning.Keyboard.Defs.{Keyboard, on_break, on_modifier, put_key, intr_keyboard_handler}
use os_learning.Keyboard.Characters.{typed, key_char-typed}

-- A character has come to the end of the queue, or a full queue is as it was.
abbrev pub Queued : IoQueue → ℕ → Sched → IoQueue × Sched → Type 0
Queued ioq c s (ioq', s') =
    IsQueue ioq'
    × (contents ioq'
        ≡ (if length (contents ioq) == 63 then contents ioq else contents ioq ++ (c ∷ [])))
    × (if length (contents ioq) == 63 then s' ≡ s else Woken ioq.consumer s s')

pub put_key-Queued :
    (c : ℕ) (ioq : IoQueue) (s : Sched)
    → IsQueue ioq
    → length (contents ioq) ≤ 63
    → s.intr ≡ intr_off
    → CanWake ioq.consumer s
    → Returns (Queued ioq c s) (put_key c ioq s)
unfolding put_key
put_key-Queued c ioq s q le off w =
    let n = count-length ioq in
    elim (Bool-cases (length (contents ioq) == 63)) [
      | inl full ↦ ((ioq, s), rw (ioq_full-eq ioq s q off, n, full), (q, rw full, rw full refl))
      | inr room ↦
          let ((passed, ioq', s'), run, (e, q', bytes, none_left, same, woken)) =
            ioq_putchar-Put ioq c s q off (ground arith) w in
          (
            (ioq', s'),
            rw (ioq_full-eq ioq s q off, n, room, run),
            (q', rw room bytes, rw room woken),
          )
    ]

module _ (k : Keyboard) (ioq : IoQueue) (s : Sched) where
  pub handler-ext :
      intr_keyboard_handler 0xe0 k ioq s ≡ ok (record k { ext_scancode = true }, ioq, s)
  unfolding intr_keyboard_handler
  handler-ext = refl

  pub handler-break :
      (code : ℕ)
      → code < 0x80
      → code ≢ 0x60
      → intr_keyboard_handler (code + 0x80) k ioq s ≡ ok (on_break code k, ioq, s)
  unfolding intr_keyboard_handler
  handler-break code h ne =
      let not_ext : (code + 0x80 == 0xe0) ≡ false = ground arith in
      let high : ((code + 0x80) / 0x80) % 2 ≡ 1 = omega arith in
      let low : code + 0x80 - 0x80 ≡ code = omega arith in rw (not_ext, high, low)

  -- the tests that come before the table
  pub handler-make :
      (code : ℕ)
      → 0 < code
      → code < 0x3b
      → intr_keyboard_handler code k ioq s ≡ (
          if not (typed code k.shift_status k.caps_lock_status == 0)
          then (do
            (ioq', s') ← put_key (typed code k.shift_status k.caps_lock_status) ioq s
            ok (k, ioq', s'))
          else ok (on_modifier code k, ioq, s))
  unfolding intr_keyboard_handler
  handler-make code pos h =
      let not_ext : (code == 0xe0) ≡ false = ground arith in
      let high : (code / 0x80) % 2 ≡ 0 = omega arith in
      let low : code % 0x100 ≡ code = omega arith in
      let more : ltb 0x00 code ≡ true = ground arith in
      let less : ltb code 0x3b ≡ true = ground arith in
      rw (not_ext, high, low, more, less, key_char-typed code k.shift_status k.caps_lock_status h)

  pub handler-other :
      (code : ℕ)
      → code < 0x80
      → (0 < code → 0x3b ≤ code)
      → intr_keyboard_handler code k ioq s ≡ ok (k, ioq, s)
  unfolding intr_keyboard_handler
  handler-other code h out =
      let not_ext : (code == 0xe0) ≡ false = ground arith in
      let high : (code / 0x80) % 2 ≡ 0 = omega arith in
      let outside : (ltb 0x00 code && ltb code 0x3b) ≡ false = ground (arith, out) in
      let not_alt : (code == 0xe038) ≡ false = ground arith in
      let not_ctrl : (code == 0xe01d) ≡ false = ground arith in
      rw (not_ext, high, outside, not_alt, not_ctrl)
