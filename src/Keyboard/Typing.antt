-- ===== src/Keyboard/Typing.antt =====
-- Keys pressed and released, one interrupt of device/keyboard.c after the other.
use os_learning.Base.{
  ℕ, ◌+◌, ◌-◌, ◌<◌, ◌≤◌, ◌≡◌, refl, sym, ap, ◌∙◌, ◌≢◌, inl, inr, true, false, not, ◌&&◌, Bool-cases,
  List, [], ◌∷◌, arith, ltb, ◌==◌, has, length, length-append,
}
use native.Mathlib.Decide.{ℕ_discrete}
use os_learning.Base.Run.{Run, ok, ◌>>=◌, Returns}
use os_learning.Interrupt.{intr_off}
use os_learning.Thread.{Sched}
use os_learning.IoQueue.{IoQueue}
use os_learning.IoQueue.Slots.{contents, IsQueue}
use os_learning.IoQueue.Ring.{CanWake}
use os_learning.Keyboard.Defs.{Keyboard, on_break, use_shift, on_modifier, intr_keyboard_handler}
use os_learning.Keyboard.Characters.{typed, modifiers, key_char-typed, key_char-silent}
use os_learning.Keyboard.Handler.{
  Queued, put_key-Queued, handler-ext, handler-break, handler-make, handler-other,
}

-- the handler on a sequence of scan codes
unfoldable pub typing : List ℕ → Keyboard → IoQueue → Sched → Run (Keyboard × IoQueue × Sched)
typing [] k ioq s = ok (k, ioq, s)
typing (scancode ∷ codes) k ioq s = do
  (k', ioq', s') ← intr_keyboard_handler scancode k ioq s
  typing codes k' ioq' s'

typed-silent :
    (code : ℕ) (k : Keyboard)
    → 0 < code
    → code < 0x3b
    → (typed code k.shift_status k.caps_lock_status == 0) ≡ has code modifiers
typed-silent code k pos h =
    ap (λ c. c == 0) (sym (key_char-typed code k.shift_status k.caps_lock_status h))
    ∙ key_char-silent code (use_shift code k.shift_status k.caps_lock_status) pos h

handler-modifier :
    (code : ℕ) (k : Keyboard) (ioq : IoQueue) (s : Sched)
    → 0 < code
    → code < 0x3b
    → has code modifiers ≡ true
    → intr_keyboard_handler code k ioq s ≡ ok (on_modifier code k, ioq, s)
handler-modifier code k ioq s pos h m =
    handler-make k ioq s code pos h ∙ rw (typed-silent code k pos h, m)

-- With interrupts off, a well-formed queue whose consumer, if it has one, can be woken, and a scan
-- code from 1 to 0x3a that is not a modifier's, the handler returns: the flags are as before, what
-- the key types comes to the end of a queue of fewer than 63 bytes, and a full queue stays as it
-- was.
pub handler-Queued :
    (code : ℕ) (k : Keyboard) (ioq : IoQueue) (s : Sched)
    → 0 < code
    → code < 0x3b
    → has code modifiers ≡ false
    → IsQueue ioq
    → length (contents ioq) ≤ 63
    → s.intr ≡ intr_off
    → CanWake ioq.consumer s
    → Returns
        (λ (k', ioq', s').
          (k' ≡ k) × Queued ioq (typed code k.shift_status k.caps_lock_status) s (ioq', s'))
        (intr_keyboard_handler code k ioq s)
handler-Queued code k ioq s pos h m q le off w =
    let ((ioq', s'), run, p) =
      put_key-Queued (typed code k.shift_status k.caps_lock_status) ioq s q le off w in
    (
      (k, ioq', s'),
      handler-make k ioq s code pos h ∙ rw (typed-silent code k pos h, m, run),
      (refl, p),
    )

-- Whatever the state, the press of left shift sets the shift flag; press and release of left or
-- right shift, left control and left alt clear their flag; press and release of caps lock turn its
-- flag over. Nothing else of the state changes.
pub typing-modifiers :
    (k : Keyboard) (ioq : IoQueue) (s : Sched)
    → (typing (0x2a ∷ []) k ioq s ≡ ok (record k { shift_status = true }, ioq, s))
      × (typing (0x2a ∷ 0xaa ∷ []) k ioq s ≡ ok (record k { shift_status = false }, ioq, s))
      × (typing (0x36 ∷ 0xb6 ∷ []) k ioq s ≡ ok (record k { shift_status = false }, ioq, s))
      × (typing (0x1d ∷ 0x9d ∷ []) k ioq s ≡ ok (record k { ctrl_status = false }, ioq, s))
      × (typing (0x38 ∷ 0xb8 ∷ []) k ioq s ≡ ok (record k { alt_status = false }, ioq, s))
      × (typing (0x3a ∷ 0xba ∷ []) k ioq s
          ≡ ok (record k { caps_lock_status = not k.caps_lock_status }, ioq, s))
unfolding typing on_break on_modifier
typing-modifiers k ioq s = (
  rw (press 0x2a k (omega arith) (omega arith) refl),
  rw (
    press 0x2a k (omega arith) (omega arith) refl,
    release 0x2a (on_modifier 0x2a k) (omega arith) (λ e. absurd (omega arith)),
  ),
  rw (
    press 0x36 k (omega arith) (omega arith) refl,
    release 0x36 (on_modifier 0x36 k) (omega arith) (λ e. absurd (omega arith)),
  ),
  rw (
    press 0x1d k (omega arith) (omega arith) refl,
    release 0x1d (on_modifier 0x1d k) (omega arith) (λ e. absurd (omega arith)),
  ),
  rw (
    press 0x38 k (omega arith) (omega arith) refl,
    release 0x38 (on_modifier 0x38 k) (omega arith) (λ e. absurd (omega arith)),
  ),
  rw (
    press 0x3a k (omega arith) (omega arith) refl,
    release 0x3a (on_modifier 0x3a k) (omega arith) (λ e. absurd (omega arith)),
  ),
)
  where
    press :
        (code : ℕ) (k : Keyboard)
        → 0 < code
        → code < 0x3b
        → has code modifiers ≡ true
        → intr_keyboard_handler code k ioq s ≡ ok (on_modifier code k, ioq, s)
    press code k pos h m = handler-modifier code k ioq s pos h m

    release :
        (code : ℕ) (k : Keyboard)
        → code < 0x80
        → code ≢ 0x60
        → intr_keyboard_handler (code + 0x80) k ioq s ≡ ok (on_break code k, ioq, s)
    release code k h ne = handler-break k ioq s code h ne

-- With interrupts off and a well-formed queue of at most 63 bytes whose consumer, if it has one,
-- can be woken, the handler returns on every byte, and the queue stays well-formed, with at most 63
-- bytes.
pub handler-IsQueue :
    (scancode : ℕ) (k : Keyboard) (ioq : IoQueue) (s : Sched)
    → scancode < 0x100
    → IsQueue ioq
    → length (contents ioq) ≤ 63
    → s.intr ≡ intr_off
    → CanWake ioq.consumer s
    → Returns
        (λ (k', ioq', s'). IsQueue ioq' × (length (contents ioq') ≤ 63))
        (intr_keyboard_handler scancode k ioq s)
handler-IsQueue scancode k ioq s byte q le off w = elim (ℕ_discrete scancode 0xe0) [
  | yes ext ↦ ((record k { ext_scancode = true }, ioq, s), rw ext (handler-ext k ioq s), (q, le))
  | no not_ext ↦ elim (Bool-cases (ltb scancode 0x80)) [
    | inr high ↦
        let e : scancode - 0x80 + 0x80 ≡ scancode = ground arith in
        (
          _,
          rw e at
              (handler-break k ioq s (scancode - 0x80) (omega arith) (λ z. not_ext (ground arith))),
          (q, le),
        )
    | inl low ↦ elim (Bool-cases (ltb 0 scancode && ltb scancode 0x3b)) [
      | inr out ↦ (_, handler-other k ioq s scancode (ground arith) (λ pos. ground arith), (q, le))
      | inl in_table ↦ elim (Bool-cases (has scancode modifiers)) [
        | inl m ↦ (_, handler-modifier scancode k ioq s (ground arith) (ground arith) m, (q, le))
        | inr m ↦
            let ((k', ioq', s'), run, (e, (q', bytes, woken))) =
              handler-Queued scancode k ioq s (ground arith) (ground arith) m q le off w in
            let c = typed scancode k.shift_status k.caps_lock_status in
            (
              (k', ioq', s'),
              run,
              (q', ground (arith, length-append (contents ioq) (c ∷ []), ap length bytes)),
            )
      ]
    ]
  ]
]
