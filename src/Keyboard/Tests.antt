-- ===== src/Keyboard/Tests.antt =====
-- Keys typed into an empty queue.
use os_learning.Base.{◌≡◌, refl, true, false, arith}
use os_learning.Base.Run.{Returns}
use os_learning.Thread.Tests.{four_tasks}
use os_learning.IoQueue.Tests.{empty, empty-IsQueue, room}
use os_learning.Keyboard.{Keyboard, intr_keyboard_handler}
use os_learning.Keyboard.Characters.{typed}
use os_learning.Keyboard.Handler.{Queued}
use os_learning.Keyboard.Typing.{handler-Queued}

abbrev shift_down : Keyboard
shift_down = record {
  ctrl_status = false;
  shift_status = true;
  alt_status = false;
  caps_lock_status = false;
  ext_scancode = false;
}

handler-Queued_example :
    Returns
      (λ (k', ioq', s').
        (k' ≡ shift_down) × Queued empty (typed 0x1e true false) four_tasks (ioq', s'))
      (intr_keyboard_handler 0x1e shift_down empty four_tasks)
handler-Queued_example =
    handler-Queued 0x1e shift_down empty four_tasks (omega arith) (omega arith) refl empty-IsQueue
      (omega (arith, room)) refl tt
