-- ===== src/Interrupt/Tests.antt =====
-- The timer's and the keyboard's handlers, at addresses of their own.

use os_learning.Base.{◌≡◌, ◌+◌, none, [], ◌∷◌, arith}
use os_learning.Base.Run.{Returns}
use os_learning.Interrupt.Handlers.{HandlerTable, exception_init}
use os_learning.Interrupt.Frequency.{frequency_set, writes_ports, frequency_set-Loaded}
use os_learning.Interrupt.Dispatch.{set_up, set_up-last}

abbrev empty_table : HandlerTable
empty_table = record { idt_table = λ vec. 0; intr_name = λ vec. "" }

set_up-last_example :
    Returns
      (λ table'.
        (table'.idt_table 0x21 ≡ 0xc0002000)
        × (table'.intr_name ≡ (exception_init 0xc0001000 empty_table).intr_name))
      (set_up 0xc0001000 ((0x20, 0xc0003000) ∷ (0x21, 0xc0002000) ∷ []) empty_table)
set_up-last_example =
    set_up-last 0xc0001000 ((0x20, 0xc0003000) ∷ (0x21, 0xc0002000) ∷ []) 0x21 empty_table
      (omega arith) (omega arith, (omega arith, tt))

-- channel 0, with the count that `timer_init` asks for
frequency_set-Loaded_example :
    writes_ports
      (frequency_set (0x40 + 0) 0 3 2 11931)
      (λ c. record { mode = 0; access = 0; low = none; count = 0 })
      0
    ≡ record { mode = 2; access = 3; low = none; count = 155 }
frequency_set-Loaded_example =
    frequency_set-Loaded 0 2 11931 (λ c. record { mode = 0; access = 0; low = none; count = 0 })
      (omega arith) (omega arith) 0
