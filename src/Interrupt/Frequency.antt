-- ===== src/Interrupt/Frequency.antt =====
-- `frequency_set` and `timer_init` of device/timer.c, and the interval timer that their port writes reach.
use os_learning.Base.{
  ℕ, ◌+◌, ◌-◌, ◌*◌, ◌/◌, ◌%◌, ◌^◌, ◌<◌, ◌≡◌, refl, ap, Bool, Bool-cases, inl, inr, true, false,
  ◌&&◌, Option, none, some, List, [], ◌∷◌, arith, bit_or, ltb, leb, ◌==◌, if◌then◌else◌, update,
  all_below, all_below_sound,
}
use os_learning.Base.Run.{Run, ok, ◌>>=◌, Returns}
use os_learning.Interrupt.Handlers.{HandlerTable, register_handler, Output, put_str}

-- `outb` of a value to a port, in their order; the shift by 8 comes after the cast to 8 bits
unfoldable pub frequency_set :
    (counter_port counter_no rwl counter_mode counter_value : ℕ) → List (ℕ × ℕ)
frequency_set counter_port counter_no rwl counter_mode counter_value =
    (0x43, bit_or (bit_or (counter_no * 2 ^ 6) (rwl * 2 ^ 4)) (counter_mode * 2) % 2 ^ 8)
    ∷ (counter_port, counter_value % 2 ^ 8)
    ∷ (counter_port, counter_value % 2 ^ 8 / 2 ^ 8)
    ∷ []

abbrev pub counter0_value : ℕ
counter0_value = 1193180 / 100

-- what is on the screen, the port writes, and the table of handlers; `handler` is `intr_timer_handler`'s address
unfoldable pub timer_init :
    (handler : ℕ) → HandlerTable → Run (List Output × List (ℕ × ℕ) × HandlerTable)
timer_init handler table = do
  table' ← register_handler 0x20 handler table
  ok (
    put_str "timer_init start!\n" ∷ put_str "timer_init done!\n" ∷ [],
    frequency_set 0x40 0 3 2 (counter0_value % 2 ^ 16),
    table',
  )

-- A channel of the interval timer; `low` is the first byte of a count that is written in two.
pub record Counter : Type 0 where
  pub mode : ℕ
  pub access : ℕ
  pub low : Option ℕ
  pub count : ℕ

-- a byte at a channel's own port, by the access mode of the channel: the count's low byte, its high byte, or both
abbrev load_both : (low : Option ℕ) → ℕ → Counter → Counter
load_both none v c = record c { low = some v }
load_both (some l) v c = record c { low = none; count = l + 2 ^ 8 * v }

abbrev load : ℕ → Counter → Counter
load v c =
    if c.access == 3
    then load_both c.low v c
    else if c.access == 1
    then record c { count = v }
    else if c.access == 2
    then record c { count = 2 ^ 8 * v }
    else c

-- the control port chooses the channel in its bits 6 and 7, the access in 4 and 5 and the mode in 1 to 3
abbrev set_mode : ℕ → Counter → Counter
set_mode v c =
    if v / 2 ^ 4 % 4 == 0
    then c
    else record c { mode = v / 2 % 8; access = v / 2 ^ 4 % 4; low = none }

abbrev writes_port : (port v : ℕ) → (ℕ → Counter) → ℕ → Counter
writes_port port v channels =
    if port == 0x43
    then update channels (v / 2 ^ 6) (set_mode v (channels (v / 2 ^ 6)))
    else if leb 0x40 port && ltb port 0x43
    then update channels (port - 0x40) (load v (channels (port - 0x40)))
    else channels

abbrev pub writes_ports : List (ℕ × ℕ) → (ℕ → Counter) → ℕ → Counter
writes_ports [] channels = channels
writes_ports ((port, v) ∷ rest) channels = writes_ports rest (writes_port port v channels)

abbrev command : (chan mode : ℕ) → ℕ
command chan mode = bit_or (bit_or (chan * 2 ^ 6) (3 * 2 ^ 4)) (mode * 2) % 2 ^ 8

abbrev decodes : (chan mode : ℕ) → Bool
decodes chan mode =
    command chan mode / 2 ^ 6 == chan
    && (command chan mode / 2 ^ 4 % 4 == 3)
    && (command chan mode / 2 % 8 == mode)

command_table : all_below 3 (λ chan. all_below 8 λ mode. decodes chan mode) ≡ true
unfolding all_below
command_table = refl

command_lem : (chan mode : ℕ) → chan < 3 → mode < 8 → decodes chan mode ≡ true
command_lem chan mode h k = all_below_sound 8 _ mode (all_below_sound 3 _ chan command_table h) k

-- For channel 0, 1 or 2 of the interval timer at its own port, a mode below 8 and the access that
-- writes both bytes, the port writes of `frequency_set` load the channel with the mode and with the
-- low byte of the value, whatever its high byte, and leave the other channels as they are.
pub frequency_set-Loaded :
    (chan mode value : ℕ) (channels : ℕ → Counter)
    → chan < 3
    → mode < 8
    → (c : ℕ)
    → writes_ports (frequency_set (0x40 + chan) chan 3 mode value) channels c ≡ (
        if chan == c
        then record { mode = mode; access = 3; low = none; count = value % 2 ^ 8 }
        else channels c)
unfolding frequency_set
frequency_set-Loaded chan mode value channels h k c =
    let d = command_lem chan mode h k in
    let at : command chan mode / 2 ^ 6 ≡ chan = ground (arith, d) in
    let both : command chan mode / 2 ^ 4 % 4 ≡ 3 = ground (arith, d) in
    let its : command chan mode / 2 % 8 ≡ mode = ground (arith, d) in
    let port : (0x40 + chan == 0x43) ≡ false = ground (arith, h) in
    let inside : (leb 0x40 (0x40 + chan) && ltb (0x40 + chan) 0x43) ≡ true = ground (arith, h) in
    let back : 0x40 + chan - 0x40 ≡ chan = omega arith in
    let self : (chan == chan) ≡ true = ground arith in
    let high : value % 2 ^ 8 / 2 ^ 8 ≡ 0 = omega arith in
    rw (port, inside, back, at, both, its, self, high)
      (elim (Bool-cases (chan == c)) [
        | inl here ↦
            rw here
              (ap (λ n. record { mode = mode; access = 3; low = none; count = n }) (omega arith))
        | inr there ↦ rw there refl
      ])

-- `timer_init` loads channel 0 with mode 2 and a count of 155, leaves the other channels as they
-- are, and makes its handler that of vector 0x20.
pub timer_init-Set :
    (handler : ℕ) (table : HandlerTable) (channels : ℕ → Counter)
    → Returns
        (λ r.
          ((c : ℕ)
            → writes_ports r.1 channels c ≡ (
                if 0 == c
                then record { mode = 2; access = 3; low = none; count = 155 }
                else channels c))
          × (r.2.idt_table 0x20 ≡ handler))
        (timer_init handler table)
unfolding timer_init register_handler
timer_init-Set handler table channels = (
  (
    put_str "timer_init start!\n" ∷ put_str "timer_init done!\n" ∷ [],
    frequency_set 0x40 0 3 2 (counter0_value % 2 ^ 16),
    record { idt_table = update table.idt_table 0x20 handler; intr_name = table.intr_name },
  ),
  refl,
  (
    λ c. frequency_set-Loaded 0 2 (counter0_value % 2 ^ 16) channels (omega arith) (omega arith) c,
    refl,
  ),
)
