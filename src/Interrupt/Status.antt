-- ===== src/Interrupt/Status.antt =====
-- `intr_enable`, `intr_disable`, `intr_get_status` and `intr_set_status` of kernel/interrupt.c. The
-- state is the flag IF of EFLAGS, which `sti` sets and `cli` clears.
use os_learning.Base.{◌≡◌, refl, ℕ, bit_and, ◌==◌, if◌then◌else◌}

-- `enum intr_status`
pub data IntrStatus : Type 0 where
  intr_off intr_on : IntrStatus

unfoldable pub intr_enable : IntrStatus → IntrStatus × IntrStatus
intr_enable intr_off = (intr_off, intr_on)
intr_enable intr_on = (intr_on, intr_on)

-- The old status, and the new one.
unfoldable pub intr_disable : IntrStatus → IntrStatus × IntrStatus
intr_disable intr_off = (intr_off, intr_off)
intr_disable intr_on = (intr_on, intr_off)

unfoldable pub intr_set_status : IntrStatus → IntrStatus → IntrStatus × IntrStatus
unfolding intr_enable intr_disable
intr_set_status intr_on flag = intr_enable flag
intr_set_status intr_off flag = intr_disable flag

-- `intr_get_status` on the word that `pushfl; popl` reads
unfoldable pub intr_get_status : ℕ → IntrStatus
intr_get_status eflags = if bit_and eflags 0x200 == 0 then intr_off else intr_on

pub intr_set_status-eq : (status flag : IntrStatus) → intr_set_status status flag ≡ (flag, status)
unfolding intr_set_status
intr_set_status-eq intr_on intr_on = refl
intr_set_status-eq intr_on intr_off = refl
intr_set_status-eq intr_off intr_on = refl
intr_set_status-eq intr_off intr_off = refl

pub intr_disable-eq : (flag : IntrStatus) → intr_disable flag ≡ (flag, intr_off)
unfolding intr_disable
intr_disable-eq intr_on = refl
intr_disable-eq intr_off = refl
