-- ===== src/Descriptors/Tests.antt =====
-- Descriptors for a handler at 0xc0001234 and a TSS at 0xc0005000.
use os_learning.Base.{◌≡◌, refl, arith, length}
use os_learning.Descriptors.{idt_desc_init, make_gdt_desc, gdt_attr_high, tss_init}
use os_learning.Descriptors.Fields.{
  IsGate, gate_at, desc_base, desc_limit, desc_attr_high, idt_desc_init-IsGate,
}

-- the segments of user code: 4 GB from 0 on
user_segments :
    (desc_base (tss_init 0xc0005000).tss_desc ≡ 0xc0005000)
    × (desc_limit (tss_init 0xc0005000).user_code ≡ 0xfffff)
    × (desc_attr_high (tss_init 0xc0005000).user_data ≡ gdt_attr_high)
unfolding tss_init make_gdt_desc
user_segments = (refl, refl, refl)

idt_desc_init-IsGate_example :
    (length (idt_desc_init (λ i. 0xc0001234) 0xc0002000) ≡ 0x81)
    × IsGate 0xc0001234 0 (gate_at (idt_desc_init (λ i. 0xc0001234) 0xc0002000) 0x20)
    × IsGate 0xc0002000 3 (gate_at (idt_desc_init (λ i. 0xc0001234) 0xc0002000) 0x80)
idt_desc_init-IsGate_example =
    idt_desc_init-IsGate (λ i. 0xc0001234) 0xc0002000 0x20 (λ i. omega arith) (omega arith)
      (omega arith)
