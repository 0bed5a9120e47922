-- ===== src/Descriptors/Fields.antt =====
-- What the processor reads out of the descriptors of kernel/interrupt.c and userprog/tss.c.
use os_learning.Base.{
  ℕ, zero, suc, ◌+◌, ◌*◌, ◌/◌, ◌%◌, ◌^◌, ◌<◌, ◌≡◌, refl, ap, ◌∙◌, List, arith, length, get_or, set,
  length-set, get_or-set_self, get_or-set_ne,
}
use os_learning.Descriptors.Defs.{
  GateDesc, GdtDesc, idt_desc_attr_dpl0, idt_desc_attr_dpl3, make_idt_desc, idt_loop, idt_desc_init,
  make_gdt_desc,
}

-- the fields of a gate, where the processor looks for them
abbrev pub gate_offset : GateDesc → ℕ
gate_offset d = d.func_offset_high_word * 2 ^ 16 + d.func_offset_low_word

abbrev pub gate_type : GateDesc → ℕ
gate_type d = d.attribute % 2 ^ 4

abbrev pub gate_dpl : GateDesc → ℕ
gate_dpl d = d.attribute / 2 ^ 5 % 2 ^ 2

abbrev pub gate_present : GateDesc → ℕ
gate_present d = d.attribute / 2 ^ 7

-- A present 32-bit interrupt gate to the function, in the kernel's code segment.
pub record IsGate (function dpl : ℕ) (d : GateDesc) : Type 0 where
  pub offset : gate_offset d ≡ function
  pub segment : d.selector ≡ 8
  pub kind : gate_type d ≡ 0xe
  pub privilege : gate_dpl d ≡ dpl
  pub present : gate_present d ≡ 1

abbrev no_gate : GateDesc
no_gate = record {
  func_offset_low_word = 0;
  selector = 0;
  dcount = 0;
  attribute = 0;
  func_offset_high_word = 0;
}

abbrev pub gate_at : List GateDesc → ℕ → GateDesc
gate_at idt i = get_or idt i no_gate

length-idt_loop : (n i : ℕ) (table : ℕ → ℕ) → length (idt_loop n i table) ≡ n
unfolding idt_loop
length-idt_loop zero i table = refl
length-idt_loop (suc n) i table = ap suc (length-idt_loop n (i + 1) table)

gate_at-idt_loop :
    (n i k : ℕ) (table : ℕ → ℕ)
    → k < n
    → gate_at (idt_loop n i table) k ≡ make_idt_desc idt_desc_attr_dpl0 (table (i + k))
unfolding idt_loop
gate_at-idt_loop zero i k table h = absurd (omega arith)
gate_at-idt_loop (suc n) i zero table h = let z : i + 0 ≡ i = omega arith in rw z
gate_at-idt_loop (suc n) i (suc k) table h =
    let e : i + 1 + k ≡ i + suc k = omega arith in
    gate_at-idt_loop n (i + 1) k table (omega arith)
    ∙ ap (λ a. make_idt_desc idt_desc_attr_dpl0 (table a)) e

make_idt_desc-dpl0 :
    (function : ℕ)
    → function < 2 ^ 32
    → IsGate function 0 (make_idt_desc idt_desc_attr_dpl0 function)
unfolding make_idt_desc
make_idt_desc-dpl0 function h = record {
  offset = omega arith;
  segment = refl;
  kind = refl;
  privilege = refl;
  present = refl;
}

make_idt_desc-dpl3 :
    (function : ℕ)
    → function < 2 ^ 32
    → IsGate function 3 (make_idt_desc idt_desc_attr_dpl3 function)
unfolding make_idt_desc
make_idt_desc-dpl3 function h = record {
  offset = omega arith;
  segment = refl;
  kind = refl;
  privilege = refl;
  present = refl;
}

-- For handlers at addresses of 32 bits, `idt_desc_init` makes 0x81 gates: gate `k` below 0x80 leads
-- to its entry of the table, with privilege 0, and gate 0x80 to the handler of system calls, with
-- privilege 3; both are present 32-bit interrupt gates in the kernel's code segment.
pub idt_desc_init-IsGate :
    (table : ℕ → ℕ) (syscall_handler k : ℕ)
    → ((i : ℕ) → table i < 2 ^ 32)
    → syscall_handler < 2 ^ 32
    → k < 0x80
    → (length (idt_desc_init table syscall_handler) ≡ 0x81)
      × IsGate (table k) 0 (gate_at (idt_desc_init table syscall_handler) k)
      × IsGate syscall_handler 3 (gate_at (idt_desc_init table syscall_handler) 0x80)
unfolding idt_desc_init
idt_desc_init-IsGate table syscall_handler k ht hs h =
    let gates = idt_loop 0x81 0 table in
    let last = make_idt_desc idt_desc_attr_dpl3 syscall_handler in
    let size = length-idt_loop 0x81 0 table in
    let other : gate_at (set gates 0x80 last) k ≡ make_idt_desc idt_desc_attr_dpl0 (table (0 + k)) =
      get_or-set_ne gates 0x80 k last no_gate (λ e. absurd (omega arith))
      ∙ gate_at-idt_loop 0x81 0 k table (omega arith) in
    let self : gate_at (set gates 0x80 last) 0x80 ≡ last =
      get_or-set_self gates 0x80 last no_gate (omega arith) in
    (
      length-set gates 0x80 last ∙ size,
      (let z : 0 + k ≡ k = omega arith in rw (other, z) (make_idt_desc-dpl0 (table k) (ht k))),
      rw self (make_idt_desc-dpl3 syscall_handler hs),
    )

abbrev pub desc_base : GdtDesc → ℕ
desc_base d = d.base_high_byte * 2 ^ 24 + d.base_mid_byte * 2 ^ 16 + d.base_low_word

abbrev pub desc_limit : GdtDesc → ℕ
desc_limit d = d.limit_high_attr_high % 2 ^ 4 * 2 ^ 16 + d.limit_low_word

abbrev pub desc_attr_high : GdtDesc → ℕ
desc_attr_high d = d.limit_high_attr_high / 2 ^ 4 * 2 ^ 4

-- A descriptor gives back the base, the limit of 20 bits and the attributes that it is made from, where the
-- high attributes leave the place of the limit's high digit.
pub make_gdt_desc-fields :
    (desc_addr limit attr_low attr_high : ℕ)
    → desc_addr < 2 ^ 32
    → limit < 2 ^ 20
    → attr_high < 2 ^ 8
    → attr_high % 2 ^ 4 ≡ 0
    → let d = make_gdt_desc desc_addr limit attr_low attr_high in
      (desc_base d ≡ desc_addr)
      × (desc_limit d ≡ limit)
      × (desc_attr_high d ≡ attr_high)
      × (d.attr_low_byte ≡ attr_low)
unfolding make_gdt_desc
make_gdt_desc-fields desc_addr limit attr_low attr_high ha hl hh aligned =
    (omega arith, omega arith, omega arith, refl)
