-- ===== src/Descriptors/Defs.antt =====
-- `make_idt_desc` and `idt_desc_init` of kernel/interrupt.c, `make_gdt_desc` and `tss_init` of
-- userprog/tss.c. The entries of `intr_entry_table`, which kernel/kernel.S makes, and the address of
-- `syscall_handler` are arguments.
use os_learning.Base.{ℕ, zero, suc, ◌+◌, ◌-◌, ◌*◌, ◌/◌, ◌%◌, ◌^◌, List, [], ◌∷◌, set}

-- `struct gate_desc`
pub record GateDesc : Type 0 where
  pub func_offset_low_word : ℕ
  pub selector : ℕ
  pub dcount : ℕ
  pub attribute : ℕ
  pub func_offset_high_word : ℕ

-- `struct gdt_desc`
pub record GdtDesc : Type 0 where
  pub limit_low_word : ℕ
  pub base_low_word : ℕ
  pub base_mid_byte : ℕ
  pub attr_low_byte : ℕ
  pub limit_high_attr_high : ℕ
  pub base_high_byte : ℕ

abbrev pub selector_k_code : ℕ
selector_k_code = 1 * 2 ^ 3 + 0 * 2 ^ 2 + 0

abbrev pub selector_k_stack : ℕ
selector_k_stack = 2 * 2 ^ 3 + 0 * 2 ^ 2 + 0

abbrev pub idt_desc_attr_dpl0 : ℕ
idt_desc_attr_dpl0 = 1 * 2 ^ 7 + 0 * 2 ^ 5 + 0xe

abbrev pub idt_desc_attr_dpl3 : ℕ
idt_desc_attr_dpl3 = 1 * 2 ^ 7 + 3 * 2 ^ 5 + 0xe

abbrev pub gdt_attr_high : ℕ
gdt_attr_high = 1 * 2 ^ 7 + 1 * 2 ^ 6 + 0 * 2 ^ 5 + 0 * 2 ^ 4

abbrev pub gdt_code_attr_low_dpl3 : ℕ
gdt_code_attr_low_dpl3 = 1 * 2 ^ 7 + 3 * 2 ^ 5 + 1 * 2 ^ 4 + 8

abbrev pub gdt_data_attr_low_dpl3 : ℕ
gdt_data_attr_low_dpl3 = 1 * 2 ^ 7 + 3 * 2 ^ 5 + 1 * 2 ^ 4 + 2

abbrev pub tss_attr_high : ℕ
tss_attr_high = 1 * 2 ^ 7 + 0 * 2 ^ 6 + 0 * 2 ^ 5 + 0 * 2 ^ 4 + 0

abbrev pub tss_attr_low : ℕ
tss_attr_low = 1 * 2 ^ 7 + 0 * 2 ^ 5 + 0 * 2 ^ 4 + 9

unfoldable pub make_idt_desc : (attr function : ℕ) → GateDesc
make_idt_desc attr function = record {
  func_offset_low_word = function % 2 ^ 16;
  selector = selector_k_code;
  dcount = 0;
  attribute = attr;
  func_offset_high_word = function / 2 ^ 16 % 2 ^ 16;
}

abbrev pub idt_desc_cnt : ℕ
idt_desc_cnt = 0x81

-- `n` rounds of the loop of `idt_desc_init`, from `i` on
unfoldable pub idt_loop : (n i : ℕ) → (intr_entry_table : ℕ → ℕ) → List GateDesc
unfolding make_idt_desc
idt_loop zero i intr_entry_table = []
idt_loop (suc n) i intr_entry_table =
    make_idt_desc idt_desc_attr_dpl0 (intr_entry_table i) ∷ idt_loop n (i + 1) intr_entry_table

unfoldable pub idt_desc_init : (intr_entry_table : ℕ → ℕ) (syscall_handler : ℕ) → List GateDesc
unfolding make_idt_desc idt_loop
idt_desc_init intr_entry_table syscall_handler =
    set (idt_loop idt_desc_cnt 0 intr_entry_table) (idt_desc_cnt - 1)
      (make_idt_desc idt_desc_attr_dpl3 syscall_handler)

unfoldable pub make_gdt_desc : (desc_addr limit attr_low attr_high : ℕ) → GdtDesc
make_gdt_desc desc_addr limit attr_low attr_high = record {
  limit_low_word = limit % 2 ^ 16;
  base_low_word = desc_addr % 2 ^ 16;
  base_mid_byte = desc_addr / 2 ^ 16 % 2 ^ 8;
  attr_low_byte = attr_low;
  limit_high_attr_high = (limit / 2 ^ 16 % 2 ^ 4 + attr_high) % 2 ^ 8;
  base_high_byte = desc_addr / 2 ^ 24;
}

-- What `tss_init` writes: the two fields of the TSS, and the descriptors 4 to 6 of the GDT.
pub record TssInit : Type 0 where
  pub ss0 : ℕ
  pub io_base : ℕ
  pub tss_desc : GdtDesc
  pub user_code : GdtDesc
  pub user_data : GdtDesc

-- `struct tss` has 27 words.
abbrev pub tss_size : ℕ
tss_size = 27 * 4

unfoldable pub tss_init : (tss : ℕ) → TssInit
unfolding make_gdt_desc
tss_init tss = record {
  ss0 = selector_k_stack;
  io_base = tss_size;
  tss_desc = make_gdt_desc tss (tss_size - 1) tss_attr_low tss_attr_high;
  user_code = make_gdt_desc 0 0xfffff gdt_code_attr_low_dpl3 gdt_attr_high;
  user_data = make_gdt_desc 0 0xfffff gdt_data_attr_low_dpl3 gdt_attr_high;
}
