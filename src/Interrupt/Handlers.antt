-- ===== src/Interrupt/Handlers.antt =====
-- The table of handlers in kernel/interrupt.c: `exception_init`, `register_handler`, `general_intr_handler`, and the
-- port writes of `pic_init`. A handler is its address; that of `general_intr_handler` is an argument.
use Prim.Native.String.{String}
use os_learning.Base.{
  ℕ, zero, suc, ◌+◌, ◌||◌, List, [], ◌∷◌, ◌++◌, ltb, ◌==◌, if◌then◌else◌, update,
}
use os_learning.Descriptors.{idt_desc_cnt}
use os_learning.Base.Run.{Run, ok, fault}

-- `idt_table` and `intr_name`
pub record HandlerTable : Type 0 where
  pub idt_table : ℕ → ℕ
  pub intr_name : ℕ → String

unfoldable pub exception_loop : (rounds i general : ℕ) → HandlerTable → HandlerTable
exception_loop zero i general table = table
exception_loop (suc rounds) i general table = exception_loop rounds (i + 1) general (record {
  idt_table = update table.idt_table i general;
  intr_name = update table.intr_name i "unknown";
})

-- one assignment to `intr_name` for each pair
unfoldable pub name_all : List (ℕ × String) → (ℕ → String) → ℕ → String
name_all [] names = names
name_all ((i, name) ∷ rest) names = name_all rest (update names i name)

-- Vector 15 keeps "unknown".
abbrev pub exception_names : List (ℕ × String)
exception_names =
    (0, "#DE Divide Error")
    ∷ (1, "#DB Debug Exception")
    ∷ (2, "NMI Interrupt")
    ∷ (3, "#BP Breakpoint Exception")
    ∷ (4, "#OF Overflow Exception")
    ∷ (5, "#BR BOUND Range Exceeded Exception")
    ∷ (6, "#UD Invalid Opcode Exception")
    ∷ (7, "#NM Device Not Available Exception")
    ∷ (8, "#DF Double Fault Exception")
    ∷ (9, "Coprocessor Segment Overrun")
    ∷ (10, "#TS Invalid TSS Exception")
    ∷ (11, "#NP Segment Not Present")
    ∷ (12, "#SS Stack Fault Exception")
    ∷ (13, "#GP General Protection Exception")
    ∷ (14, "#PF Page-Fault Exception")
    ∷ (16, "#MF x87 FPU Floating-Point Error")
    ∷ (17, "#AC Alignment Check Exception")
    ∷ (18, "#MC Machine-Check Exception")
    ∷ (19, "#XF SIMD Floating-Point Exception")
    ∷ []

unfoldable pub exception_init : (general : ℕ) → HandlerTable → HandlerTable
unfolding exception_loop name_all
exception_init general table =
    let filled = exception_loop idt_desc_cnt 0 general table in
    record { idt_table = filled.idt_table; intr_name = name_all exception_names filled.intr_name }

-- The vector has 8 bits and the array 0x81 places: behind them the write goes past it.
unfoldable pub register_handler : (vector_no function : ℕ) → HandlerTable → Run HandlerTable
register_handler vector_no function table =
    if ltb vector_no idt_desc_cnt
    then ok (record {
      idt_table = update table.idt_table vector_no function;
      intr_name = table.intr_name;
    })
    else fault

-- what `general_intr_handler` writes to the screen
pub data Output : Type 0 where
  set_cursor put_char put_int : ℕ → Output
  put_str : String → Output

-- the loop over `cur_pos`
unfoldable pub blanks : (rounds : ℕ) → List Output
blanks zero = []
blanks (suc rounds) = put_char 32 ∷ blanks rounds

-- `returned` to the interrupted code, or `spins` in the loop at the end, with what is on the screen
pub data Handled : Type 0 where
  returned : Handled
  spins : List Output → Handled

-- `cr2` is the address that the processor keeps of a page fault.
unfoldable pub general_intr_handler : (cr2 vec_nr : ℕ) → HandlerTable → Run Handled
unfolding blanks
general_intr_handler cr2 vec_nr table =
    if (vec_nr == 0x27) || (vec_nr == 0x2f)
    then ok returned
    else if ltb vec_nr idt_desc_cnt
    then ok (
        spins (
          (set_cursor 0 ∷ blanks 320)
          ++ (set_cursor 0
              ∷ put_str "!!!!    exception message begin    !!!!\n"
              ∷ set_cursor 88
              ∷ put_str (table.intr_name vec_nr)
              ∷ [])
          ++ (if vec_nr == 14 then put_str "\npage fault addr is " ∷ put_int cr2 ∷ [] else [])
          ++ (put_str "\n!!!!    exception message end    !!!!\n" ∷ [])))
    else fault

-- `outb` of a value to a port, in their order
abbrev pub pic_init : List (ℕ × ℕ)
pic_init =
    (0x20, 0x11)
    ∷ (0x21, 0x20)
    ∷ (0x21, 0x04)
    ∷ (0x21, 0x01)
    ∷ (0xa0, 0x11)
    ∷ (0xa1, 0x28)
    ∷ (0xa1, 0x02)
    ∷ (0xa1, 0x01)
    ∷ (0x21, 0xfe)
    ∷ (0xa1, 0xff)
    ∷ (0x21, 0xfc)
    ∷ (0xa1, 0xff)
    ∷ []
