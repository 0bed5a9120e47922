-- ===== src/Interrupt/Dispatch.antt =====
-- Which handler an interrupt reaches after `exception_init` and the registrations of the drivers.

use os_learning.Base.{
  ℕ, zero, suc, ◌+◌, ◌<◌, ◌≤◌, ◌≡◌, ◌⊎◌, refl, ap, Bool-cases, inl, inr, true, List, [], ◌∷◌, All,
  arith, ltb, ◌==◌, if◌then◌else◌, update,
}
use os_learning.Descriptors.{idt_desc_cnt}
use os_learning.Base.Run.{Run, ok, ◌>>=◌, Returns}
use os_learning.Interrupt.Handlers.{HandlerTable, exception_loop, exception_init, register_handler}

-- calls of `register_handler`, in their order
abbrev pub registers : List (ℕ × ℕ) → HandlerTable → Run HandlerTable
registers [] table = ok table
registers ((vector_no, function) ∷ rest) table =
    register_handler vector_no function table >>= registers rest

-- the last function for a vector, or `first` where there is none
abbrev pub last_for : (vec first : ℕ) → List (ℕ × ℕ) → ℕ
last_for vec first [] = first
last_for vec first ((vector_no, function) ∷ rest) =
    last_for vec (if vector_no == vec then function else first) rest

-- every vector below the loop's end leads to `general`, and the others lead where they led
exception_loop-fills :
    (rounds i general vec : ℕ) (table : HandlerTable)
    → vec < i + rounds
    → (i ≤ vec) ⊎ (table.idt_table vec ≡ general)
    → (exception_loop rounds i general table).idt_table vec ≡ general
unfolding exception_loop
exception_loop-fills zero i general vec table less (inl le) = absurd (omega arith)
exception_loop-fills zero i general vec table less (inr done) = done
exception_loop-fills (suc rounds) i general vec table less at =
    let step : ℕ = if i == vec then general else table.idt_table vec in
    let filled : (i + 1 ≤ vec) ⊎ (step ≡ general) = elim (Bool-cases (i == vec)) [
      | inl same ↦ inr (rw same refl)
      | inr other ↦ elim at [ inl le ↦ inl (ground arith) | inr done ↦ inr (rw (other, done) refl) ]
    ] in
    exception_loop-fills rounds (i + 1) general vec _ (omega arith) filled

registers-last :
    (calls : List (ℕ × ℕ)) (vec first : ℕ) (table : HandlerTable)
    → All (λ call. call.0 < idt_desc_cnt) calls
    → table.idt_table vec ≡ first
    → Returns
        (λ table'.
          (table'.idt_table vec ≡ last_for vec first calls) × (table'.intr_name ≡ table.intr_name))
        (registers calls table)
unfolding register_handler
registers-last [] vec first table fit at = (table, refl, (at, refl))
registers-last ((vector_no, function) ∷ rest) vec first table fit at =
    let fits : ltb vector_no idt_desc_cnt ≡ true = ground (arith, fit.0) in
    let next : HandlerTable = record {
      idt_table = update table.idt_table vector_no function;
      intr_name = table.intr_name;
    } in
    let entry : next.idt_table vec ≡ (if vector_no == vec then function else first) =
      ap (λ old. if vector_no == vec then function else old) at in
    let (table', run, holds) = registers-last rest vec _ next fit.1 entry in
    (table', rw fits run, holds)

-- the table after the initialization and the drivers' calls
abbrev pub set_up : (general : ℕ) → List (ℕ × ℕ) → HandlerTable → Run HandlerTable
set_up general calls table = registers calls (exception_init general table)

-- After `exception_init` and any calls of `register_handler` for vectors below 0x81, in their
-- order, each vector below 0x81 leads to the function of its last call, or to
-- `general_intr_handler` if it has none; the calls return and leave the names as they were.
pub set_up-last :
    (general : ℕ) (calls : List (ℕ × ℕ)) (vec : ℕ) (table : HandlerTable)
    → vec < idt_desc_cnt
    → All (λ call. call.0 < idt_desc_cnt) calls
    → Returns
        (λ table'.
          (table'.idt_table vec ≡ last_for vec general calls)
          × (table'.intr_name ≡ (exception_init general table).intr_name))
        (set_up general calls table)
unfolding exception_init
set_up-last general calls vec table less fit =
    registers-last calls vec general (exception_init general table) fit
      (exception_loop-fills idt_desc_cnt 0 general vec table less (inl (omega arith)))
