-- ===== src/KernelList/Defs.antt =====
-- The functions of lib/kernel/list.c over an explicit memory. A `struct list_elem` is named by its
-- address; elements at different addresses do not overlap. NULL is 0.
use os_learning.Base.{
  ℕ, zero, suc, ◌+◌, ◌≡◌, Bool, true, false, Option, none, some, List, [], ◌∷◌, ◌==◌, not,
  if◌then◌else◌, has, Distinct, update,
}
use os_learning.Base.Run.{Run, ok, out_of_fuel, ◌>>◌, assert}
use os_learning.Interrupt.{IntrStatus, intr_disable, intr_set_status}

abbrev pub Addr : Type 0
Addr = ℕ

abbrev pub null : Addr
null = 0

-- What the list code reads and writes: the fields of each `list_elem`, and the interrupt flag.
pub record Machine : Type 0 where
  pub prev : Addr → Addr
  pub next : Addr → Addr
  pub intr : IntrStatus

-- `&list->head` and `&list->tail`, for a `struct list` at an address
abbrev pub head : Addr → Addr
head plist = plist

abbrev pub tail : Addr → Addr
tail plist = plist + 8

abbrev pub set_prev : Addr → Addr → Machine → Machine
set_prev a v m = record m { prev = update m.prev a v }

abbrev pub set_next : Addr → Addr → Machine → Machine
set_next a v m = record m { next = update m.next a v }

unfoldable pub list_init : Addr → Machine → Machine
list_init list m =
    let m1 = set_prev (head list) null m in
    let m2 = set_next (head list) (tail list) m1 in
    let m3 = set_prev (tail list) (head list) m2 in set_next (tail list) null m3

unfoldable pub list_insert_before : (before elem : Addr) → Machine → Machine
unfolding intr_disable intr_set_status
list_insert_before before elem m =
    let (old_status, off) = intr_disable m.intr in
    let m1 = record m { intr = off } in
    let m2 = set_next (m1.prev before) elem m1 in
    let m3 = set_next elem before m2 in
    let m4 = set_prev elem (m3.prev before) m3 in
    let m5 = set_prev before elem m4 in record m5 { intr = (intr_set_status old_status m5.intr).1 }

unfoldable pub list_push : (plist elem : Addr) → Machine → Machine
unfolding list_insert_before
list_push plist elem m = list_insert_before (m.next (head plist)) elem m

unfoldable pub list_append : (plist elem : Addr) → Machine → Machine
unfolding list_insert_before
list_append plist elem m = list_insert_before (tail plist) elem m

unfoldable pub list_remove : (pelem : Addr) → Machine → Machine
unfolding intr_disable intr_set_status
list_remove pelem m =
    let (old_status, off) = intr_disable m.intr in
    let m1 = record m { intr = off } in
    let m2 = set_next (m1.prev pelem) (m1.next pelem) m1 in
    let m3 = set_prev (m2.next pelem) (m2.prev pelem) m2 in
    record m3 { intr = (intr_set_status old_status m3.intr).1 }

unfoldable pub list_pop : (plist : Addr) → Machine → Run (Addr × Machine)
list_pop plist m = do
  assert (not (m.next (head plist) == tail plist))
  let ret = m.next (head plist)
  ok (ret, list_remove (m.next (head plist)) m)

unfoldable pub list_empty : (plist : Addr) → Machine → Bool
list_empty plist m = if m.next (head plist) == tail plist then true else false

-- The loops run on fuel. `ret` is a uint32_t: it counts elements at distinct 32-bit addresses.
unfoldable pub len_loop : (fuel : ℕ) (plist next : Addr) (ret : ℕ) → Machine → Run ℕ
len_loop zero plist next ret m = out_of_fuel
len_loop (suc fuel) plist next ret m = elim (next == tail plist) [
  | true ↦ ok ret
  | false ↦ len_loop fuel plist (m.next next) (ret + 1) m
]

unfoldable pub list_len : (fuel : ℕ) (plist : Addr) → Machine → Run ℕ
unfolding len_loop
list_len fuel plist m = len_loop fuel plist (m.next (head plist)) 0 m

-- `func` is the test that the caller passes; `none` is the result NULL.
module _ (func : Addr → ℕ → Bool) (arg : ℕ) where
  unfoldable pub traversal_loop : (fuel : ℕ) (plist elem : Addr) → Machine → Run (Option Addr)
  traversal_loop zero plist elem m = out_of_fuel
  traversal_loop (suc fuel) plist elem m = elim (elem == tail plist) [
    | true ↦ ok none
    | false ↦ elim (func elem arg) [
      | true ↦ ok (some elem)
      | false ↦ traversal_loop fuel plist (m.next elem) m
    ]
  ]

  unfoldable pub list_traversal : (fuel : ℕ) (plist : Addr) → Machine → Run (Option Addr)
  unfolding traversal_loop list_empty
  list_traversal fuel plist m =
      if list_empty plist m then ok none else traversal_loop fuel plist (m.next (head plist)) m

unfoldable pub find_loop : (fuel : ℕ) (plist ptr obj_elem : Addr) → Machine → Run Bool
find_loop zero plist ptr obj_elem m = out_of_fuel
find_loop (suc fuel) plist ptr obj_elem m = elim (ptr == tail plist) [
  | true ↦ ok false
  | false ↦ elim (ptr == obj_elem) [
    | true ↦ ok true
    | false ↦ find_loop fuel plist (m.next ptr) obj_elem m
  ]
]

unfoldable pub elem_find : (fuel : ℕ) (plist obj_elem : Addr) → Machine → Run Bool
unfolding find_loop
elem_find fuel plist obj_elem m = find_loop fuel plist (m.next (head plist)) obj_elem m

-- The list that a memory holds at `plist`.
-- From `a` the `next` fields lead through `xs` to `b`, and the `prev` fields lead back.
abbrev pub Linked : (prev next : Addr → Addr) → Addr → List Addr → Addr → Type 0
Linked prev next a [] b = (next a ≡ b) × (prev b ≡ a)
Linked prev next a (x ∷ xs) b = (next a ≡ x) × (prev x ≡ a) × Linked prev next x xs b

pub record IsList (m : Machine) (plist : Addr) (xs : List Addr) : Type 0 where
  pub chain : Linked m.prev m.next (head plist) xs (tail plist)
  pub first : m.prev (head plist) ≡ null
  pub last : m.next (tail plist) ≡ null
  pub distinct : Distinct xs
  pub no_head : has (head plist) xs ≡ false
  pub no_tail : has (tail plist) xs ≡ false

-- `elem` is none of the nodes of the list
pub record IsNew (plist elem : Addr) (xs : List Addr) : Type 0 where
  pub ne_head : (elem == head plist) ≡ false
  pub ne_tail : (elem == tail plist) ≡ false
  pub not_in : has elem xs ≡ false
