-- ===== src/KernelList/Tests.antt =====
-- The list functions at a list of two elements, at addresses 200 and 300, of the list at 100.
use os_learning.Base.{ℕ, ◌≡◌, refl, Bool, true, false, [], ◌∷◌, arith, has}
use os_learning.Base.Run.{ok, panic}
use os_learning.Interrupt.{intr_on}
use os_learning.KernelList.{
  Addr, Machine, list_init, list_append, list_remove, list_pop, list_empty, list_len,
  list_traversal, elem_find, IsList,
}
use os_learning.KernelList.Insert.{Becomes, list_init-IsList, list_append-snoc}
use os_learning.KernelList.Remove.{list_remove-append}
use os_learning.KernelList.Walk.{first_match, walks_lem}

abbrev blank : Machine
blank = record { prev = λ a. 7; next = λ a. 9; intr = intr_on }

abbrev empty : Machine
empty = list_init 100 blank

abbrev one : Machine
one = list_append 100 200 empty

abbrev two : Machine
two = list_append 100 300 one

empty-IsList : IsList empty 100 []
empty-IsList = (list_init-IsList 100 blank).0

one-IsList : IsList one 100 (200 ∷ [])
one-IsList =
    (list_append-snoc [] empty-IsList (record { ne_head = refl; ne_tail = refl; not_in = refl })).0

two-IsList : IsList two 100 (200 ∷ 300 ∷ [])
two-IsList =
    (list_append-snoc (200 ∷ []) one-IsList
      (record { ne_head = refl; ne_tail = refl; not_in = refl })).0

walk_two :
    (list_len 3 100 two ≡ ok 2)
    × (elem_find 3 100 300 two ≡ ok true)
    × (list_empty 100 (list_remove 200 one) ≡ true)
unfolding list_len elem_find list_empty list_remove list_append list_init
walk_two = (refl, refl, refl)

pop_empty : list_pop 100 empty ≡ panic
unfolding list_pop list_init
pop_empty = refl

list_remove-append_example : Becomes two (list_remove 300 two) 100 (200 ∷ []) (200 ∷ [])
list_remove-append_example = list_remove-append (200 ∷ []) 300 [] two-IsList

walks_lem_example :
    (list_empty 100 two ≡ false)
    × (list_len 3 100 two ≡ ok 2)
    × ((obj : Addr) → elem_find 3 100 obj two ≡ ok (has obj (200 ∷ 300 ∷ [])))
    × ((func : Addr → ℕ → Bool) (arg : ℕ)
        → list_traversal func arg 3 100 two ≡ ok (first_match func arg (200 ∷ 300 ∷ [])))
walks_lem_example = walks_lem 3 (200 ∷ 300 ∷ []) two-IsList (omega arith)
