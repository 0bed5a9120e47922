-- ===== src/KernelList/Walk.antt =====
-- `list_empty`, `list_len`, `list_traversal` and `elem_find` of lib/kernel/list.c.
use os_learning.Base.{
  ℕ, zero, suc, ◌+◌, ◌<◌, ◌≡◌, refl, sym, ap, ◌∙◌, inl, inr, Bool, true, false, Option, none, some,
  List, [], ◌∷◌, arith, Bool-cases, if◌then◌else◌, length, has,
}
use os_learning.Base.Run.{ok}
use os_learning.KernelList.Defs.{
  Addr, Machine, head, tail, list_empty, len_loop, list_len, traversal_loop, list_traversal,
  find_loop, elem_find, Linked, IsList,
}

-- the first element that passes the test
abbrev pub first_match : (Addr → ℕ → Bool) → ℕ → List Addr → Option Addr
first_match func arg [] = none
first_match func arg (x ∷ xs) = if func x arg then some x else first_match func arg xs

module _ (m : Machine) (plist : Addr) where
  -- Each loop, started behind `a`, walks through the elements `xs` up to the tail.
  abbrev ToTail : Addr → List Addr → Type 0
  ToTail a xs = Linked m.prev m.next a xs (tail plist) × (has (tail plist) xs ≡ false)

  len_loop-length :
      (fuel : ℕ) (a : Addr) (ret : ℕ) (xs : List Addr)
      → ToTail a xs
      → length xs < fuel
      → len_loop fuel plist (m.next a) ret m ≡ ok (ret + length xs)
  unfolding len_loop
  len_loop-length zero a ret xs h f = absurd (omega arith)
  len_loop-length (suc fuel) a ret [] h f = ground (arith, h)
  len_loop-length (suc fuel) a ret (x ∷ xs) h f =
      ground
        (arith, h, len_loop-length fuel x (ret + 1) xs (h.0.2, ground (arith, h.1)) (omega arith))

  traversal_loop-first_match :
      (func : Addr → ℕ → Bool) (arg fuel : ℕ) (a : Addr) (xs : List Addr)
      → ToTail a xs
      → length xs < fuel
      → traversal_loop func arg fuel plist (m.next a) m ≡ ok (first_match func arg xs)
  unfolding traversal_loop
  traversal_loop-first_match func arg zero a xs h f = absurd (omega arith)
  traversal_loop-first_match func arg (suc fuel) a [] h f = ground (arith, h)
  traversal_loop-first_match func arg (suc fuel) a (x ∷ xs) h f = ground (
    arith,
    h,
    traversal_loop-first_match func arg fuel x xs (h.0.2, ground (arith, h.1)) (omega arith),
  )

  find_loop-has :
      (obj fuel : ℕ) (a : Addr) (xs : List Addr)
      → ToTail a xs
      → length xs < fuel
      → find_loop fuel plist (m.next a) obj m ≡ ok (has obj xs)
  unfolding find_loop
  find_loop-has obj zero a xs h f = absurd (omega arith)
  find_loop-has obj (suc fuel) a [] h f = ground (arith, h)
  find_loop-has obj (suc fuel) a (x ∷ xs) h f =
      ground (arith, h, find_loop-has obj fuel x xs (h.0.2, ground (arith, h.1)) (omega arith))

abbrev pub is_nil : List Addr → Bool
is_nil [] = true
is_nil (x ∷ xs) = false

module _ {m : Machine} {plist : Addr} where
  list_empty-is_nil : (xs : List Addr) → IsList m plist xs → list_empty plist m ≡ is_nil xs
  unfolding list_empty
  list_empty-is_nil [] is = ground (arith, is.chain)
  list_empty-is_nil (x ∷ xs) is = ground (arith, is.chain.0, is.no_tail)

  list_traversal-first_match :
      (func : Addr → ℕ → Bool) (arg fuel : ℕ) (xs : List Addr)
      → IsList m plist xs
      → length xs < fuel
      → list_traversal func arg fuel plist m ≡ ok (first_match func arg xs)
  unfolding list_traversal
  list_traversal-first_match func arg fuel xs is f = elim (Bool-cases (list_empty plist m)) [
    | inl e ↦ rw e (empty xs (sym (list_empty-is_nil xs is) ∙ e))
    | inr n ↦
        rw n (
          traversal_loop-first_match m plist func arg fuel (head plist) xs (is.chain, is.no_tail) f)
  ]
    where
      empty : (ys : List Addr) → is_nil ys ≡ true → ok none ≡ ok (first_match func arg ys)
      empty [] e = refl
      empty (y ∷ ys) e = cc

  -- For a list with fewer elements than rounds: `list_empty` says whether it has none, `list_len`
  -- counts them, `elem_find` says whether an address is among them, and `list_traversal` gives the
  -- first that passes the test.
  pub walks_lem :
      (fuel : ℕ) (xs : List Addr)
      → IsList m plist xs
      → length xs < fuel
      → (list_empty plist m ≡ is_nil xs)
        × (list_len fuel plist m ≡ ok (length xs))
        × ((obj : Addr) → elem_find fuel plist obj m ≡ ok (has obj xs))
        × ((func : Addr → ℕ → Bool) (arg : ℕ)
            → list_traversal func arg fuel plist m ≡ ok (first_match func arg xs))
  unfolding list_len elem_find
  walks_lem fuel xs is f = (
    list_empty-is_nil xs is,
    len_loop-length m plist fuel (head plist) 0 xs (is.chain, is.no_tail) f ∙ ap ok (omega arith),
    λ obj. find_loop-has m plist obj fuel (head plist) xs (is.chain, is.no_tail) f,
    λ func arg. list_traversal-first_match func arg fuel xs is f,
  )
