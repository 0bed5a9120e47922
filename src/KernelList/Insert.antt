-- ===== src/KernelList/Insert.antt =====
-- `list_init`, `list_insert_before`, `list_push` and `list_append` of lib/kernel/list.c.
use os_learning.Base.{
  ◌≡◌, refl, true, false, ◌||◌, List, [], ◌∷◌, ◌++◌, arith, ◌==◌, has, Distinct, update, has-append,
  Distinct-append, Distinct-of_parts,
}
use mathlib.Core.List.{append_assoc}
use os_learning.Interrupt.{intr_disable-eq, intr_set_status-eq}
use os_learning.KernelList.Defs.{
  Addr, Machine, head, tail, list_init, list_insert_before, list_push, list_append, Linked, IsList,
  IsNew,
}
use os_learning.KernelList.Chain.{
  last_of, has-last_of, prev-last_of, Linked-append, Linked-split, Linked-frame,
}

-- the memory is as it was at every element outside `xs`, and so is the interrupt flag
pub record SameOutside (m m' : Machine) (xs : List Addr) : Type 0 where
  pub same_prev : (a : Addr) → has a xs ≡ false → m'.prev a ≡ m.prev a
  pub same_next : (a : Addr) → has a xs ≡ false → m'.next a ≡ m.next a
  pub same_intr : m'.intr ≡ m.intr

-- `list_init` makes the empty list, and writes the two ends alone.
pub list_init-IsList :
    (plist : Addr) (m : Machine)
    → IsList (list_init plist m) plist []
      × SameOutside m (list_init plist m) (head plist ∷ tail plist ∷ [])
unfolding list_init
list_init-IsList plist m = (
  record {
    chain = (ground arith, ground arith);
    first = ground arith;
    last = ground arith;
    distinct = tt;
    no_head = refl;
    no_tail = refl;
  },
  record { same_prev = λ a out. ground arith; same_next = λ a out. ground arith; same_intr = refl },
)

-- The fields that `list_insert_before` leaves.
abbrev inserted : (before elem : Addr) → Machine → Machine
inserted before elem m = record m {
  prev = update (update m.prev elem (m.prev before)) before elem;
  next = update (update m.next (m.prev before) elem) elem before;
}

pub insert_before-inserted :
    (before elem : Addr) (m : Machine) → list_insert_before before elem m ≡ inserted before elem m
unfolding list_insert_before
insert_before-inserted before elem m = rw (intr_disable-eq, intr_set_status-eq)

module _ (prev next : Addr → Addr) (e b : Addr) (e_ne_b : (e == b) ≡ false) where
  abbrev prev' : Addr → Addr
  prev' = update (update prev e (prev b)) b e

  abbrev next' : Addr → Addr
  next' = update (update next (prev b) e) e b

  -- the chain that led to `b` leads to it through `e`
  Linked-insert :
      (a : Addr) (xs : List Addr) (q : Addr)
      → Linked prev next a xs b
      → prev b ≡ q
      → has e (a ∷ xs) ≡ false
      → has b xs ≡ false
      → Distinct (a ∷ xs)
      → Linked prev' next' a (xs ++ e ∷ []) b
  Linked-insert a [] q h eq he hb d = (ground arith, ground arith, (ground arith, ground arith))
  Linked-insert a (x ∷ xs) q h eq he hb d = (
    ground (arith, prev-last_of prev next x xs b h.2, has-last_of x xs),
    ground arith,
    Linked-insert x xs q h.2 eq (ground arith) (ground arith) d.1,
  )

module _ {m : Machine} {plist e : Addr} where
  -- Before the tail: `list_append` adds an element that is none of the list's at the end.
  append-inserted :
      {xs : List Addr}
      → IsList m plist xs
      → IsNew plist e xs
      → IsList (inserted (tail plist) e m) plist (xs ++ e ∷ [])
  append-inserted {xs} is new = record {
    chain =
        Linked-insert m.prev m.next e (tail plist) new.ne_tail (head plist) xs _ is.chain refl
          (ground (arith, new.ne_head, new.not_in)) is.no_tail (is.no_head, is.distinct);
    first = ground (arith, is.first, new.ne_head);
    last = ground (
      arith,
      is.last,
      new.ne_tail,
      prev-last_of m.prev m.next (head plist) xs (tail plist) is.chain,
      has-last_of (head plist) xs,
      is.no_tail,
    );
    distinct =
        Distinct-of_parts xs (e ∷ []) is.distinct (refl, tt) (λ a i. ground (arith, new.not_in));
    no_head = ground (arith, has-append (head plist) xs (e ∷ []), is.no_head, new.ne_head);
    no_tail = ground (arith, has-append (tail plist) xs (e ∷ []), is.no_tail, new.ne_tail);
  }

  -- Before an element `y` of the list.
  module _ (xs : List Addr) (y : Addr) (ys : List Addr) (is : IsList m plist (xs ++ y ∷ ys))
      (new : IsNew plist e (xs ++ y ∷ ys)) where
    abbrev h : Addr
    h = head plist

    abbrev t : Addr
    t = tail plist

    split : (a : Addr) → has a (xs ++ y ∷ ys) ≡ (has a xs || has a (y ∷ ys))
    split a = has-append a xs (y ∷ ys)

    middle-Linked : Linked (inserted y e m).prev (inserted y e m).next h (xs ++ e ∷ y ∷ ys) t
    middle-Linked =
        let (front, back) = Linked-split m.prev m.next h xs y ys t is.chain in
        let (dx, dy, apart) = Distinct-append xs (y ∷ ys) is.distinct in
        let q = prev-last_of m.prev m.next h xs y front in
        let q_in = has-last_of h xs in
        let front' =
          Linked-insert m.prev m.next e y (ground (arith, split e, new.not_in)) h xs _ front refl
            (ground (arith, split e, new.not_in, new.ne_head)) (ground (arith, apart y))
            (ground (arith, split h, is.no_head), dx) in
        let back' =
          Linked-frame m.prev m.next (inserted y e m).prev (inserted y e m).next y ys t back
            (λ c i.
              ground
                (arith, q, q_in, split e, split h, new.not_in, is.no_head, apart (last_of h xs), i))
            (λ c i. ground (arith, split e, new.not_in, dy, new.ne_tail, split t, is.no_tail, i)) in
        rw append_assoc at (Linked-append _ _ h (xs ++ e ∷ []) y ys t front' back')

    middle-inserted : IsList (inserted y e m) plist (xs ++ e ∷ y ∷ ys)
    middle-inserted =
        let (front, back) = Linked-split m.prev m.next h xs y ys t is.chain in
        let (dx, dy, apart) = Distinct-append xs (y ∷ ys) is.distinct in
        let q = prev-last_of m.prev m.next h xs y front in
        let q_in = has-last_of h xs in
        record {
          chain = middle-Linked;
          first = ground (arith, is.first, new.ne_head, split h, is.no_head);
          last = ground (arith, is.last, new.ne_tail, q, q_in, split t, is.no_tail);
          distinct =
              Distinct-of_parts xs (e ∷ y ∷ ys) dx (ground (arith, split e, new.not_in), dy)
                (λ a i. ground (arith, apart a, split e, new.not_in));
          no_head = ground (arith, has-append h xs (e ∷ y ∷ ys), split h, is.no_head, new.ne_head);
          no_tail = ground (arith, has-append t xs (e ∷ y ∷ ys), split t, is.no_tail, new.ne_tail);
        }

  inserted-SameOutside :
      (xs : List Addr) (before : Addr)
      → has before (tail plist ∷ xs) ≡ true
      → has (m.prev before) (head plist ∷ xs) ≡ true
      → SameOutside m (inserted before e m) (head plist ∷ tail plist ∷ e ∷ xs)
  inserted-SameOutside xs before hb hq = record {
    same_prev = λ a out. ground (arith, hb, out);
    same_next = λ a out. ground (arith, hq, out);
    same_intr = refl;
  }

-- What becomes of a list: it holds `ys`, and the memory is as before but for the elements `zs`.
abbrev pub Becomes : (m m' : Machine) (plist : Addr) (ys zs : List Addr) → Type 0
Becomes m m' plist ys zs = IsList m' plist ys × SameOutside m m' (head plist ∷ tail plist ∷ zs)

module _ {m : Machine} {plist e : Addr} where
  -- `list_append` of a node that is new to a list with the elements `xs` leaves the list with that
  -- node behind `xs`, and no other node has changed.
  pub list_append-snoc :
      (xs : List Addr)
      → IsList m plist xs
      → IsNew plist e xs
      → Becomes m (list_append plist e m) plist (xs ++ e ∷ []) (e ∷ xs)
  unfolding list_append
  list_append-snoc xs is new = rw insert_before-inserted (
    append-inserted is new,
    inserted-SameOutside xs (tail plist) (ground arith) (
        ground (
          arith,
          prev-last_of m.prev m.next (head plist) xs (tail plist) is.chain,
          has-last_of (head plist) xs,
        )),
  )

  -- `list_push` puts a new element in front of the others.
  pub list_push-cons :
      (xs : List Addr)
      → IsList m plist xs
      → IsNew plist e xs
      → Becomes m (list_push plist e m) plist (e ∷ xs) (e ∷ xs)
  unfolding list_push
  list_push-cons [] is new =
      rw (is.chain.0, insert_before-inserted)
        (
          append-inserted is new,
          inserted-SameOutside [] (tail plist) (ground arith) (rw is.chain.1 (ground arith)),
        )
  list_push-cons (y ∷ ys) is new =
      rw (is.chain.0, insert_before-inserted)
        (
          middle-inserted [] y ys is new,
          inserted-SameOutside (y ∷ ys) y (ground arith) (rw is.chain.1 (ground arith)),
        )
