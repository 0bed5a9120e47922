-- ===== src/KernelList/Remove.antt =====
-- `list_remove` and `list_pop` of lib/kernel/list.c.
use os_learning.Base.{
  ◌≡◌, refl, true, false, ◌||◌, List, [], ◌∷◌, ◌++◌, arith, ◌==◌, has, Distinct, update, has-append,
  Distinct-append, Distinct-of_parts,
}
use os_learning.Base.Run.{Run, panic, Returns}
use os_learning.Interrupt.{intr_disable-eq, intr_set_status-eq}
use os_learning.KernelList.Defs.{Addr, Machine, head, tail, list_remove, list_pop, Linked, IsList}
use os_learning.KernelList.Chain.{last_of, has-last_of, prev-last_of, Linked-split, Linked-frame}
use os_learning.KernelList.Insert.{SameOutside, Becomes}

-- the first element of `ys`, or `b`
abbrev first_of : List Addr → Addr → Addr
first_of [] b = b
first_of (y ∷ ys) b = y

-- What lies behind a removed element is reached from the one before it.
Linked-skip :
    (prev next : Addr → Addr) (p n b x : Addr) (ys : List Addr)
    → n ≡ first_of ys b
    → Linked prev next x ys b
    → Distinct ys
    → has b ys ≡ false
    → has p (b ∷ ys) ≡ false
    → Linked (update prev n p) (update next p n) p ys b
Linked-skip prev next p n b x [] e h d hb hp = (ground arith, ground arith)
Linked-skip prev next p n b x (y ∷ ys) e h d hb hp = (
  ground arith,
  ground arith,
  Linked-frame prev next _ _ y ys b h.2 (λ c i. ground (arith, i)) (λ c i. ground (arith, i, d.0)),
)

module _ (prev next : Addr → Addr) (p n b : Addr) (ys : List Addr) (hn : n ≡ first_of ys b)
    (dy : Distinct ys) (hb : has b ys ≡ false) where
  first_of-mem : has n (b ∷ ys) ≡ true
  first_of-mem = first_of_mem ys hn
    where
      first_of_mem : (zs : List Addr) → n ≡ first_of zs b → has n (b ∷ zs) ≡ true
      first_of_mem [] e = ground arith
      first_of_mem (z ∷ zs) e = ground arith

  Linked-bypass :
      (a : Addr) (xs : List Addr) (x : Addr)
      → Linked prev next a xs x
      → Linked prev next x ys b
      → p ≡ last_of a xs
      → Distinct (a ∷ xs)
      → ((c : Addr) → has c (a ∷ xs) ≡ true → has c (b ∷ ys) ≡ false)
      → Linked (update prev n p) (update next p n) a (xs ++ ys) b
  Linked-bypass a [] x h k e d apart =
      rw (← e) (Linked-skip prev next p n b x ys hn k dy hb (apart p (ground arith)))
  Linked-bypass a (z ∷ zs) x h k e d apart = (
    ground (arith, has-last_of z zs),
    ground (arith, apart z, first_of-mem),
    Linked-bypass z zs x h.2 k e d.1 (λ c i. apart c (ground arith)),
  )

-- The fields that `list_remove` leaves, where the element is not its own neighbour.
abbrev removed : Addr → Machine → Machine
removed x m = record m {
  prev = update m.prev (m.next x) (m.prev x);
  next = update m.next (m.prev x) (m.next x);
}

remove-removed : (x : Addr) (m : Machine) → (m.prev x == x) ≡ false → list_remove x m ≡ removed x m
unfolding list_remove
remove-removed x m ne = rw (intr_disable-eq, intr_set_status-eq, ne)

module _ {m : Machine} {plist : Addr} (xs : List Addr) (x : Addr) (ys : List Addr)
    (is : IsList m plist (xs ++ x ∷ ys)) where
  abbrev h : Addr
  h = head plist

  abbrev t : Addr
  t = tail plist

  split : (a : Addr) → has a (xs ++ x ∷ ys) ≡ (has a xs || has a (x ∷ ys))
  split a = has-append a xs (x ∷ ys)

  rest : (a : Addr) → has a (xs ++ ys) ≡ (has a xs || has a ys)
  rest a = has-append a xs ys

  next-first_of : m.next x ≡ first_of ys t
  next-first_of = first ys (Linked-split m.prev m.next h xs x ys t is.chain).1
    where
      first : (zs : List Addr) → Linked m.prev m.next x zs t → m.next x ≡ first_of zs t
      first [] k = k.0
      first (z ∷ zs) k = k.0

  removed-IsList : IsList (removed x m) plist (xs ++ ys)
  removed-IsList =
      let (front, back) = Linked-split m.prev m.next h xs x ys t is.chain in
      let (dx, dy, apart) = Distinct-append xs (x ∷ ys) is.distinct in
      let p = prev-last_of m.prev m.next h xs x front in
      let p_in = has-last_of h xs in
      let n_in =
        first_of-mem m.prev m.next (m.prev x) (m.next x) t ys next-first_of dy.1
          (ground (arith, split t, is.no_tail)) in
      record {
        chain =
            Linked-bypass m.prev m.next (m.prev x) (m.next x) t ys next-first_of dy.1
              (ground (arith, split t, is.no_tail)) h xs x front back p
              (ground (arith, split h, is.no_head), dx)
              (λ c i. ground (arith, apart c, split h, split t, is.no_head, is.no_tail));
        first = ground (arith, is.first, n_in, split h, is.no_head);
        last = ground (arith, is.last, p, p_in, split t, is.no_tail);
        distinct = Distinct-of_parts xs ys dx dy.1 (λ a i. ground (arith, apart a));
        no_head = ground (arith, split h, rest h, is.no_head);
        no_tail = ground (arith, split t, rest t, is.no_tail);
      }

  self-ne : (m.prev x == x) ≡ false
  self-ne =
      let front = (Linked-split m.prev m.next h xs x ys t is.chain).0 in
      let apart = (Distinct-append xs (x ∷ ys) is.distinct).2 in
      ground (
        arith,
        prev-last_of m.prev m.next h xs x front,
        has-last_of h xs,
        split h,
        is.no_head,
        apart (m.prev x),
      )

  removed-SameOutside : SameOutside m (removed x m) (h ∷ t ∷ xs ++ ys)
  removed-SameOutside =
      let front = (Linked-split m.prev m.next h xs x ys t is.chain).0 in
      let dy = (Distinct-append xs (x ∷ ys) is.distinct).1 in
      let no_tail : has t ys ≡ false = ground (arith, split t, is.no_tail) in
      let n_in = first_of-mem m.prev m.next (m.prev x) (m.next x) t ys next-first_of dy.1 no_tail in
      let p = prev-last_of m.prev m.next h xs x front in
      record {
        same_prev = λ a out. ground (arith, n_in, rest a, out);
        same_next = λ a out. ground (arith, p, has-last_of h xs, rest a, out);
        same_intr = refl;
      }

  -- From a list with an element `x` between the elements `xs` and `ys`, `list_remove` of `x` leaves
  -- the list with `xs ++ ys`; no node that is not of the list has changed, nor has `x` itself.
  pub list_remove-append : Becomes m (list_remove x m) plist (xs ++ ys) (xs ++ ys)
  list_remove-append = rw (remove-removed x m self-ne) (removed-IsList, removed-SameOutside)

abbrev pub Popped : Machine → Addr → List Addr → Run (Addr × Machine) → Type 0
Popped m plist [] run = run ≡ panic
Popped m plist (x ∷ xs) run = Returns (λ (a, m'). (a ≡ x) × Becomes m m' plist xs xs) run

-- From a list with a first element, `list_pop` returns it and leaves the list with the others, and
-- no other node has changed; on an empty list its ASSERT fails.
pub list_pop-Popped :
    {m : Machine} {plist : Addr} (xs : List Addr)
    → IsList m plist xs
    → Popped m plist xs (list_pop plist m)
unfolding list_pop
list_pop-Popped [] is = ground (arith, is.chain)
list_pop-Popped {m} {plist} (x ∷ xs) is =
    let ne : (x == tail plist) ≡ false = ground (arith, is.no_tail) in
    let ret : Addr = m.next (head plist) in
    let out : Becomes m (list_remove ret m) plist xs xs =
      rw is.chain.0 (list_remove-append [] x xs is) in
    ((ret, list_remove ret m), ground (arith, is.chain.0), (is.chain.0, out))
