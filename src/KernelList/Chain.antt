-- ===== src/KernelList/Chain.antt =====
-- Chains of `list_elem`s: what a write to one element changes.
use os_learning.Base.{◌≡◌, true, List, [], ◌∷◌, ◌++◌, arith, has}
use os_learning.KernelList.Defs.{Addr, Linked}

-- the last element of `a ∷ xs`
abbrev pub last_of : Addr → List Addr → Addr
last_of a [] = a
last_of a (x ∷ xs) = last_of x xs

pub has-last_of : (a : Addr) (xs : List Addr) → has (last_of a xs) (a ∷ xs) ≡ true
has-last_of a [] = ground arith
has-last_of a (x ∷ xs) = ground (arith, has-last_of x xs)

module _ (prev next : Addr → Addr) where
  pub prev-last_of :
      (a : Addr) (xs : List Addr) (b : Addr) → Linked prev next a xs b → prev b ≡ last_of a xs
  prev-last_of a [] b h = h.1
  prev-last_of a (x ∷ xs) b h = prev-last_of x xs b h.2

  pub Linked-append :
      (a : Addr) (xs : List Addr) (c : Addr) (ys : List Addr) (b : Addr)
      → Linked prev next a xs c
      → Linked prev next c ys b
      → Linked prev next a (xs ++ c ∷ ys) b
  Linked-append a [] c ys b h k = (h.0, h.1, k)
  Linked-append a (x ∷ xs) c ys b h k = (h.0, h.1, Linked-append x xs c ys b h.2 k)

  pub Linked-split :
      (a : Addr) (xs : List Addr) (c : Addr) (ys : List Addr) (b : Addr)
      → Linked prev next a (xs ++ c ∷ ys) b
      → Linked prev next a xs c × Linked prev next c ys b
  Linked-split a [] c ys b h = ((h.0, h.1), h.2)
  Linked-split a (x ∷ xs) c ys b h =
      let (front, back) = Linked-split x xs c ys b h.2 in ((h.0, h.1, front), back)

  -- A chain stands on the `next` fields of all but its end, and the `prev` fields of all but its start.
  pub Linked-frame :
      (prev' next' : Addr → Addr) (a : Addr) (xs : List Addr) (b : Addr)
      → Linked prev next a xs b
      → ((c : Addr) → has c (a ∷ xs) ≡ true → next' c ≡ next c)
      → ((c : Addr) → has c (b ∷ xs) ≡ true → prev' c ≡ prev c)
      → Linked prev' next' a xs b
  Linked-frame prev' next' a [] b h n p = (ground (arith, n a), ground (arith, p b))
  Linked-frame prev' next' a (x ∷ xs) b h n p = (
    ground (arith, n a),
    ground (arith, p x),
    Linked-frame prev' next' x xs b h.2 (λ c i. n c (ground arith)) (λ c i. p c (ground arith)),
  )
