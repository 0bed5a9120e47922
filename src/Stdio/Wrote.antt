-- ===== src/Stdio/Wrote.antt =====
-- Text that is written into a buffer of zeros which ends at `hi`.
use os_learning.Base.{
  ℕ, suc, ◌+◌, ◌<◌, ◌≤◌, ◌≡◌, ◌≢◌, refl, sym, ap, ◌∙◌, ◌⊎◌, inl, inr, List, [], ◌∷◌, ◌++◌, All,
  length, length-append, arith,
}
use os_learning.CString.{Ptr, Memory, write, Holds}

abbrev pub Bytes : Memory → Ptr → List ℕ → Type 0
Bytes mem p [] = Unit
Bytes mem p (x ∷ xs) = (mem p ≡ x) × Bytes mem (p + 1) xs

-- The memory is 0 from `p` up to `hi`.
abbrev pub Clear : (hi : ℕ) → Memory → Ptr → Type 0
Clear hi mem p = (a : Ptr) → p ≤ a → a < hi → mem a ≡ 0

-- `mem'` has the bytes at `p`, is 0 behind them up to `hi`, and is as `mem` outside.
pub record Wrote (hi : ℕ) (mem : Memory) (p : Ptr) (xs : List ℕ) (mem' : Memory) : Type 0 where
  pub bytes : Bytes mem' p xs
  pub frame : (a : Ptr) → (a < p) ⊎ (hi ≤ a) → mem' a ≡ mem a
  pub clear : Clear hi mem' (p + length xs)

Bytes-frame :
    (mem mem' : Memory) (p : Ptr) (xs : List ℕ)
    → ((a : Ptr) → a < p + length xs → mem' a ≡ mem a)
    → Bytes mem p xs
    → Bytes mem' p xs
Bytes-frame mem mem' p [] same h = tt
Bytes-frame mem mem' p (x ∷ xs) same h =
    (same p (omega arith) ∙ h.0, Bytes-frame mem mem' (p + 1) xs (λ a b. same a (omega arith)) h.1)

Bytes-append :
    (mem : Memory) (p : Ptr) (xs ys : List ℕ)
    → Bytes mem p xs
    → Bytes mem (p + length xs) ys
    → Bytes mem p (xs ++ ys)
Bytes-append mem p [] ys h k = let e : p + 0 ≡ p = omega arith in rw e at k
Bytes-append mem p (x ∷ xs) ys h k =
    let e : p + suc (length xs) ≡ p + 1 + length xs = omega arith in
    (h.0, Bytes-append mem (p + 1) xs ys h.1 (rw e at k))

module _ (hi : ℕ) (mem : Memory) (p : Ptr) where
  pub Wrote-nothing : Clear hi mem p → Wrote hi mem p [] mem
  Wrote-nothing c = record {
    bytes = tt;
    frame = λ a out. refl;
    clear = λ a from to. c a (omega arith) to;
  }

  pub Wrote-one : (c : ℕ) → Clear hi mem p → p < hi → Wrote hi mem p (c ∷ []) (write mem p c)
  Wrote-one c clear fits = record {
    bytes = (ground arith, tt);
    frame = λ a out. other a (apart a out);
    clear = λ a from to. other a (inr (omega arith)) ∙ clear a (omega arith) to;
  }
    where
      apart : (a : Ptr) → (a < p) ⊎ (hi ≤ a) → (a < p) ⊎ (p < a)
      apart a (inl h) = inl h
      apart a (inr h) = inr (omega arith)

      other : (a : Ptr) → (a < p) ⊎ (p < a) → write mem p c a ≡ mem a
      other a (inl h) = ground arith
      other a (inr h) = ground arith

  pub Wrote-append :
      (xs ys : List ℕ) (mem1 mem2 : Memory)
      → p + length xs ≤ hi
      → Wrote hi mem p xs mem1
      → Wrote hi mem1 (p + length xs) ys mem2
      → Wrote hi mem p (xs ++ ys) mem2
  Wrote-append xs ys mem1 mem2 fits v w = record {
    bytes =
        Bytes-append mem2 p xs ys (Bytes-frame mem1 mem2 p xs (λ a b. w.frame a (inl b)) v.bytes)
          w.bytes;
    frame = λ a out. w.frame a (wider a out) ∙ v.frame a out;
    clear = λ a from to. w.clear a (omega (arith, length-append xs ys)) to;
  }
    where
      wider : (a : Ptr) → (a < p) ⊎ (hi ≤ a) → (a < p + length xs) ⊎ (hi ≤ a)
      wider a (inl h) = inl (omega arith)
      wider a (inr h) = inr h

-- Bytes that are not 0, and a 0 behind them, are a string.
pub Holds-of_Bytes :
    (mem : Memory) (p : Ptr) (xs : List ℕ)
    → Bytes mem p xs
    → All (λ x. x ≢ 0) xs
    → mem (p + length xs) ≡ 0
    → Holds mem p xs
Holds-of_Bytes mem p [] h full end = let e : p + 0 ≡ p = omega arith in rw e at end
Holds-of_Bytes mem p (x ∷ xs) h full end =
    let e : p + suc (length xs) ≡ p + 1 + length xs = omega arith in
    (h.0, full.0, Holds-of_Bytes mem (p + 1) xs h.1 full.1 (rw e at end))

-- and the other way round
pub Bytes-of_Holds :
    (mem : Memory) (p : Ptr) (xs : List ℕ)
    → Holds mem p xs
    → Bytes mem p xs × All (λ x. x ≢ 0) xs × (mem (p + length xs) ≡ 0)
Bytes-of_Holds mem p [] h = let e : p ≡ p + 0 = omega arith in (tt, tt, ap mem (sym e) ∙ h)
Bytes-of_Holds mem p (x ∷ xs) h =
    let e : p + suc (length xs) ≡ p + 1 + length xs = omega arith in
    let (bytes, full, end) = Bytes-of_Holds mem (p + 1) xs h.2 in
    ((h.0, bytes), (h.1, full), ap mem e ∙ end)
