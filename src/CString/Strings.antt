-- ===== src/CString/Strings.antt =====
-- `strlen`, `strcpy` and `strcat` of lib/string.c.
use native.Mathlib.Nat.{add-zero}
use os_learning.Base.{
  ℕ, zero, suc, ◌+◌, ◌-◌, ◌^◌, ◌≤◌, ◌<◌, ◌≡◌, refl, ap, ◌∙◌, ◌≢◌, ◌⊎◌, inl, inr, true, false, List,
  [], ◌∷◌, ◌++◌, arith, length,
}
use os_learning.Base.Run.{ok, panic, Returns}
use os_learning.CString.Defs.{
  Ptr, null, Memory, write, memcpy_loop, copy_loop, memset, memcpy, memcmp, strcpy, strcmp, strchr,
  strrchr, strchrs, skip_loop, strlen, strcat, Holds,
}
use os_learning.CString.Block.{within, memcpy_loop-within}

module _ (m : Memory) where
  -- A string is read from its own bytes alone.
  pub Holds-frame :
      (m' : Memory) (p : Ptr) (xs : List ℕ)
      → Holds m p xs
      → ((a : Ptr) → within p (length xs + 1) a ≡ true → m' a ≡ m a)
      → Holds m' p xs
  Holds-frame m' p [] h same = ground (arith, same p)
  Holds-frame m' p (x ∷ xs) h same =
      (ground (arith, same p), h.1, Holds-frame m' (p + 1) xs h.2 (λ a i. same a (ground arith)))

  -- A copy of its bytes is the same string.
  Holds-copy :
      (m' : Memory) (p q : Ptr) (xs : List ℕ)
      → Holds m p xs
      → ((i : ℕ) → i ≤ length xs → m' (q + i) ≡ m (p + i))
      → Holds m' q xs
  Holds-copy m' p q [] h same = ground (arith, same 0, ap m' (add-zero q), ap m (add-zero p))
  Holds-copy m' p q (x ∷ xs) h same = (
    ground (arith, same 0, ap m' (add-zero q), ap m (add-zero p)),
    h.1,
    Holds-copy m' (p + 1) (q + 1) xs h.2 λ i le.
        let e : q + 1 + i ≡ q + suc i = omega arith in
        let e' : p + 1 + i ≡ p + suc i = omega arith in rw (e, e') (same (suc i) (omega arith)),
  )

  -- What stands behind the bytes of a string that are left alone, less its 0, extends it.
  Holds-append :
      (m' : Memory) (p : Ptr) (xs ys : List ℕ)
      → Holds m p xs
      → ((a : Ptr) → within p (length xs) a ≡ true → m' a ≡ m a)
      → Holds m' (p + length xs) ys
      → Holds m' p (xs ++ ys)
  Holds-append m' p [] ys h same k = rw add-zero at k
  Holds-append m' p (x ∷ xs) ys h same k =
      let e : p + suc (length xs) ≡ p + 1 + length xs = omega arith in
      (
        ground (arith, same p),
        h.1,
        Holds-append m' (p + 1) xs ys h.2 (λ a i. same a (ground (arith, i))) (rw e at k),
      )

  skip_loop-length :
      (fuel : ℕ) (p : Ptr) (xs : List ℕ)
      → Holds m p xs
      → length xs < fuel
      → skip_loop fuel p m ≡ ok (p + length xs + 1)
  unfolding skip_loop
  skip_loop-length zero p xs h f = absurd (omega arith)
  skip_loop-length (suc fuel) p [] h f = ground arith
  skip_loop-length (suc fuel) p (x ∷ xs) h f =
      ground (arith, skip_loop-length fuel (p + 1) xs h.2 (omega arith))

  -- `strlen` is the number of bytes before the 0.
  pub strlen-length :
      (fuel : ℕ) (p : Ptr) (xs : List ℕ)
      → Holds m p xs
      → p ≢ null
      → length xs < fuel
      → length xs < 2 ^ 32
      → strlen fuel p m ≡ ok (length xs)
  unfolding strlen
  strlen-length fuel p xs h ne f small = rw (skip_loop-length fuel p xs h f) (ground arith)

-- The loop of `strcpy` is `memcpy` of the string and its 0.
copy_loop-memcpy_loop :
    (fuel : ℕ) (dst src : Ptr) (m : Memory) (xs : List ℕ)
    → Holds m src xs
    → length xs < fuel
    → (dst ≤ src) ⊎ (src + length xs < dst)
    → copy_loop fuel dst src m ≡ ok (memcpy_loop dst src (suc (length xs)) m)
unfolding copy_loop memcpy_loop
copy_loop-memcpy_loop zero dst src m xs h f far = absurd (omega arith)
copy_loop-memcpy_loop (suc fuel) dst src m [] h f far = ground arith
copy_loop-memcpy_loop (suc fuel) dst src m (x ∷ xs) h f far =
    let rest =
      copy_loop-memcpy_loop fuel (dst + 1) (src + 1) (write m dst (m src)) xs
        (Holds-frame m (write m dst (m src)) (src + 1) xs h.2 (λ a i. ground (arith, i)))
        (omega arith) (next far) in
    ground (arith, rest)
  where
    next :
        (dst ≤ src) ⊎ (src + suc (length xs) < dst)
        → (dst + 1 ≤ src + 1) ⊎ (src + 1 + length xs < dst + 1)
    next (inl g) = inl (omega arith)
    next (inr g) = inr (omega arith)

-- The string `xs` stands at `q`, and the memory outside it is as before.
abbrev pub Copied : Memory → (q : Ptr) → List ℕ → Memory → Type 0
Copied m q xs m' = Holds m' q xs × ((a : Ptr) → within q (suc (length xs)) a ≡ false → m' a ≡ m a)

memcpy_loop-Copied :
    (dst src : Ptr) (m : Memory) (xs : List ℕ)
    → Holds m src xs
    → (dst ≤ src) ⊎ (src + length xs < dst)
    → Copied m dst xs (memcpy_loop dst src (suc (length xs)) m)
memcpy_loop-Copied dst src m xs h far = (
  Holds-copy m _ src dst xs h (λ i le.
      let e : src + (dst + i - dst) ≡ src + i = omega arith in
      ground (arith, memcpy_loop-within dst src (suc (length xs)) m (dst + i) (next far), ap m e)),
  λ a out. memcpy_loop-within dst src (suc (length xs)) m a (next far) ∙ rw out,
)
  where
    next : (dst ≤ src) ⊎ (src + length xs < dst) → (dst ≤ src) ⊎ (src + suc (length xs) ≤ dst)
    next (inl g) = inl (omega arith)
    next (inr g) = inr (omega arith)

-- `strcpy` copies the string and its 0 and returns the destination, where the source starts behind
-- the destination or ends before it.
pub strcpy-Copied :
    (fuel : ℕ) (dst src : Ptr) (m : Memory) (xs : List ℕ)
    → Holds m src xs
    → dst ≢ null
    → src ≢ null
    → length xs < fuel
    → (dst ≤ src) ⊎ (src + length xs < dst)
    → Returns (λ (p, m'). (p ≡ dst) × Copied m dst xs m') (strcpy fuel dst src m)
unfolding strcpy
strcpy-Copied fuel dst src m xs h ne ne' f far = (
  (dst, memcpy_loop dst src (suc (length xs)) m),
  ground (arith, copy_loop-memcpy_loop fuel dst src m xs h f far),
  (refl, memcpy_loop-Copied dst src m xs h far),
)

-- For strings behind pointers that are not NULL, with more rounds than their lengths together,
-- `strcat` returns the first pointer with the two strings one after the other there, and writes no
-- byte but those of the second and its NUL; the second lies behind the end of the first or ends
-- before it.
pub strcat-append :
    (fuel : ℕ) (dst src : Ptr) (m : Memory) (xs ys : List ℕ)
    → Holds m dst xs
    → Holds m src ys
    → dst ≢ null
    → src ≢ null
    → length xs + length ys < fuel
    → (dst + length xs ≤ src) ⊎ (src + length ys < dst + length xs)
    → Returns
        (λ (p, m').
          (p ≡ dst)
          × Holds m' dst (xs ++ ys)
          × ((a : Ptr) → within (dst + length xs) (suc (length ys)) a ≡ false → m' a ≡ m a))
        (strcat fuel dst src m)
unfolding strcat
strcat-append fuel dst src m xs ys h k ne ne' f far =
    let end : Ptr = dst + length xs in
    let (back, same) = memcpy_loop-Copied end src m ys k far in
    (
      (dst, memcpy_loop end src (suc (length ys)) m),
      rw (skip_loop-length m fuel dst xs h (omega arith)) (
          let e : end + 1 - 1 ≡ end = omega arith in
          rw e (ground (arith, copy_loop-memcpy_loop fuel end src m ys k (omega arith) far))),
      (refl, Holds-append m _ dst xs ys h (λ a i. same a (ground (arith, i))) back, same),
    )

-- A NULL argument fails the ASSERT of each function, whatever the others are; `memcmp` asks for two.
pub null_panics :
    (fuel : ℕ) (p : Ptr) (v n : ℕ) (m : Memory)
    → (memset null v n m ≡ panic)
      × (memcpy null p n m ≡ panic)
      × (memcpy p null n m ≡ panic)
      × (memcmp null null n m ≡ panic)
      × (strcpy fuel null p m ≡ panic)
      × (strcpy fuel p null m ≡ panic)
      × (strlen fuel null m ≡ panic)
      × (strcmp fuel null p m ≡ panic)
      × (strcmp fuel p null m ≡ panic)
      × (strchr fuel null v m ≡ panic)
      × (strrchr fuel null v m ≡ panic)
      × (strcat fuel null p m ≡ panic)
      × (strcat fuel p null m ≡ panic)
      × (strchrs fuel null v m ≡ panic)
unfolding memset memcpy memcmp strcpy strlen strcmp strchr strrchr strcat strchrs
null_panics fuel p v n m = (
  refl,
  refl,
  ground arith,
  refl,
  refl,
  ground arith,
  refl,
  refl,
  ground arith,
  refl,
  refl,
  refl,
  ground arith,
  refl,
)
