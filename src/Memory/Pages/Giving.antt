-- ===== src/Memory/Pages/Giving.antt =====
-- The loop of `mfree_page`, and the pages that `malloc_page` gives and `mfree_page` takes back.
use os_learning.Base.{
  ℕ, zero, suc, ◌+◌, ◌*◌, ◌/◌, ◌%◌, ◌^◌, ◌<◌, ◌≤◌, ◌≡◌, ◌≢◌, refl, sym, ap, ◌∙◌, Bool-cases, inl,
  inr, Bool, true, false, arith, leb, ◌==◌, if◌then◌else◌,
}
use mathlib.Core.Path.{subst}
use os_learning.Base.Run.{Returns}
use os_learning.Bitmap.{is_free}
use os_learning.Bitmap.Set.{Wrote}
use os_learning.Memory.Defs.{
  page_size, Pool, Memory, pte_ptr, pfree, is_present, addr_v2p, page_table_pte_remove,
}
use os_learning.Memory.Virtual.{PoolFlags, pf_kernel, pf_user}
use os_learning.Memory.Palloc.{IsPool, ArePools, free_in-Wrote}
use os_learning.Memory.Mapping.{MapsTo, MapsTo-same, KeepsOthers, page_table_pte_remove-KeepsOthers}
use os_learning.Memory.Pages.Defs.{pool_of, unmap_page, unmap_pages}
use os_learning.Memory.Pages.Taking.{other, page_at, at, at-next, at-first, each}

-- Page `j` of the pool is free again, and nothing else has changed.
record Given (pf : PoolFlags) (j : ℕ) (m m' : Memory) : Type 0 where
  wrote : Wrote (pool_of pf m).pool_bitmap j 0 (pool_of pf m').pool_bitmap
  same_start : (pool_of pf m').phy_addr_start ≡ (pool_of pf m).phy_addr_start
  same_other : pool_of (other pf) m' ≡ pool_of (other pf) m
  same_word : m'.word ≡ m.word

pfree-Given :
    (pf : PoolFlags) (m : Memory) (j : ℕ)
    → ArePools m
    → j < 8 * (pool_of pf m).pool_bitmap.btmp_bytes_len
    → Returns (Given pf j m) (pfree (page_at (pool_of pf m) j) m)
unfolding pfree
pfree-Given pf_kernel m j a inside =
    let (pool, run, (w, start)) = free_in-Wrote m.kernel_pool j a.kernel inside in
    let low : leb m.user_pool.phy_addr_start (page_at m.kernel_pool j) ≡ false =
      ground (arith, a.apart) in
    (
      record m { kernel_pool = pool },
      rw (low, run) refl,
      record { wrote = w; same_start = start; same_other = refl; same_word = refl },
    )
pfree-Given pf_user m j a inside =
    let (pool, run, (w, start)) = free_in-Wrote m.user_pool j a.user inside in
    let high : leb m.user_pool.phy_addr_start (page_at m.user_pool j) ≡ true = ground arith in
    (
      record m { user_pool = pool },
      rw (high, run) refl,
      record { wrote = w; same_start = start; same_other = refl; same_word = refl },
    )

-- `n` pages are mapped from `v` on, to the pages `idx`; when they are free, the free pages are those of `f`.
pub record Held (pf : PoolFlags) (n v : ℕ) (f : ℕ → Bool) (m : Memory) (idx : ℕ → ℕ) : Type 0 where
  pub pools : ArePools m
  pub maps : (k : ℕ) → k < n → MapsTo (at v k) (page_at (pool_of pf m) (idx k)) m.word
  pub in_pool : (k : ℕ) → k < n → idx k < 8 * (pool_of pf m).pool_bitmap.btmp_bytes_len
  pub owned : (k : ℕ) → k < n → f (idx k) ≡ true
  pub kept : (x : ℕ) → ((k : ℕ) → k < n → idx k ≢ x) → is_free (pool_of pf m).pool_bitmap x ≡ f x

-- what the loop leaves
pub record Giving (pf : PoolFlags) (n v : ℕ) (f : ℕ → Bool) (m m' : Memory) : Type 0 where
  pub bits : (x : ℕ) → is_free (pool_of pf m').pool_bitmap x ≡ f x
  pub same_other : pool_of (other pf) m' ≡ pool_of (other pf) m
  pub absent : (k : ℕ) → k < n → is_present (m'.word (pte_ptr (at v k))) ≡ false
  pub entries :
      (u : ℕ)
      → u < 2 ^ 32
      → ((k : ℕ) → k < n → u / 2 ^ 12 ≢ at v k / 2 ^ 12)
      → m'.word (pte_ptr u) ≡ m.word (pte_ptr u)

IsPool-Wrote :
    (pool pool' : Pool) (j : ℕ)
    → IsPool pool
    → Wrote pool.pool_bitmap j 0 pool'.pool_bitmap
    → pool'.phy_addr_start ≡ pool.phy_addr_start
    → IsPool pool'
IsPool-Wrote pool pool' j p w start = record {
  bitmap = w.0;
  some_bits = omega (arith, p.some_bits, w.1);
  fits = omega (arith, p.fits, w.1, start);
}

ArePools-Given :
    (pf : PoolFlags) (m m' : Memory) (j : ℕ) → ArePools m → Given pf j m m' → ArePools m'
ArePools-Given pf_kernel m m' j a g = record {
  kernel = IsPool-Wrote m.kernel_pool m'.kernel_pool j a.kernel g.wrote g.same_start;
  user = subst IsPool (sym g.same_other) a.user;
  apart = omega (arith, a.apart, g.wrote.1, g.same_start, ap (λ p. p.phy_addr_start) g.same_other);
}
ArePools-Given pf_user m m' j a g = record {
  kernel = subst IsPool (sym g.same_other) a.kernel;
  user = IsPool-Wrote m.user_pool m'.user_pool j a.user g.wrote g.same_start;
  apart = omega (
    arith,
    a.apart,
    g.same_start,
    ap (λ p. p.phy_addr_start) g.same_other,
    ap (λ p. p.pool_bitmap.btmp_bytes_len) g.same_other,
  );
}

-- only the words have changed
word-pools :
    (pf : PoolFlags) (m : Memory) (word : ℕ → ℕ)
    → pool_of pf (record m { word = word }) ≡ pool_of pf m
word-pools pf_kernel m word = refl
word-pools pf_user m word = refl

-- One round: the page is free, its entry is not present, and the other entries are as before.
record OneGiven (pf : PoolFlags) (v j : ℕ) (m m' : Memory) : Type 0 where
  pools : ArePools m'
  same_start : (pool_of pf m').phy_addr_start ≡ (pool_of pf m).phy_addr_start
  same_len : (pool_of pf m').pool_bitmap.btmp_bytes_len ≡ (pool_of pf m).pool_bitmap.btmp_bytes_len
  bits :
      (x : ℕ)
      → is_free (pool_of pf m').pool_bitmap x
        ≡ (if j == x then true else is_free (pool_of pf m).pool_bitmap x)
  same_other : pool_of (other pf) m' ≡ pool_of (other pf) m
  absent : is_present (m'.word (pte_ptr v)) ≡ false
  entries : KeepsOthers v m.word m'.word

unmap_page-OneGiven :
    (pf : PoolFlags) (v j : ℕ) (m : Memory)
    → ArePools m
    → v < 2 ^ 32
    → v % page_size ≡ 0
    → j < 8 * (pool_of pf m).pool_bitmap.btmp_bytes_len
    → MapsTo v (page_at (pool_of pf m) j) m.word
    → Returns (OneGiven pf v j m) (unmap_page v m)
unfolding unmap_page
unmap_page-OneGiven pf v j m a hv whole inside maps =
    let physical : addr_v2p m.word v ≡ page_at (pool_of pf m) j = omega (arith, maps.1) in
    let (m1, run, g) = pfree-Given pf m j a inside in
    let word' : ℕ → ℕ = page_table_pte_remove v m1.word in
    let r = page_table_pte_remove-KeepsOthers v m1.word hv in
    let pools1 = ArePools-Given pf m m1 j a g in
    let pool1 = word-pools pf m1 word' in
    (
      record m1 { word = word' },
      rw (physical, run) refl,
      record {
        pools = record { kernel = pools1.kernel; user = pools1.user; apart = pools1.apart };
        same_start = ap (λ p. p.phy_addr_start) pool1 ∙ g.same_start;
        same_len = ap (λ p. p.pool_bitmap.btmp_bytes_len) pool1 ∙ g.wrote.1;
        bits = λ x. ap (λ p. is_free p.pool_bitmap x) pool1 ∙ g.wrote.2 x;
        same_other = word-pools (other pf) m1 word' ∙ g.same_other;
        absent = r.0;
        entries = λ u hu ne. r.1 u hu ne ∙ ap (λ w. w (pte_ptr u)) g.same_word;
      },
    )

module _ (pf : PoolFlags) (n v : ℕ) (f : ℕ → Bool) (m : Memory) (idx : ℕ → ℕ)
    (whole : v % page_size ≡ 0) (low : at v (suc n) ≤ 0xffc00000) (h : Held pf (suc n) v f m idx)
    (m1 : Memory) (o : OneGiven pf v (idx 0) m m1) where
  next-Held : Held pf n (v + page_size) f m1 (λ k. idx (suc k))
  next-Held = record {
    pools = o.pools;
    maps = λ k less.
        MapsTo-same (at (v + page_size) k) (page_at (pool_of pf m1) (idx (suc k))) m.word m1.word
          (o.entries (at (v + page_size) k) (omega arith) (λ e. absurd (omega arith)))
          (subst (λ s. MapsTo (at (v + page_size) k) (s + idx (suc k) * page_size) m.word)
            (sym o.same_start)
            (subst (λ a. MapsTo a (page_at (pool_of pf m) (idx (suc k))) m.word) (sym (at-next v k))
              (h.maps (suc k) (omega arith))));
    in_pool = λ k less. omega (arith, h.in_pool (suc k) (omega arith), o.same_len);
    owned = λ k less. h.owned (suc k) (omega arith);
    kept = λ x ne. elim (Bool-cases (idx 0 == x)) [
      | inl here ↦
          let same : idx 0 ≡ x = ground (arith, here) in
          o.bits x ∙ rw here (sym (h.owned 0 (omega arith)) ∙ ap f same)
      | inr there ↦
          o.bits x
          ∙ rw there
              (h.kept x (each n (λ k. idx k ≢ x) (λ e. absurd (ground (arith, there, e))) ne))
    ];
  }

  Giving-front : (m' : Memory) → Giving pf n (v + page_size) f m1 m' → Giving pf (suc n) v f m m'
  Giving-front m' r = record {
    bits = r.bits;
    same_other = r.same_other ∙ o.same_other;
    absent =
        each n (λ k. is_present (m'.word (pte_ptr (at v k))) ≡ false)
          (ap (λ a. is_present (m'.word (pte_ptr a))) (at-first v)
            ∙ ap is_present (r.entries v (omega arith) (λ k less e. absurd (omega arith)))
            ∙ o.absent)
          (λ k less.
            ap (λ a. is_present (m'.word (pte_ptr a))) (sym (at-next v k)) ∙ r.absent k less);
    entries = λ u hu ne.
        r.entries u hu (λ k less. rw (at-next v k) (ne (suc k) (omega arith)))
        ∙ o.entries u hu (λ e. ne 0 (omega arith) (e ∙ ap (λ a. a / 2 ^ 12) (sym (at-first v))));
  }

pub unmap_pages-Giving :
    (pf : PoolFlags) (n v : ℕ) (f : ℕ → Bool) (m : Memory) (idx : ℕ → ℕ)
    → v % page_size ≡ 0
    → at v n ≤ 0xffc00000
    → Held pf n v f m idx
    → Returns (Giving pf n v f m) (unmap_pages n v m)
unfolding unmap_pages
unmap_pages-Giving pf zero v f m idx whole low h = (
  m,
  refl,
  record {
    bits = λ x. h.kept x (λ k less. absurd (omega arith));
    same_other = refl;
    absent = λ k less. absurd (omega arith);
    entries = λ u hu ne. refl;
  },
)
unmap_pages-Giving pf (suc n) v f m idx whole low h =
    let maps : MapsTo v (page_at (pool_of pf m) (idx 0)) m.word =
      subst (λ a. MapsTo a (page_at (pool_of pf m) (idx 0)) m.word) (at-first v)
        (h.maps 0 (omega arith)) in
    let (m1, run, o) =
      unmap_page-OneGiven pf v (idx 0) m h.pools (omega arith) whole (h.in_pool 0 (omega arith))
        maps in
    let wrap : (v + page_size) % 2 ^ 32 ≡ v + page_size = omega arith in
    let (m', runs, r) =
      unmap_pages-Giving pf n (v + page_size) f m1 (λ k. idx (suc k)) (omega arith) (omega arith)
        (next-Held pf n v f m idx whole low h m1 o) in
    (
      m',
      rw run (ap (λ a. unmap_pages n a m1) wrap ∙ runs),
      Giving-front pf n v f m idx whole low h m1 o m' r,
    )
