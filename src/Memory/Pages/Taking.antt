-- ===== src/Memory/Pages/Taking.antt =====
-- The loop of `malloc_page`: fresh pages, each mapped once.
use os_learning.Base.{
  ℕ, zero, suc, ◌+◌, ◌-◌, ◌*◌, ◌/◌, ◌%◌, ◌^◌, ◌<◌, ◌≤◌, ◌≡◌, ◌≢◌, refl, sym, ap, ap₂, ◌∙◌, true,
  false, arith, update,
}
use mathlib.Core.Path.{subst}
use os_learning.Base.Run.{Returns}
use os_learning.Bitmap.{is_free}
use os_learning.Memory.Defs.{page_size, Pool, Memory, pte_ptr, pde_ptr, is_present, entry_for}
use os_learning.Memory.Virtual.{PoolFlags, pf_kernel, pf_user}
use os_learning.Memory.Palloc.{IsPool, IsPool-Taken, Taken, palloc-Taken}
use os_learning.Memory.Mapping.{
  MapsTo, pte_ptr-injective, pte_ptr-ne_pde_ptr, entry_for-MapsTo, page_table_add-eq,
}
use os_learning.Memory.Pages.Defs.{pool_of, set_pool, map_page, map_pages}
use os_learning.Memory.Pages.Count.{count_free, some_free, count_free-taken}

abbrev pub other : PoolFlags → PoolFlags
other pf_kernel = pf_user
other pf_user = pf_kernel

-- a pool of whole pages
pub record IsPagePool (pool : Pool) : Type 0 where
  pub sound : IsPool pool
  pub aligned : pool.phy_addr_start % page_size ≡ 0

-- the address of a page
abbrev pub page_at : Pool → ℕ → ℕ
page_at pool j = pool.phy_addr_start + j * page_size

-- the free pages that `palloc` can find
abbrev pub findable : Pool → ℕ
findable pool = count_free pool.pool_bitmap (pool.pool_bitmap.btmp_bytes_len - 1)

-- Page `j` has been taken and mapped at `v`.
pub record OnePage (pf : PoolFlags) (v : ℕ) (m : Memory) (j : ℕ) (m' : Memory) : Type 0 where
  pub taken : Taken (pool_of pf m) j (page_at (pool_of pf m) j) (pool_of pf m')
  pub word : m'.word ≡ update m.word (pte_ptr v) (entry_for (page_at (pool_of pf m) j))
  pub same_other : pool_of (other pf) m' ≡ pool_of (other pf) m

pool_of-set : (pf : PoolFlags) (pool : Pool) (m : Memory) → pool_of pf (set_pool pf pool m) ≡ pool
pool_of-set pf_kernel pool m = refl
pool_of-set pf_user pool m = refl

other-set :
    (pf : PoolFlags) (pool : Pool) (m : Memory)
    → pool_of (other pf) (set_pool pf pool m) ≡ pool_of (other pf) m
other-set pf_kernel pool m = refl
other-set pf_user pool m = refl

word-set : (pf : PoolFlags) (pool : Pool) (m : Memory) → (set_pool pf pool m).word ≡ m.word
word-set pf_kernel pool m = refl
word-set pf_user pool m = refl

pools-word :
    (pf : PoolFlags) (m : Memory) (word : ℕ → ℕ)
    → pool_of pf (record m { word = word }) ≡ pool_of pf m
pools-word pf_kernel m word = refl
pools-word pf_user m word = refl

module _ (pf : PoolFlags) (v : ℕ) (m : Memory) where
  map_page-OnePage :
      IsPagePool (pool_of pf m)
      → 0 < findable (pool_of pf m)
      → is_present (m.word (pde_ptr v)) ≡ true
      → is_present (m.word (pte_ptr v)) ≡ false
      → Returns (λ m'. (j : ℕ) × OnePage pf v m j m') (map_page pf v m)
  unfolding map_page
  map_page-OnePage p any there absent =
      let (i, less, free) = some_free (pool_of pf m).pool_bitmap _ any in
      let ((page, pool'), run, (j, t)) = palloc-Taken (pool_of pf m) i p.sound (omega arith) free in
      let m1 : Memory = set_pool pf pool' m in
      let word' : ℕ → ℕ = update m1.word (pte_ptr v) (entry_for page) in
      let here : pool_of pf (record m1 { word = word' }) ≡ pool' =
        pools-word pf m1 word' ∙ pool_of-set pf pool' m in
      let same : m1.word ≡ m.word = word-set pf pool' m in
      let add =
        page_table_add-eq v page m1 (ap (λ w. is_present (w (pde_ptr v))) same ∙ there)
          (ap (λ w. is_present (w (pte_ptr v))) same ∙ absent) in
      (
        record m1 { word = word' },
        rw run add,
        (
          j,
          record {
            taken =
                subst (Taken (pool_of pf m) j (page_at (pool_of pf m) j)) (sym here)
                  (subst (λ a. Taken (pool_of pf m) j a pool') t.addr t);
            word = ap₂ (λ w p. update w (pte_ptr v) (entry_for p)) same t.addr;
            same_other = pools-word (other pf) m1 word' ∙ other-set pf pool' m;
          },
        ),
      )

-- the address of page `k` behind `v`
abbrev pub at : ℕ → ℕ → ℕ
at v k = v + k * page_size

-- Pages `idx 0` to `idx (n - 1)` have been taken, and mapped at the `n` pages from `v` on.
pub record Taking (pf : PoolFlags) (n v : ℕ) (m : Memory) (idx : ℕ → ℕ) (m' : Memory) : Type 0 where
  pub sound : IsPagePool (pool_of pf m')
  pub same_start : (pool_of pf m').phy_addr_start ≡ (pool_of pf m).phy_addr_start
  pub same_len :
      (pool_of pf m').pool_bitmap.btmp_bytes_len ≡ (pool_of pf m).pool_bitmap.btmp_bytes_len
  pub maps : (k : ℕ) → k < n → MapsTo (at v k) (page_at (pool_of pf m) (idx k)) m'.word
  pub in_pool : (k : ℕ) → k < n → idx k < 8 * (pool_of pf m).pool_bitmap.btmp_bytes_len
  pub fresh : (k : ℕ) → k < n → is_free (pool_of pf m).pool_bitmap (idx k) ≡ true
  pub apart : (k l : ℕ) → k < n → l < n → idx k ≡ idx l → k ≡ l
  pub taken : (k : ℕ) → k < n → is_free (pool_of pf m').pool_bitmap (idx k) ≡ false
  pub kept :
      (j : ℕ)
      → ((k : ℕ) → k < n → idx k ≢ j)
      → is_free (pool_of pf m').pool_bitmap j ≡ is_free (pool_of pf m).pool_bitmap j
  pub entries :
      (u : ℕ)
      → u < 2 ^ 32
      → ((k : ℕ) → k < n → u / 2 ^ 12 ≢ at v k / 2 ^ 12)
      → m'.word (pte_ptr u) ≡ m.word (pte_ptr u)
  pub directory : (u : ℕ) → u < 0xffc00000 → m'.word (pde_ptr u) ≡ m.word (pde_ptr u)
  pub same_other : pool_of (other pf) m' ≡ pool_of (other pf) m

-- the numbers of the pages, with `j` in front
abbrev in_front : ℕ → (ℕ → ℕ) → ℕ → ℕ
in_front j idx zero = j
in_front j idx (suc k) = idx k

-- the first and the others
pub each {ℓ} :
    (n : ℕ) (P : ℕ → Type ℓ) → P 0 → ((k : ℕ) → k < n → P (suc k)) → (k : ℕ) → k < suc n → P k
each n P first others zero less = first
each n P first others (suc k) less = others k (omega arith)

pub at-next : (v k : ℕ) → at (v + page_size) k ≡ at v (suc k)
at-next v k = omega arith

pub at-first : (v : ℕ) → at v 0 ≡ v
at-first v = omega arith

module _ (pf : PoolFlags) (v : ℕ) (m : Memory) (p : IsPagePool (pool_of pf m)) (j : ℕ) (m1 : Memory)
    (o : OnePage pf v m j m1) where
  one_sound : IsPagePool (pool_of pf m1)
  one_sound = record {
    sound = IsPool-Taken (pool_of pf m) j _ (pool_of pf m1) p.sound o.taken;
    aligned = ap (λ a. a % page_size) o.taken.same_start ∙ p.aligned;
  }

  one-findable : findable (pool_of pf m) ≤ findable (pool_of pf m1) + 1
  one-findable = rw o.taken.bits.1 (
      count_free-taken (pool_of pf m).pool_bitmap (pool_of pf m1).pool_bitmap j
        (λ k. o.taken.bits.2 k) _)

  one-entries :
      v < 2 ^ 32
      → (u : ℕ) → u < 2 ^ 32
      → u / 2 ^ 12 ≢ v / 2 ^ 12
      → m1.word (pte_ptr u) ≡ m.word (pte_ptr u)
  one-entries hv u hu ne = rw o.word (ground (arith, pte_ptr-injective v u hv hu, ne))

  one-directory :
      v < 0xffc00000 → (u : ℕ) → u < 0xffc00000 → m1.word (pde_ptr u) ≡ m.word (pde_ptr u)
  one-directory hv u hu = rw o.word (ground (arith, pte_ptr-ne_pde_ptr v u hv hu))

  now_taken : is_free (pool_of pf m1).pool_bitmap j ≡ false
  now_taken = ground (arith, o.taken.bits.2 j)

  was_free :
      (x : ℕ)
      → is_free (pool_of pf m1).pool_bitmap x ≡ true
      → is_free (pool_of pf m).pool_bitmap x ≡ true
  was_free x free = ground (arith, o.taken.bits.2 x, free)

  same_bit :
      (x : ℕ) → j ≢ x → is_free (pool_of pf m1).pool_bitmap x ≡ is_free (pool_of pf m).pool_bitmap x
  same_bit x ne = ground (arith, o.taken.bits.2 x, ne)

  page-bounds : (page_at (pool_of pf m) j < 2 ^ 32) × (page_at (pool_of pf m) j % 2 ^ 12 ≡ 0)
  page-bounds = (omega (arith, p.sound.fits, o.taken.in_pool), omega (arith, p.aligned))

  -- in front of the pages that the other rounds take
  module _ (n : ℕ) (idx : ℕ → ℕ) (m' : Memory) (whole : v % page_size ≡ 0)
      (low : at v (suc n) ≤ 0xffc00000) (r : Taking pf n (v + page_size) m1 idx m') where
    first-kept : m'.word (pte_ptr v) ≡ entry_for (page_at (pool_of pf m) j)
    first-kept =
        r.entries v (omega arith) (λ k less e. absurd (omega arith)) ∙ rw o.word (ground arith)

    first-other : (k : ℕ) → k < n → j ≢ idx k
    first-other k less e = absurd (ground (arith, r.fresh k less, now_taken, e))

    all-apart : (k l : ℕ) → k < suc n → l < suc n → in_front j idx k ≡ in_front j idx l → k ≡ l
    all-apart zero zero hk hl e = refl
    all-apart zero (suc l) hk hl e = absurd (first-other l (omega arith) e)
    all-apart (suc k) zero hk hl e = absurd (first-other k (omega arith) (sym e))
    all-apart (suc k) (suc l) hk hl e = ap suc (r.apart k l (omega arith) (omega arith) e)

    Taking-front : Taking pf (suc n) v m (in_front j idx) m'
    Taking-front = record {
      sound = r.sound;
      same_start = r.same_start ∙ o.taken.same_start;
      same_len = r.same_len ∙ o.taken.bits.1;
      maps =
          each n (λ k. MapsTo (at v k) (page_at (pool_of pf m) (in_front j idx k)) m'.word)
            (subst (λ a. MapsTo a (page_at (pool_of pf m) j) m'.word) (sym (at-first v))
              (entry_for-MapsTo v _ m'.word page-bounds.0 page-bounds.1 first-kept))
            (λ k less.
              subst (λ s. MapsTo (at v (suc k)) (s + idx k * page_size) m'.word) o.taken.same_start
                (subst (λ a. MapsTo a (page_at (pool_of pf m1) (idx k)) m'.word) (at-next v k)
                  (r.maps k less)));
      in_pool =
          each n (λ k. in_front j idx k < 8 * (pool_of pf m).pool_bitmap.btmp_bytes_len)
            o.taken.in_pool (λ k less. omega (arith, r.in_pool k less, o.taken.bits.1));
      fresh =
          each n (λ k. is_free (pool_of pf m).pool_bitmap (in_front j idx k) ≡ true)
            o.taken.was_free (λ k less. was_free (idx k) (r.fresh k less));
      apart = all-apart;
      taken =
          each n (λ k. is_free (pool_of pf m').pool_bitmap (in_front j idx k) ≡ false)
            (r.kept j (λ k less e. first-other k less (sym e)) ∙ now_taken) r.taken;
      kept =
          λ x ne. r.kept x (λ k less. ne (suc k) (omega arith)) ∙ same_bit x (ne 0 (omega arith));
      entries = λ u hu ne.
          r.entries u hu (λ k less. rw (at-next v k) (ne (suc k) (omega arith)))
          ∙ one-entries (omega arith) u hu
              (λ e. ne 0 (omega arith) (e ∙ ap (λ a. a / 2 ^ 12) (sym (at-first v))));
      directory = λ u hu. r.directory u hu ∙ one-directory (omega arith) u hu;
      same_other = r.same_other ∙ o.same_other;
    }

-- The directory leads to the tables of the `n` pages from `v` on, and none of them is mapped.
pub record AreUnmapped (n v : ℕ) (word : ℕ → ℕ) : Type 0 where
  pub linked : (k : ℕ) → k < n → is_present (word (pde_ptr (at v k))) ≡ true
  pub absent : (k : ℕ) → k < n → is_present (word (pte_ptr (at v k))) ≡ false

-- For `n` pages of virtual memory below 0xffc00000 that are not mapped and whose tables are there, and
-- `n` free pages among those that `palloc` finds, the loop of `malloc_page` returns.
pub map_pages-Taking :
    (pf : PoolFlags) (n v : ℕ) (m : Memory)
    → IsPagePool (pool_of pf m)
    → n ≤ findable (pool_of pf m)
    → v % page_size ≡ 0
    → at v n ≤ 0xffc00000
    → AreUnmapped n v m.word
    → Returns (λ m'. (idx : ℕ → ℕ) × Taking pf n v m idx m') (map_pages pf n v m)
unfolding map_pages
map_pages-Taking pf zero v m p enough whole low free = (
  m,
  refl,
  (
    (λ k. 0),
    record {
      sound = p;
      same_start = refl;
      same_len = refl;
      maps = λ k less. absurd (omega arith);
      in_pool = λ k less. absurd (omega arith);
      fresh = λ k less. absurd (omega arith);
      apart = λ k l hk hl e. absurd (omega arith);
      taken = λ k less. absurd (omega arith);
      kept = λ x ne. refl;
      entries = λ u hu ne. refl;
      directory = λ u hu. refl;
      same_other = refl;
    },
  ),
)
map_pages-Taking pf (suc n) v m p enough whole low free =
    let there : is_present (m.word (pde_ptr v)) ≡ true =
      ap (λ a. is_present (m.word (pde_ptr a))) (sym (at-first v)) ∙ free.linked 0 (omega arith) in
    let absent : is_present (m.word (pte_ptr v)) ≡ false =
      ap (λ a. is_present (m.word (pte_ptr a))) (sym (at-first v)) ∙ free.absent 0 (omega arith) in
    let (m1, run, (j, o)) = map_page-OnePage pf v m p (omega arith) there absent in
    let next : AreUnmapped n (v + page_size) m1.word = record {
      linked = λ k less. rw (at-next v k) (
          ap is_present (one-directory pf v m p j m1 o (omega arith) (at v (suc k)) (omega arith))
          ∙ free.linked (suc k) (omega arith));
      absent = λ k less. rw (at-next v k) (
          ap is_present (
            one-entries pf v m p j m1 o (omega arith) (at v (suc k)) (omega arith)
              (λ e. absurd (omega arith)))
          ∙ free.absent (suc k) (omega arith));
    } in
    let wrap : (v + page_size) % 2 ^ 32 ≡ v + page_size = omega arith in
    let (m', runs, (idx, r)) =
      map_pages-Taking pf n (v + page_size) m1 (one_sound pf v m p j m1 o)
        (omega (arith, enough, one-findable pf v m p j m1 o)) (omega arith) (omega arith) next in
    (
      m',
      rw run (ap (λ a. map_pages pf n a m1) wrap ∙ runs),
      (in_front j idx, Taking-front pf v m p j m1 o n idx m' whole low r),
    )
