-- ===== src/Memory/Mapping.antt =====
-- The page tables of kernel/memory.c, through their recursive mapping.
use os_learning.Base.{
  ℕ, ◌+◌, ◌*◌, ◌/◌, ◌%◌, ◌^◌, ◌<◌, ◌≤◌, ◌≡◌, refl, ap, ◌∙◌, ◌≢◌, true, false, arith, ◌==◌, update,
}
use os_learning.Base.Bits.{bit_or_seven}
use os_learning.Base.Run.{ok, panic, Returns}
use os_learning.Memory.Defs.{
  page_size, Pool, Memory, pte_ptr, pde_ptr, palloc, is_present, entry_for, clear_page,
  page_table_add, addr_v2p, page_table_pte_remove,
}

-- Two addresses have the same entry only if they lie on the same page.
pub pte_ptr-injective :
    (v1 v2 : ℕ) → v1 < 2 ^ 32 → v2 < 2 ^ 32 → pte_ptr v1 ≡ pte_ptr v2 → v1 / 2 ^ 12 ≡ v2 / 2 ^ 12
unfolding pte_ptr
pte_ptr-injective v1 v2 h1 h2 e = omega arith

-- The entry stands in the last 4 MB of the address space, at the place of a word; and not among the page
-- directory's entries, for an address that is not itself in that part.
pub pte_ptr-range :
    (v : ℕ)
    → v < 0xffc00000
    → (0xffc00000 ≤ pte_ptr v) × (pte_ptr v < 0xfffff000) × (pte_ptr v ≢ pde_ptr v)
unfolding pte_ptr pde_ptr
pte_ptr-range v h = (omega arith, omega arith, λ e. absurd (omega arith))

-- the page on which the entry stands
pte_ptr-table :
    (v : ℕ)
    → v < 2 ^ 32
    → (0xffc00000 + v / 2 ^ 22 * 2 ^ 12 ≤ pte_ptr v)
      × (pte_ptr v < 0xffc00000 + v / 2 ^ 22 * 2 ^ 12 + 2 ^ 12)
      × (pte_ptr v / page_size * page_size ≡ 0xffc00000 + v / 2 ^ 22 * 2 ^ 12)
unfolding pte_ptr
pte_ptr-table v h = (omega arith, omega arith, omega arith)

pub pte_ptr-ne_pde_ptr : (u v : ℕ) → u < 0xffc00000 → v < 0xffc00000 → pte_ptr u ≢ pde_ptr v
unfolding pte_ptr pde_ptr
pte_ptr-ne_pde_ptr u v hu hv e = absurd (omega arith)

-- the words at the entries of all pages but that of `v`
abbrev pub KeepsOthers : (v : ℕ) → (word word' : ℕ → ℕ) → Type 0
KeepsOthers v word word' =
    (u : ℕ) → u < 2 ^ 32 → u / 2 ^ 12 ≢ v / 2 ^ 12 → word' (pte_ptr u) ≡ word (pte_ptr u)

-- `v` is mapped to the page, at its place in it.
abbrev pub MapsTo : (v page : ℕ) → (ℕ → ℕ) → Type 0
MapsTo v page word = (is_present (word (pte_ptr v)) ≡ true) × (addr_v2p word v ≡ page + v % 2 ^ 12)

pub MapsTo-same :
    (u page : ℕ) (word word' : ℕ → ℕ)
    → word' (pte_ptr u) ≡ word (pte_ptr u)
    → MapsTo u page word
    → MapsTo u page word'
unfolding addr_v2p
MapsTo-same u page word word' same (present, leads) = (
  ap is_present same ∙ present,
  ap (λ e. (e / 2 ^ 12 * 2 ^ 12 + u % 2 ^ 12) % 2 ^ 32) same ∙ leads,
)

pub entry_for-MapsTo :
    (v page : ℕ) (word : ℕ → ℕ)
    → page < 2 ^ 32
    → page % 2 ^ 12 ≡ 0
    → word (pte_ptr v) ≡ entry_for page
    → MapsTo v page word
unfolding addr_v2p
entry_for-MapsTo v page word h aligned e =
    let low : word (pte_ptr v) ≡ page / 8 * 8 + 7 = e ∙ bit_or_seven page in
    (ground arith, omega arith)

-- in a table that is there
pub page_table_add-eq :
    (v page : ℕ) (m : Memory)
    → is_present (m.word (pde_ptr v)) ≡ true
    → is_present (m.word (pte_ptr v)) ≡ false
    → page_table_add v page m ≡ ok (record m { word = update m.word (pte_ptr v) (entry_for page) })
unfolding page_table_add
page_table_add-eq v page m there free = rw (there, free)

-- For addresses of 32 bits and a page-aligned page, where the directory entry is present and the
-- table's entry is not, `page_table_add` returns: `addr_v2p` then leads from the address to the
-- page, every other page's entry is as before, and so are the two pools.
pub page_table_add-MapsTo :
    (v page : ℕ) (m : Memory)
    → v < 2 ^ 32
    → page < 2 ^ 32
    → page % 2 ^ 12 ≡ 0
    → is_present (m.word (pde_ptr v)) ≡ true
    → is_present (m.word (pte_ptr v)) ≡ false
    → Returns
        (λ m'.
          MapsTo v page m'.word
          × KeepsOthers v m.word m'.word
          × (m'.kernel_pool ≡ m.kernel_pool)
          × (m'.user_pool ≡ m.user_pool))
        (page_table_add v page m)
page_table_add-MapsTo v page m hv h aligned there free = (
  record m { word = update m.word (pte_ptr v) (entry_for page) },
  page_table_add-eq v page m there free,
  (
    entry_for-MapsTo v page (update m.word (pte_ptr v) (entry_for page)) h aligned (ground arith),
    λ u hu ne. ground (arith, pte_ptr-injective v u hv hu, ne),
    refl,
    refl,
  ),
)

-- An entry that is present already is a PANIC.
pub page_table_add-panic :
    (v page : ℕ) (m : Memory)
    → is_present (m.word (pde_ptr v)) ≡ true
    → is_present (m.word (pte_ptr v)) ≡ true
    → page_table_add v page m ≡ panic
unfolding page_table_add
page_table_add-panic v page m there present = rw (there, present)

-- where a new page table has been made for `v`
abbrev pub NewTable : (v page table : ℕ) → Memory → Pool → Memory → Type 0
NewTable v page table m pool m' =
    MapsTo v page m'.word
    × (m'.word (pde_ptr v) ≡ entry_for table)
    × ((u : ℕ)
        → u < 2 ^ 32
        → u / 2 ^ 22 ≡ v / 2 ^ 22
        → u / 2 ^ 12 ≢ v / 2 ^ 12
        → m'.word (pte_ptr u) ≡ 0)
    × ((u : ℕ)
        → u < 0xffc00000
        → u / 2 ^ 22 ≢ v / 2 ^ 22
        → m'.word (pte_ptr u) ≡ m.word (pte_ptr u))
    × (m'.kernel_pool ≡ pool)

module _ (v page table : ℕ) (m : Memory) (pool : Pool) (hv : v < 0xffc00000) where
  abbrev table_page : ℕ
  table_page = pte_ptr v / page_size * page_size

  abbrev linked : ℕ → ℕ
  linked = update m.word (pde_ptr v) (entry_for table)

  abbrev added : ℕ → ℕ
  added = update (clear_page table_page linked) (pte_ptr v) (entry_for page)

  table_page-nonzero : (table_page == 0) ≡ false
  table_page-nonzero = let r = (pte_ptr-range v hv).0 in ground arith

  in_table : clear_page table_page linked (pte_ptr v) ≡ 0
  in_table = ground arith

  pde_kept : added (pde_ptr v) ≡ entry_for table
  unfolding pte_ptr pde_ptr
  pde_kept = ground arith

  same_table :
      (u : ℕ)
      → u < 2 ^ 32
      → u / 2 ^ 22 ≡ v / 2 ^ 22
      → u / 2 ^ 12 ≢ v / 2 ^ 12
      → added (pte_ptr u) ≡ 0
  same_table u hu e ne =
      let other = pte_ptr-injective v u (omega arith) hu in
      let here = pte_ptr-table v (omega arith) in
      let there = pte_ptr-table u hu in ground (arith, ne)

  other_table :
      (u : ℕ) → u < 0xffc00000 → u / 2 ^ 22 ≢ v / 2 ^ 22 → added (pte_ptr u) ≡ m.word (pte_ptr u)
  other_table u hu ne =
      let here = pte_ptr-table v (omega arith) in
      let there = pte_ptr-table u (omega arith) in
      let apart = pte_ptr-ne_pde_ptr u v hu hv in ground (arith, ne)

  -- For an address below 0xffc00000 and a page-aligned page, where the directory entry is not
  -- present and `palloc` gives a page `table`, `page_table_add` returns: the directory entry links
  -- `table`, `addr_v2p` leads from the address to the page, the entries of the other pages of that
  -- table are 0, those of the other tables below 0xffc00000 are as before, and the kernel's pool is
  -- the one that `palloc` has left.
  pub page_table_add-NewTable :
      page < 2 ^ 32
      → page % 2 ^ 12 ≡ 0
      → is_present (m.word (pde_ptr v)) ≡ false
      → palloc m.kernel_pool ≡ ok (table, pool)
      → Returns (NewTable v page table m pool) (page_table_add v page m)
  unfolding page_table_add
  page_table_add-NewTable h aligned absent run = (
    record m { kernel_pool = pool; word = added },
    rw (absent, run, table_page-nonzero, in_table),
    (
      entry_for-MapsTo v page added h aligned (ground arith),
      pde_kept,
      same_table,
      other_table,
      refl,
    ),
  )

-- For an address of 32 bits, after `page_table_pte_remove` its entry is not present, and every
-- other page's entry is as before.
pub page_table_pte_remove-KeepsOthers :
    (v : ℕ) (word : ℕ → ℕ)
    → v < 2 ^ 32
    → (is_present (page_table_pte_remove v word (pte_ptr v)) ≡ false)
      × KeepsOthers v word (page_table_pte_remove v word)
unfolding page_table_pte_remove
page_table_pte_remove-KeepsOthers v word hv =
    (ground arith, λ u hu ne. ground (arith, pte_ptr-injective v u hv hu, ne))
