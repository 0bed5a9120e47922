-- ===== src/Memory/Reserve.antt =====
-- Runs of virtual pages, given out and taken back by kernel/memory.c.
use os_learning.Base.{
  ℕ, zero, suc, ◌+◌, ◌-◌, ◌*◌, ◌/◌, ◌%◌, ◌^◌, ◌<◌, ◌≤◌, ◌≡◌, refl, sym, ap, ◌∙◌, inl, inr,
  Bool-cases, Bool, true, ◌&&◌, Option, none, some, arith, ltb, leb, ◌==◌, if◌then◌else◌,
}
use os_learning.Base.Run.{Run, ok, panic, ◌>>=◌, Returns}
use os_learning.Bitmap.{Bitmap, bitmap_scan, IsValid, is_free}
use os_learning.Bitmap.Set.{bitmap_set-Wrote}
use os_learning.Bitmap.Scan.{IsWindow, IsAnswer, bitmap_scan-IsAnswer}
use os_learning.Memory.Defs.{page_size}
use os_learning.Memory.Virtual.{pf_kernel, VirtualAddr, set_bits, vaddr_get, vaddr_remove}

-- `n` bits from `i` on have the value, and the others are as before.
pub record WroteRun (btmp : Bitmap) (n i value : ℕ) (btmp' : Bitmap) : Type 0 where
  pub valid : IsValid btmp'
  pub same_len : btmp'.btmp_bytes_len ≡ btmp.btmp_bytes_len
  pub bits :
      (j : ℕ) → is_free btmp' j ≡ (if leb i j && ltb j (i + n) then value == 0 else is_free btmp j)

pub set_bits-WroteRun :
    (n i value : ℕ) (btmp : Bitmap)
    → IsValid btmp
    → i + n ≤ 8 * btmp.btmp_bytes_len
    → value < 2
    → Returns (WroteRun btmp n i value) (set_bits n i value btmp)
unfolding set_bits
set_bits-WroteRun zero i value btmp v h hv =
    (btmp, refl, record { valid = v; same_len = refl; bits = λ j. ground arith })
set_bits-WroteRun (suc n) i value btmp v h hv =
    let (b1, run, (v1, len1, w)) = bitmap_set-Wrote btmp v i value (omega arith) hv in
    let (b2, runs, r) = set_bits-WroteRun n (i + 1) value b1 v1 (omega arith) hv in
    (
      b2,
      rw run runs,
      record {
        valid = r.valid;
        same_len = r.same_len ∙ len1;
        bits = λ j. ground (arith, r.bits j, w j);
      },
    )

-- The bitmap is sound, it has a byte, and the addresses that it stands for end below 2 ^ 32.
pub record IsVirtual (pool : VirtualAddr) : Type 0 where
  pub bitmap : IsValid pool.vaddr_bitmap
  pub fits : pool.vaddr_start + 8 * pool.vaddr_bitmap.btmp_bytes_len * page_size ≤ 2 ^ 32

-- The run of pages from page `j` on, which was free, is given out, at its address.
pub record Reserved (pool : VirtualAddr) (cnt j : ℕ) (r : Option ℕ × VirtualAddr) : Type 0 where
  pub addr : r.0 ≡ some (pool.vaddr_start + j * page_size)
  pub in_pool : j + cnt < pool.vaddr_bitmap.btmp_bytes_len
  pub was_free : IsWindow pool.vaddr_bitmap cnt j
  pub same_start : r.1.vaddr_start ≡ pool.vaddr_start
  pub run : WroteRun pool.vaddr_bitmap cnt j 1 r.1.vaddr_bitmap

-- In a well-formed virtual pool with a window of `cnt` free pages that ends before bit
-- `btmp_bytes_len`, `vaddr_get` for the kernel returns the address of `cnt` pages in a row that
-- were free; it takes them, and changes no other page nor the pool's start.
pub vaddr_get-Reserved :
    (pool : VirtualAddr) (cnt l : ℕ)
    → IsVirtual pool
    → l + cnt < pool.vaddr_bitmap.btmp_bytes_len
    → IsWindow pool.vaddr_bitmap cnt l
    → Returns (λ r. (j : ℕ) × Reserved pool cnt j r) (vaddr_get pf_kernel cnt pool)
unfolding vaddr_get
vaddr_get-Reserved pool cnt l p hl window =
    go (bitmap_scan pool.vaddr_bitmap cnt) (bitmap_scan-IsAnswer cnt p.bitmap (omega arith))
  where
    go :
        (scan : Run (Option ℕ))
        → Returns (IsAnswer pool.vaddr_bitmap cnt 0) scan
        → Returns
            (λ r. (j : ℕ) × Reserved pool cnt j r)
            (scan >>= λ bits_idx_start. elim bits_idx_start [
              | none ↦ panic
              | some i ↦
                  (set_bits cnt i 1 pool.vaddr_bitmap >>= λ btmp. ok (
                    some ((pool.vaddr_start + i * page_size) % 2 ^ 32),
                    record pool { vaddr_bitmap = btmp },
                  ))
            ])
    go scan (none, e, a) = absurd (a l (omega arith) hl window)
    go scan (some j, e, (low, high, w, least)) =
        let (btmp, run, wrote) =
          set_bits-WroteRun cnt j 1 pool.vaddr_bitmap p.bitmap (omega arith) (omega arith) in
        let at : (pool.vaddr_start + j * page_size) % 2 ^ 32 ≡ pool.vaddr_start + j * page_size =
          omega (arith, p.fits) in
        (
          (some (pool.vaddr_start + j * page_size), record pool { vaddr_bitmap = btmp }),
          rw (e, run, at),
          (j, record { addr = refl; in_pool = high; was_free = w; same_start = refl; run = wrote }),
        )

pub vaddr_remove-Reserved :
    (pool : VirtualAddr) (cnt j : ℕ) (r : Option ℕ × VirtualAddr)
    → IsVirtual pool
    → Reserved pool cnt j r
    → Returns
        (λ pool'. (k : ℕ) → is_free pool'.vaddr_bitmap k ≡ is_free pool.vaddr_bitmap k)
        (vaddr_remove (pool.vaddr_start + j * page_size) cnt r.1)
unfolding vaddr_remove
vaddr_remove-Reserved pool cnt j r p w =
    let at : (pool.vaddr_start + j * page_size + 2 ^ 32 - r.1.vaddr_start) % 2 ^ 32 / page_size
        ≡ j =
      omega (arith, p.fits, w.in_pool, w.same_start) in
    let (btmp, run, wrote) =
      set_bits-WroteRun cnt j 0 r.1.vaddr_bitmap w.run.valid
        (omega (arith, w.in_pool, w.run.same_len)) (omega arith) in
    (
      record { vaddr_bitmap = btmp; vaddr_start = r.1.vaddr_start },
      ap (λ i. set_bits cnt i 0 r.1.vaddr_bitmap >>= λ b. ok (record r.1 { vaddr_bitmap = b })) at
          ∙ rw run,
      λ k. free_again k (wrote.bits k),
    )
  where
    free_again :
        (k : ℕ) {f : Bool}
        → f ≡ (if leb j k && ltb k (j + cnt) then true else is_free r.1.vaddr_bitmap k)
        → f ≡ is_free pool.vaddr_bitmap k
    free_again k e = elim (Bool-cases (leb j k && ltb k (j + cnt))) [
      | inl inside ↦
          let there : j + (k - j) ≡ k = ground arith in
          let free : is_free pool.vaddr_bitmap k ≡ true =
            rw there at (w.was_free (k - j) (ground arith)) in
          e ∙ rw inside (sym free)
      | inr outside ↦ e ∙ rw outside (w.run.bits k ∙ rw outside)
    ]

-- `vaddr_get`, and `vaddr_remove` of what it gives; `panic` stands for NULL.
abbrev pub get_and_remove : (pg_cnt : ℕ) → VirtualAddr → Run VirtualAddr
get_and_remove pg_cnt pool = do
  (vaddr, pool1) ← vaddr_get pf_kernel pg_cnt pool
  elim vaddr [ none ↦ panic | some v ↦ vaddr_remove v pg_cnt pool1 ]

-- In a well-formed virtual pool with a window of `cnt` free pages that ends before bit
-- `btmp_bytes_len`, `vaddr_get` for the kernel and then `vaddr_remove` of its answer return with
-- the same pages free as before.
pub vaddr_get-remove :
    (pool : VirtualAddr) (cnt l : ℕ)
    → IsVirtual pool
    → l + cnt < pool.vaddr_bitmap.btmp_bytes_len
    → IsWindow pool.vaddr_bitmap cnt l
    → Returns
        (λ pool'. (k : ℕ) → is_free pool'.vaddr_bitmap k ≡ is_free pool.vaddr_bitmap k)
        (get_and_remove cnt pool)
vaddr_get-remove pool cnt l p hl window =
    let ((a, pool1), run, (j, w)) = vaddr_get-Reserved pool cnt l p hl window in
    let (pool2, back, same) = vaddr_remove-Reserved pool cnt j (a, pool1) p w in
    let given = run ∙ ap (λ b. ok (b, pool1)) w.addr in (pool2, rw given back, same)
