-- ===== src/Process/Directory.antt =====
-- `create_page_dir`: a process has the kernel's part of the directory, and nothing else.
use os_learning.Base.{
  ℕ, ◌+◌, ◌-◌, ◌*◌, ◌^◌, ◌<◌, ◌≤◌, ◌≡◌, refl, sym, ap, ◌∙◌, Option, some, arith, update,
}
use mathlib.Core.Path.{subst}
use os_learning.Base.Run.{ok, Returns}
use os_learning.Sync.Locks.{IsFree}
use os_learning.Memory.{pte_ptr, pde_ptr, addr_v2p, entry_for}
use os_learning.Memory.Mapping.{MapsTo, MapsTo-same, pte_ptr-range}
use os_learning.Memory.Pages.{Spaces, get_kernel_pages}
use os_learning.Memory.Pages.Taking.{at-first, page_at}
use os_learning.Memory.Pages.Heap.{CanTake}
use os_learning.Memory.Pages.Kernel.{Zeroed, get_kernel_pages-Zeroed}
use os_learning.Process.Defs.{copy_entries, create_page_dir}

-- The directory at `dir` has the kernel's entries, none of a user's page, and in its last one its own page.
pub record SharesKernel (st : Spaces) (r : Option ℕ × Spaces) : Type 0 where
  pub dir : ℕ
  pub answer : r.0 ≡ some dir
  pub kernel :
      (i : ℕ)
      → 768 ≤ i
      → i < 1023
      → r.1.memory.word (dir + i * 4) ≡ st.memory.word (0xfffff000 + i * 4)
  pub user : (i : ℕ) → i < 768 → r.1.memory.word (dir + i * 4) ≡ 0
  pub page : ℕ
  pub own : r.1.memory.word (dir + 1023 * 4) ≡ entry_for page
  pub maps : MapsTo dir page r.1.memory.word

pde_ptr-entry : (i : ℕ) → i < 1023 → pde_ptr (i * 2 ^ 22) ≡ 0xfffff000 + i * 4
unfolding pde_ptr
pde_ptr-entry i less = omega arith

module _ (st : Spaces) (answer : Option ℕ) (st' : Spaces) (z : Zeroed 1 st (answer, st')) where
  abbrev dir : ℕ
  dir = z.vaddr

  abbrev copied : ℕ → ℕ
  copied = copy_entries dir st'.memory.word

  low : dir + 4096 ≤ 0xffc00000
  low = omega (arith, z.low)

  abbrev page : ℕ
  page = page_at st.memory.kernel_pool (z.idx 0)

  maps-new : MapsTo dir page st'.memory.word
  maps-new = subst (λ v. MapsTo v page st'.memory.word) (at-first dir) (z.maps 0 (omega arith))

  physical : addr_v2p copied dir ≡ page
  unfolding copy_entries
  physical =
      let above = (pte_ptr-range dir (omega (arith, low))).0 in
      let kept : copied (pte_ptr dir) ≡ st'.memory.word (pte_ptr dir) =
        ground (arith, low, above) in
      omega (arith, (MapsTo-same dir page st'.memory.word copied kept maps-new).1, z.whole)

  abbrev filled : ℕ → ℕ
  filled = update copied (dir + 1023 * 4) (entry_for page)

  filled-SharesKernel :
      SharesKernel st (some dir, record st' { memory = record st'.memory { word = filled } })
  unfolding copy_entries
  filled-SharesKernel = record {
    dir = dir;
    answer = refl;
    kernel = λ i from to.
        let source : dir + i * 4 - (dir + 0x300 * 4) + (0xfffff000 + 0x300 * 4)
            ≡ 0xfffff000 + i * 4 =
          omega arith in
        let copies : filled (dir + i * 4) ≡ st'.memory.word (0xfffff000 + i * 4) =
          ground (arith, source) in
        copies
        ∙ ap st'.memory.word (sym (pde_ptr-entry i to))
        ∙ z.directory (i * 2 ^ 22) (omega arith)
        ∙ ap st.memory.word (pde_ptr-entry i to);
    user = λ i less.
        let zero : st'.memory.word (dir + i * 4) ≡ 0 =
          z.zeros (dir + i * 4) (omega arith) (omega arith) in
        ground (arith, zero);
    page = page;
    own = ground arith;
    maps =
        let above = (pte_ptr-range dir (omega (arith, low))).0 in
        MapsTo-same dir page st'.memory.word filled (ground (arith, low, above)) maps-new;
  }

-- Where a page can be taken for the kernel and its lock is free, `create_page_dir` returns a
-- directory whose entries 768 to 1022 are those of the directory in use, whose entries below 768
-- are 0, and whose last entry leads to the page of the directory itself, to which its address is
-- mapped.
pub create_page_dir-SharesKernel :
    (st : Spaces)
    → IsFree st.kernel_lock
    → CanTake 1 st.kernel_vaddr st.memory
    → Returns (SharesKernel st) (create_page_dir st)
unfolding create_page_dir
create_page_dir-SharesKernel st free c =
    let ((answer, st'), run, z) = get_kernel_pages-Zeroed 1 st free c in
    let given : get_kernel_pages 1 st ≡ ok (some z.vaddr, st') =
      run ∙ ap (λ a. ok (a, st')) z.answer in
    (_, rw (given, physical st answer st' z) refl, filled-SharesKernel st answer st' z)
