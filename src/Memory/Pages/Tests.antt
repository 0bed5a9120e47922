-- ===== src/Memory/Pages/Tests.antt =====
-- Two pools of 32 free pages, and a heap of 32 free addresses whose page tables are there.
use os_learning.Base.{
  ℕ, zero, suc, ◌*◌, ◌<◌, ◌≤◌, ◌≡◌, refl, true, false, [], ◌∷◌, arith, leb, if◌then◌else◌,
}
use os_learning.Base.Run.{Returns}
use os_learning.Bitmap.{Bitmap, is_free}
use os_learning.Bitmap.Scan.{IsWindow}
use os_learning.Sync.{lock_init, sema_init}
use os_learning.Sync.Locks.{IsFree}
use os_learning.Thread.Tests.{four_tasks}
use os_learning.Memory.Defs.{Memory, pte_ptr, pde_ptr, is_present}
use os_learning.Memory.Virtual.{VirtualAddr, pf_kernel}
use os_learning.Memory.Palloc.{ArePools}
use os_learning.Memory.Mapping.{pte_ptr-range}
use os_learning.Memory.Pages.Defs.{Spaces, malloc_page, get_kernel_pages}
use os_learning.Memory.Pages.Taking.{at, findable}
use os_learning.Memory.Pages.Heap.{CanTake, Allocated, malloc_page-Allocated}
use os_learning.Memory.Pages.Kernel.{Zeroed, get_kernel_pages-Zeroed}

abbrev pub bits : Bitmap
bits = record { btmp_bytes_len = 4; bits = 0 ∷ 0 ∷ 0 ∷ 0 ∷ [] }

abbrev pub mem : Memory
mem = record {
  kernel_pool = record { pool_bitmap = bits; phy_addr_start = 0x200000; pool_size = 0x20000 };
  user_pool = record { pool_bitmap = bits; phy_addr_start = 0x220000; pool_size = 0x20000 };
  word = λ a. if leb 0xfffff000 a then 7 else 0;
}

abbrev pub heap : VirtualAddr
heap = record { vaddr_bitmap = bits; vaddr_start = 0xc0100000 }

directory-present : (j : ℕ) → j < 8 * 4 → is_present (mem.word (pde_ptr (at 0xc0100000 j))) ≡ true
unfolding pde_ptr
directory-present j less = ground arith

entry-absent : (j : ℕ) → j < 8 * 4 → is_present (mem.word (pte_ptr (at 0xc0100000 j))) ≡ false
entry-absent j less = let below = (pte_ptr-range (at 0xc0100000 j) (omega arith)).1 in ground arith

are_pools : ArePools mem
are_pools = record {
  kernel = record {
    bitmap = record {
      size = refl;
      bytes = (omega arith, (omega arith, (omega arith, (omega arith, tt))));
    };
    some_bits = omega arith;
    fits = omega arith;
  };
  user = record {
    bitmap = record {
      size = refl;
      bytes = (omega arith, (omega arith, (omega arith, (omega arith, tt))));
    };
    some_bits = omega arith;
    fits = omega arith;
  };
  apart = omega arith;
}

three : 2 ≤ findable mem.kernel_pool
unfolding is_free
three = omega arith

first_two : IsWindow bits 2 0
unfolding is_free
first_two zero less = refl
first_two (suc zero) less = refl
first_two (suc (suc k)) less = absurd (omega arith)

can_take : CanTake 2 heap mem
can_take = record {
  heap = record {
    virtual = record { bitmap = are_pools.kernel.bitmap; fits = omega arith };
    whole = refl;
    low = omega arith;
    linked = directory-present;
    absent = λ j less free. entry-absent j less;
  };
  pools = are_pools;
  aligned = refl;
  some_pages = omega arith;
  few = omega arith;
  enough = three;
  first = 0;
  within = omega arith;
  window = first_two;
}

pub CanTake-one : CanTake 1 heap mem
CanTake-one = record {
  heap = can_take.heap;
  pools = are_pools;
  aligned = refl;
  some_pages = omega arith;
  few = omega arith;
  enough = omega (arith, three);
  first = 0;
  within = omega arith;
  window = λ k less. first_two k (omega arith);
}

malloc_page-Allocated_example : Returns (Allocated 2 heap mem) (malloc_page pf_kernel 2 heap mem)
malloc_page-Allocated_example = malloc_page-Allocated 2 heap mem can_take

abbrev spaces : Spaces
spaces = record {
  memory = mem;
  kernel_vaddr = heap;
  user_vaddr = heap;
  kernel_lock = lock_init;
  user_lock = lock_init;
  sched = four_tasks;
}

pub IsFree-lock : IsFree lock_init
unfolding lock_init sema_init
IsFree-lock = record { no_holder = refl; none_waits = refl; up = refl; unused = refl }

get_kernel_pages-Zeroed_example : Returns (Zeroed 2 spaces) (get_kernel_pages 2 spaces)
get_kernel_pages-Zeroed_example = get_kernel_pages-Zeroed 2 spaces IsFree-lock can_take
