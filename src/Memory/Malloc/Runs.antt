-- ===== src/Memory/Malloc/Runs.antt =====
-- Calls of `sys_malloc` and `sys_free` for blocks of at most 1024 bytes, in any order.
use os_learning.Base.{
  ℕ, ◌+◌, ◌≤◌, ◌≡◌, ◌≢◌, ◌⊎◌, inl, inr, Bool, true, false, some, List, [], ◌∷◌, arith, has, refl,
  ap,
}
use os_learning.Base.Run.{Run, ok, ◌>>=◌, Returns, Returns-at}
use os_learning.Memory.Virtual.{pf_kernel}
use os_learning.Memory.Arena.{block_desc_init, find_desc, block2arena}
use os_learning.Memory.Pages.Heap.{CanTake}
use os_learning.Memory.Pages.One.{IsMapped}
use os_learning.Memory.Malloc.Defs.{Heap, without, malloc_small, free_block}
use os_learning.Memory.Malloc.Sound.{per_arena, Sound}
use os_learning.Memory.Malloc.Apart.{Disjoint, live-Disjoint}
use os_learning.Memory.Malloc.Fresh.{malloc_small-Fresh}
use os_learning.Memory.Malloc.Free.{free_block-Freed}

-- the heap, and the blocks that are given out
pub record State : Type 0 where
  pub heap : Heap
  pub live : List ℕ

pub data Action : Type 0 where
  mallocs : (size : ℕ) → Action
  frees : (b : ℕ) → Action

-- `sys_malloc` with an empty list needs a page. What `sys_free` gets is given out, and the page of an arena's last
-- block is mapped.
abbrev pub May : Action → State → Type 0
May (mallocs size) y =
    (size ≤ 1024)
    × (y.heap.free_list (find_desc block_desc_init size 0) ≡ []
        → CanTake 1 y.heap.vaddr y.heap.memory)
May (frees b) y =
    (has b y.live ≡ true)
    × ((i : ℕ)
        → (y.heap.arenas (block2arena b)).desc ≡ some i
        → (y.heap.arenas (block2arena b)).cnt + 1 ≡ per_arena i
        → IsMapped (block2arena b) y.heap.vaddr y.heap.memory)

abbrev pub execute : Action → State → Run State
execute (mallocs size) y = do
  (b, st) ← malloc_small pf_kernel size y.heap
  ok (record { heap = st; live = b ∷ y.live })
execute (frees b) y = do
  st ← free_block b y.heap
  ok (record { heap = st; live = without b y.live })

abbrev pub IsSound : State → Type 0
IsSound y = (opened : ℕ → Bool) × Sound y.heap opened y.live

pub execute-Sound : (a : Action) (y : State) → IsSound y → May a y → Returns IsSound (execute a y)
execute-Sound (mallocs size) y (opened, v) (small, can) =
    let (r, run, f) = malloc_small-Fresh size small y.heap opened y.live v can in
    (record { heap = r.1; live = r.0 ∷ y.live }, rw run refl, (f.opened_after, f.sound))
execute-Sound (frees b) y (opened, v) (given, mapped) =
    let (st, run, (i, block, after)) =
      free_block-Freed y.heap opened y.live v b given (λ i block last. mapped i block.0.1 last) in
    (record { heap = st; live = without b y.live }, rw run refl, one_of after)
  where
    one_of :
        {A B : Type 0} {st : State} {opened opened' : ℕ → Bool}
        → (A × Sound st.heap opened st.live) ⊎ (B × Sound st.heap opened' st.live)
        → IsSound st
    one_of {opened = opened} (inl (x, s)) = (opened, s)
    one_of {opened' = opened'} (inr (x, s)) = (opened', s)

-- The states that are reached from a heap without arenas by calls that may be made.
pub data Reach (st : Heap) : State → Type 0 where
  begins : Reach st (record { heap = st; live = [] })
  goes : {y y' : State} → Reach st y → (a : Action) → May a y → execute a y ≡ ok y' → Reach st y'

module _ (st : Heap) (empty : (i : ℕ) → st.free_list i ≡ []) where
  begins-Sound : Sound st (λ a. false) []
  begins-Sound = record {
    arena = λ a o. absurd (ground (arith, o));
    page = λ a o. absurd (ground (arith, o));
    taken = λ a o. absurd (ground (arith, o));
    free_in = λ i b h. absurd (ground (arith, h, ap (has b) (empty i)));
    live_in = λ b h. absurd (ground (arith, h));
    once_free = λ i. rw (empty i) tt;
    once_live = tt;
    apart = λ i b h. absurd (ground (arith, h));
    covered = λ i a k o. absurd (ground (arith, o.0));
    counted = λ i a o. absurd (ground (arith, o.0));
    total = λ i a o. absurd (ground (arith, o.0));
  }

  pub Reach-Sound : {y : State} → Reach st y → IsSound y
  Reach-Sound begins = (λ a. false, begins-Sound)
  Reach-Sound (goes {y} r a may run) = Returns-at (execute-Sound a y (Reach-Sound r) may) run

  -- In each heap that such calls reach from one whose free lists are empty, a further call that may
  -- be made returns, and its heap is reached.
  pub Reach-returns :
      (y : State) (a : Action)
      → Reach st y
      → May a y
      → (y' : State) × (execute a y ≡ ok y') × Reach st y'
  Reach-returns y a r may =
      let (y', run, s) = execute-Sound a y (Reach-Sound r) may in (y', run, goes r a may run)

  -- From a heap whose free lists are empty, by calls of `sys_malloc`'s part for at most 1024 bytes
  -- and of `free_block` for blocks that are given out, in any order, each with a page to take or to
  -- give back where the call needs one: two different blocks that are given out are blocks of
  -- arenas, and one ends before the other begins.
  pub blocks_apart :
      (y : State) (b c : ℕ)
      → Reach st y
      → has b y.live ≡ true
      → has c y.live ≡ true
      → b ≢ c
      → (opened : ℕ → Bool) × Disjoint y.heap opened b c
  blocks_apart y b c r h h' ne =
      let (opened, v) = Reach-Sound r in (opened, live-Disjoint y.heap opened y.live v b c h h' ne)
