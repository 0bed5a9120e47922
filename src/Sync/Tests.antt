-- ===== src/Sync/Tests.antt =====
-- Semaphores and locks among the four tasks of the scheduler's tests, of which 4 waits.
use os_learning.Base.{◌≡◌, refl, inl, some, [], ◌∷◌, arith}
use os_learning.Base.Run.{ok}
use os_learning.Thread.Tests.{four_tasks}
use os_learning.Sync.{Semaphore, Lock, lock_init}
use os_learning.Sync.Locks.{IsFree, lock_and_release, lock_acquire-release}

abbrev closed : Semaphore
closed = record { value = 0; waiters = 4 ∷ [] }

-- held by the running task, and waited for by 4
abbrev held : Lock
held = record { holder = some 1; semaphore = closed; holder_repeat_nr = 1 }

abbrev other : Lock
other = record { holder = some 2; semaphore = closed; holder_repeat_nr = 1 }

lock_init-IsFree : IsFree lock_init
unfolding lock_init
lock_init-IsFree = record { no_holder = refl; none_waits = refl; up = refl; unused = refl }

lock_acquire-release_example : lock_and_release lock_init four_tasks ≡ ok (lock_init, four_tasks)
lock_acquire-release_example =
    lock_acquire-release lock_init four_tasks 1 (inl lock_init-IsFree) (omega arith)
