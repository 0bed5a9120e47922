-- ===== src/Ide/Tests.antt =====
-- The second disk of the first channel: 300 sectors in two commands, and a thread that waits for it.
use os_learning.Base.{ℕ, refl, true, [], ◌∷◌, arith}
use os_learning.Base.Run.{Returns}
use os_learning.Thread.Tests.{four_tasks, four_tasks-IsValid}
use os_learning.Sync.{lock_init, sema_init}
use os_learning.Ide.Defs.{Channel, Disk, ide_read, ide_write}
use os_learning.Ide.Controller.{placed, range}
use os_learning.Ide.Rounds.{IsReady, busy_wait-free, stores, fetches}
use os_learning.Ide.Transfers.{Whole, ide_read-Whole, ide_write-Whole}
use os_learning.Ide.Interrupts.{Resumed, wait_for_disk, wait_for_disk-Resumed}

abbrev disk : Disk
disk = record { dev_no = 1; port_base = 0x1f0 }

-- ready with data
abbrev tests : ℕ → ℕ
tests k = 0

abbrev status : ℕ → ℕ
status k = 0x48

ready : (done : ℕ) → IsReady tests status
ready done = busy_wait-free tests status refl

ide_read-Whole_example :
    Returns
      (Whole (fetches disk) (range 10 300))
      (ide_read disk (λ done. tests) (λ done. status) 10 0x10000 300)
ide_read-Whole_example =
    ide_read-Whole disk (λ done. tests) (λ done. status) 10 0x10000 300 (omega arith) (omega arith)
      (omega arith) (omega arith) ready

ide_write-Whole_example :
    Returns
      (Whole (stores disk) (placed 10 0x10000 300))
      (ide_write disk (λ done. tests) (λ done. status) 10 0x10000 300)
ide_write-Whole_example =
    ide_write-Whole disk (λ done. tests) (λ done. status) 10 0x10000 300 (omega arith) (omega arith)
      (omega arith) (omega arith) ready

-- the second channel, with a command under way
abbrev busy : Channel
busy = record {
  name = [];
  port_base = 0x170;
  irq_no = 0x2f;
  lock = lock_init;
  expecting_intr = true;
  disk_done = sema_init 0;
}

wait_for_disk-Resumed_example :
    Returns (Resumed 1 four_tasks) (wait_for_disk 1 (λ k. busy) four_tasks)
wait_for_disk-Resumed_example =
    wait_for_disk-Resumed 1 (λ k. busy) four_tasks 2 (3 ∷ []) (omega arith) refl refl refl
      four_tasks-IsValid refl
