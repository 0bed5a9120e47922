-- ===== src/Ide/Defs.antt =====
-- The functions of device/ide.c. A transfer is the list of its calls: of the port instructions, and of the
-- functions of thread/sync.c that may block. Two calls of the file do not compile, and neither is mended here: `insw`
-- in `read_from_sector` has two arguments and no buffer, and stands as a call of these two; what the call of `inb`
-- with two arguments in `busy_wait` gives is an argument, `tests`.
use os_learning.Base.{
  ℕ, zero, suc, ◌+◌, ◌-◌, ◌*◌, ◌/◌, ◌%◌, ◌^◌, Bool, false, not, ◌||◌, bit_and, bit_or, List, [],
  ◌∷◌, ◌++◌, ltb, leb, ◌==◌, if◌then◌else◌, update,
}
use os_learning.Base.Run.{Run, ok, fault, out_of_fuel, ◌>>=◌, ◌>>◌, assert}
use os_learning.Thread.{Sched}
use os_learning.Thread.Sleep.{ticks_of}
use os_learning.Sync.{Semaphore, Lock, sema_init, lock_init, sema_up}

-- `struct ide_channel` less its disks
pub record Channel : Type 0 where
  pub name : List ℕ
  pub port_base : ℕ
  pub irq_no : ℕ
  pub lock : Lock
  pub expecting_intr : Bool
  pub disk_done : Semaphore

-- The members of `struct disk` that the driver reads: its number, and the base of its channel's ports.
pub record Disk : Type 0 where
  pub dev_no : ℕ
  pub port_base : ℕ

-- a step of the driver that the rest of the machine sees
pub data Call : Type 0 where
  outb : (port data' : ℕ) → Call
  outsw : (port addr word_cnt : ℕ) → Call
  insw : (port word_cnt : ℕ) → Call
  expects takes_lock drops_lock waits_disk : Call

abbrev pub bit_stat_drq : ℕ
bit_stat_drq = 0x8

abbrev pub cmd_read_sector : ℕ
cmd_read_sector = 0x20

abbrev pub cmd_write_sector : ℕ
cmd_write_sector = 0x30

abbrev pub max_lba : ℕ
max_lba = 80 * 1024 * 1024 / 512 - 1

-- the ports of a channel, which `outb` takes as 16 bits
abbrev pub port : Disk → ℕ → ℕ
port hd k = (hd.port_base + k) % 2 ^ 16

-- `BIT_DEV_MBS | BIT_DEV_LBA`, with `BIT_DEV_DEV` for the second disk
abbrev pub device_bits : Disk → ℕ
device_bits hd = if hd.dev_no == 1 then bit_or (bit_or 0xa0 0x40) 0x10 else bit_or 0xa0 0x40

unfoldable pub select_disk : Disk → List Call
select_disk hd = outb (port hd 6) (device_bits hd) ∷ []

-- `dec_cnt` has 8 bits, as has what `outb` writes
unfoldable pub select_sector : Disk → (lba dec_cnt : ℕ) → Run (List Call)
select_sector hd lba dec_cnt = do
  assert (leb lba max_lba)
  ok (
      outb (port hd 2) (dec_cnt % 2 ^ 8)
      ∷ outb (port hd 3) (lba % 2 ^ 8)
      ∷ outb (port hd 4) (lba / 2 ^ 8 % 2 ^ 8)
      ∷ outb (port hd 5) (lba / 2 ^ 16 % 2 ^ 8)
      ∷ outb (port hd 6) (bit_or (device_bits hd) (lba / 2 ^ 24) % 2 ^ 8)
      ∷ [])

unfoldable pub cmd_out : Disk → (cmd : ℕ) → List Call
cmd_out hd cmd = expects ∷ outb (port hd 7) cmd ∷ []

abbrev pub size_in_bytes : (sec_cnt : ℕ) → ℕ
size_in_bytes sec_cnt = if sec_cnt == 0 then 256 * 512 else sec_cnt * 512

-- `buf` is not passed on.
unfoldable pub read_from_sector : Disk → (buf sec_cnt : ℕ) → List Call
read_from_sector hd buf sec_cnt = insw (port hd 0) (size_in_bytes (sec_cnt % 2 ^ 8) / 2) ∷ []

unfoldable pub write2sector : Disk → (buf sec_cnt : ℕ) → List Call
write2sector hd buf sec_cnt = outsw (port hd 0) buf (size_in_bytes (sec_cnt % 2 ^ 8) / 2) ∷ []

-- In round `k`, `tests k` is what `inb(reg_status(channel), BIT_STAT_BSY)` gives, and `status k` the register at the
-- reading behind it. Where the test is not 0 it calls `mtime_sleep(10)`, of which the ASSERT is seen here: the loop
-- behind it only takes time. Behind the last round the function ends without a value.
unfoldable pub poll : (rounds : ℕ) → (tests status : ℕ → ℕ) → (k : ℕ) → Run Bool
poll zero tests status k = fault
poll (suc rounds) tests status k =
    let rest = poll rounds tests status (k + 1) in
    if tests k == 0
    then ok (not (bit_and (status k) bit_stat_drq == 0))
    else do t ← ticks_of 10; rest

-- `time_limit -= 10 >= 0` takes away the value of the comparison, 1: the test fails at 0, after 30 * 1000 - 1
-- rounds.
unfoldable pub busy_wait : (tests status : ℕ → ℕ) → Run Bool
unfolding poll
busy_wait tests status = poll (30 * 1000 - 1) tests status 0

-- the sectors of the next command
abbrev pub chunk : (sec_cnt secs_done : ℕ) → ℕ
chunk sec_cnt secs_done =
    if leb ((secs_done + 256) % 2 ^ 32) sec_cnt then 256 else sec_cnt - secs_done

-- One round of `ide_read`: a disk that is not ready is a PANIC.
unfoldable pub read_round :
    Disk → (tests status : ℕ → ℕ) → (lba buf secs_done secs_op : ℕ) → Run (List Call)
read_round hd tests status lba buf secs_done secs_op = do
  select ← select_sector hd ((lba + secs_done) % 2 ^ 32) secs_op
  let wait = cmd_out hd cmd_read_sector ++ (waits_disk ∷ [])
  ready ← busy_wait tests status
  assert ready
  ok (select ++ wait ++ read_from_sector hd ((buf + secs_done * 512) % 2 ^ 32) secs_op)

-- and one of `ide_write`
unfoldable pub write_round :
    Disk → (tests status : ℕ → ℕ) → (lba buf secs_done secs_op : ℕ) → Run (List Call)
write_round hd tests status lba buf secs_done secs_op = do
  select ← select_sector hd ((lba + secs_done) % 2 ^ 32) secs_op
  ready ← busy_wait tests status
  assert ready
  let written = write2sector hd ((buf + secs_done * 512) % 2 ^ 32) secs_op
  ok (select ++ cmd_out hd cmd_write_sector ++ written ++ (waits_disk ∷ []))

-- The loop of both, whose round takes `secs_done` and `secs_op`.
unfoldable pub rounds :
    (fuel : ℕ) → (round : ℕ → ℕ → Run (List Call)) → (sec_cnt secs_done : ℕ) → Run (List Call)
rounds zero round sec_cnt secs_done = if ltb secs_done sec_cnt then out_of_fuel else ok []
rounds (suc fuel) round sec_cnt secs_done =
    let secs_op = chunk sec_cnt secs_done in
    let rest = rounds fuel round sec_cnt ((secs_done + secs_op) % 2 ^ 32) in
    if ltb secs_done sec_cnt
    then (do calls ← round secs_done secs_op; later ← rest; ok (calls ++ later))
    else ok []

-- `tests secs_done` and `status secs_done` are what the reads of the status register give in the round that starts at
-- `secs_done`.
unfoldable pub ide_read :
    Disk → (tests status : ℕ → ℕ → ℕ) → (lba buf sec_cnt : ℕ) → Run (List Call)
ide_read hd tests status lba buf sec_cnt = do
  assert (leb lba max_lba)
  assert (ltb 0 sec_cnt)
  calls ←
      rounds sec_cnt
        (λ secs_done secs_op.
          read_round hd (tests secs_done) (status secs_done) lba buf secs_done secs_op)
        sec_cnt 0
  ok (takes_lock ∷ select_disk hd ++ calls ++ (drops_lock ∷ []))

unfoldable pub ide_write :
    Disk → (tests status : ℕ → ℕ → ℕ) → (lba buf sec_cnt : ℕ) → Run (List Call)
ide_write hd tests status lba buf sec_cnt = do
  assert (leb lba max_lba)
  assert (ltb 0 sec_cnt)
  calls ←
      rounds sec_cnt
        (λ secs_done secs_op.
          write_round hd (tests secs_done) (status secs_done) lba buf secs_done secs_op)
        sec_cnt 0
  ok (takes_lock ∷ select_disk hd ++ calls ++ (drops_lock ∷ []))

-- "ide" and the digit of a number below 10
abbrev pub channel_name : ℕ → List ℕ
channel_name channel_no = 105 ∷ 100 ∷ 101 ∷ (48 + channel_no) ∷ []

-- A channel as `ide_init` leaves it; `old` is what stands there, for the members that no case of the `switch` writes.
unfoldable pub init_channel : (channel_no : ℕ) → (old : Channel) → Channel
unfolding sema_init lock_init
init_channel channel_no old = record {
  name = channel_name channel_no;
  port_base = if channel_no == 0 then 0x1f0 else if channel_no == 1 then 0x170 else old.port_base;
  irq_no = if channel_no == 0 then 0x20 + 14 else if channel_no == 1 then 0x20 + 15 else old.irq_no;
  lock = lock_init;
  expecting_intr = false;
  disk_done = sema_init 0;
}

-- the loop of `ide_init`, for the channels below `channel_no`; there is room for two
unfoldable pub init_channels : (channel_no : ℕ) → (channels : ℕ → Channel) → Run (ℕ → Channel)
init_channels zero channels = ok channels
init_channels (suc channel_no) channels = do
  before ← init_channels channel_no channels
  if ltb channel_no 2
      then ok (update before channel_no (init_channel channel_no (before channel_no)))
      else fault

-- `hd_cnt` is the byte that the BIOS leaves at 0x475.
unfoldable pub ide_init : (hd_cnt : ℕ) → (channels : ℕ → Channel) → Run (ℕ × (ℕ → Channel))
ide_init hd_cnt channels = do
  assert (ltb 0 hd_cnt)
  let channel_cnt = (hd_cnt + 2 - 1) / 2
  all ← init_channels channel_cnt channels
  ok (channel_cnt, all)

-- the status register is read, which acknowledges the interrupt, after an expected one
unfoldable pub intr_hd_handler :
    (irq_no : ℕ) → (channels : ℕ → Channel) → Sched → Run ((ℕ → Channel) × Sched)
intr_hd_handler irq_no channels s = do
  assert (irq_no == 0x2e || irq_no == 0x2f)
  let ch_no = irq_no - 0x20 - 0xe
  let channel = channels ch_no
  assert (channel.irq_no == irq_no)
  if channel.expecting_intr
      then (do
        (psema, s') ← sema_up channel.disk_done s
        ok (
          update channels ch_no (record channel { expecting_intr = false; disk_done = psema }),
          s',
        ))
      else ok (channels, s)
