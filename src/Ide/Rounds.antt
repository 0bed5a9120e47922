-- ===== src/Ide/Rounds.antt =====
-- One round of a transfer, as the controller sees it.
use os_learning.Base.{
  ℕ, suc, ◌+◌, ◌-◌, ◌*◌, ◌/◌, ◌%◌, ◌^◌, ◌≤◌, ◌<◌, ◌≡◌, refl, ap, ap₂, ◌∙◌, Bool-cases, inl, inr,
  true, false, not, bit_and, bit_or, List, [], ◌∷◌, ◌++◌, ◌==◌, arith, if◌then◌else◌,
}
use os_learning.Base.Run.{ok, panic, Returns}
use os_learning.Thread.Sleep.{ticks_of-panic}
use os_learning.Ide.Defs.{
  Call, outb, expects, waits_disk, Disk, port, device_bits, max_lba, bit_stat_drq, cmd_read_sector,
  cmd_write_sector, select_sector, cmd_out, size_in_bytes, read_from_sector, write2sector, poll,
  busy_wait, read_round, write_round,
}
use os_learning.Ide.Controller.{
  Registers, Command, chosen, expected, asked, drive_of, write_register, decode, events, placed,
  range, stored, fetched, events-outb, data-port,
}

-- a round whose test is 0
poll-free :
    (rounds k : ℕ) (tests status : ℕ → ℕ)
    → (tests k == 0) ≡ true
    → poll (suc rounds) tests status k ≡ ok (not (bit_and (status k) bit_stat_drq == 0))
unfolding poll
poll-free rounds k tests status free = rw free refl

-- a round whose test is not
poll-panic :
    (rounds k : ℕ) (tests status : ℕ → ℕ)
    → (tests k == 0) ≡ false
    → poll (suc rounds) tests status k ≡ panic
unfolding poll
poll-panic rounds k tests status busy = rw (busy, ticks_of-panic 10 (omega arith)) refl

-- `busy_wait` answers whether there is data when its first test is 0.
pub busy_wait-free :
    (tests status : ℕ → ℕ)
    → (tests 0 == 0) ≡ true
    → busy_wait tests status ≡ ok (not (bit_and (status 0) bit_stat_drq == 0))
unfolding busy_wait
busy_wait-free tests status free = poll-free (30 * 1000 - 2) 0 tests status free

-- It never waits: a first test that is not 0 is a PANIC.
busy_wait-panic : (tests status : ℕ → ℕ) → (tests 0 == 0) ≡ false → busy_wait tests status ≡ panic
unfolding busy_wait
busy_wait-panic tests status busy = poll-panic (30 * 1000 - 2) 0 tests status busy

-- the drive that a disk is, by its number
abbrev pub drive : Disk → ℕ
drive hd = if hd.dev_no == 1 then 1 else 0

-- the device register chooses the disk and numbered sectors, without a high part of the number
device-fields :
    (hd : Disk) (top : ℕ)
    → top ≡ 0
    → (bit_or (device_bits hd) top % 2 ^ 8 % 2 ^ 4 ≡ 0)
      × (drive_of (bit_or (device_bits hd) top % 2 ^ 8) ≡ drive hd)
      × (bit_or (device_bits hd) top % 2 ^ 8 / 2 ^ 6 % 2 ≡ 1)
device-fields hd top none = elim (Bool-cases (hd.dev_no == 1)) [
  | inl second ↦ rw (none, second) (refl, refl, refl)
  | inr first ↦ rw (none, first) (refl, refl, refl)
]

-- `select_disk` chooses the disk
pub device_bits-drive : (hd : Disk) → drive_of (device_bits hd) ≡ drive hd
device_bits-drive hd = elim (Bool-cases (hd.dev_no == 1)) [
  | inl second ↦ rw second refl
  | inr first ↦ rw first refl
]

-- the selection and the command
module _ (hd : Disk) (fits : hd.port_base + 7 < 2 ^ 16) (lba secs_op cmd : ℕ)
    (small : lba ≤ max_lba) (few : secs_op ≤ 256) (any : 0 < secs_op) where
  abbrev selects : List Call
  selects =
      outb (port hd 2) (secs_op % 2 ^ 8)
      ∷ outb (port hd 3) (lba % 2 ^ 8)
      ∷ outb (port hd 4) (lba / 2 ^ 8 % 2 ^ 8)
      ∷ outb (port hd 5) (lba / 2 ^ 16 % 2 ^ 8)
      ∷ outb (port hd 6) (bit_or (device_bits hd) (lba / 2 ^ 24) % 2 ^ 8)
      ∷ []

  select-eq : select_sector hd lba secs_op ≡ ok selects
  unfolding select_sector
  select-eq = ground (arith, small)

  abbrev loaded : Registers
  loaded = record {
    count = secs_op % 2 ^ 8;
    low = lba % 2 ^ 8;
    middle = lba / 2 ^ 8 % 2 ^ 8;
    high = lba / 2 ^ 16 % 2 ^ 8;
    device = bit_or (device_bits hd) (lba / 2 ^ 24) % 2 ^ 8;
  }

  abbrev command : Command
  command = record { code = cmd; drive = drive hd; numbered = 1; first = lba; number = secs_op }

  loaded-decode : decode cmd loaded ≡ command
  loaded-decode =
      let (none, drives, numbers) = device-fields hd (lba / 2 ^ 24) (omega arith) in
      let first' : lba % 2 ^ 8
            + lba / 2 ^ 8 % 2 ^ 8 * 2 ^ 8
            + lba / 2 ^ 16 % 2 ^ 8 * 2 ^ 16
            + bit_or (device_bits hd) (lba / 2 ^ 24) % 2 ^ 8 % 2 ^ 4 * 2 ^ 24
          ≡ lba =
        omega (arith, none) in
      let number' : (if secs_op % 2 ^ 8 == 0 then 256 else secs_op % 2 ^ 8) ≡ secs_op =
        ground arith in
      rw (first', number', drives, numbers) refl

  -- the channel's events
  select-events :
      (r : Registers) (calls : List Call)
      → events hd.port_base r (selects ++ cmd_out hd cmd ++ calls)
        ≡ chosen (drive hd) ∷ expected ∷ asked command ∷ events hd.port_base loaded calls
  unfolding cmd_out write_register
  select-events r calls =
      let s7 : List Call = expects ∷ outb (port hd 7) cmd ∷ calls in
      let s6 : List Call = outb (port hd 6) loaded.device ∷ s7 in
      let s5 : List Call = outb (port hd 5) loaded.high ∷ s6 in
      let s4 : List Call = outb (port hd 4) loaded.middle ∷ s5 in
      let s3 : List Call = outb (port hd 3) loaded.low ∷ s4 in
      let r3 : Registers = record r { count = loaded.count } in
      let r4 : Registers = record r3 { low = loaded.low } in
      let r5 : Registers = record r4 { middle = loaded.middle } in
      let r6 : Registers = record r5 { high = loaded.high } in
      let drives = (device-fields hd (lba / 2 ^ 24) (omega arith)).1 in
      events-outb hd fits r 2 loaded.count s3 (omega arith)
      ∙ events-outb hd fits r3 3 loaded.low s4 (omega arith)
      ∙ events-outb hd fits r4 4 loaded.middle s5 (omega arith)
      ∙ events-outb hd fits r5 5 loaded.high s6 (omega arith)
      ∙ events-outb hd fits r6 6 loaded.device s7 (omega arith)
      ∙ ap₂ (λ d es. chosen d ∷ expected ∷ es) drives
          (events-outb hd fits loaded 7 cmd calls (omega arith)
            ∙ ap (λ c. asked c ∷ events hd.port_base loaded calls) loaded-decode)

-- What the channel's events mean, as a list, and a round's part of it: in front of what the later calls mean, from some
-- contents of the registers.
pub record Round {X : Type 0} (means : Registers → List Call → List X) (part : List X)
    (calls : List Call) : Type 0 where
  pub does :
      (r : Registers) (later : List Call)
      → (r' : Registers) × (means r (calls ++ later) ≡ part ++ means r' later)

-- for a write and for a read
abbrev pub stores : Disk → Registers → List Call → List (ℕ × ℕ)
stores hd r calls = stored (drive hd) (events hd.port_base r calls)

abbrev pub fetches : Disk → Registers → List Call → List ℕ
fetches hd r calls = fetched (drive hd) (events hd.port_base r calls)

-- `busy_wait` finds the disk ready
abbrev pub IsReady : (tests status : ℕ → ℕ) → Type 0
IsReady tests status = busy_wait tests status ≡ ok true

words :
    (secs_op : ℕ)
    → 0 < secs_op
    → secs_op ≤ 256
    → size_in_bytes (secs_op % 2 ^ 8) / 2 ≡ secs_op * 256
words secs_op any few = ground arith

module _ (hd : Disk) (fits : hd.port_base + 7 < 2 ^ 16) (tests status : ℕ → ℕ)
    (ready : IsReady tests status) (lba buf done secs_op : ℕ) (small : lba + done ≤ max_lba)
    (low : buf + done * 512 < 2 ^ 32) (few : secs_op ≤ 256) (any : 0 < secs_op) where
  lba-eq : (lba + done) % 2 ^ 32 ≡ lba + done
  lba-eq = omega arith

  buf-eq : (buf + done * 512) % 2 ^ 32 ≡ buf + done * 512
  buf-eq = omega arith

  self : (n : ℕ) → (n == n) ≡ true
  self n = ground arith

  pub read_round-Round :
      Returns
        (Round (fetches hd) (range (lba + done) secs_op))
        (read_round hd tests status lba buf done secs_op)
  unfolding read_round cmd_out read_from_sector
  read_round-Round =
      let select = select-eq hd fits (lba + done) secs_op cmd_read_sector small few any in
      let calls : List Call =
        selects hd fits (lba + done) secs_op cmd_read_sector small few any
        ++ (cmd_out hd cmd_read_sector ++ (waits_disk ∷ []))
        ++ read_from_sector hd (buf + done * 512) secs_op in
      (
        calls,
        rw (lba-eq, select, ready) refl,
        record {
          does = λ r later. (
            loaded hd fits (lba + done) secs_op cmd_read_sector small few any,
            ap (fetched (drive hd)) (
                  select-events hd fits (lba + done) secs_op cmd_read_sector small few any r
                    (waits_disk ∷ read_from_sector hd (buf + done * 512) secs_op ++ later))
                ∙ rw
                    (
                      data-port hd fits,
                      words secs_op any few,
                      self (drive hd),
                      self (secs_op * 256),
                    )
                    refl,
          );
        },
      )

  pub write_round-Round :
      Returns
        (Round (stores hd) (placed (lba + done) (buf + done * 512) secs_op))
        (write_round hd tests status lba buf done secs_op)
  unfolding write_round cmd_out write2sector
  write_round-Round =
      let select = select-eq hd fits (lba + done) secs_op cmd_write_sector small few any in
      let calls : List Call =
        selects hd fits (lba + done) secs_op cmd_write_sector small few any
        ++ cmd_out hd cmd_write_sector
        ++ write2sector hd (buf + done * 512) secs_op
        ++ (waits_disk ∷ []) in
      (
        calls,
        rw (lba-eq, buf-eq, select, ready) refl,
        record {
          does = λ r later. (
            loaded hd fits (lba + done) secs_op cmd_write_sector small few any,
            ap (stored (drive hd)) (
                  select-events hd fits (lba + done) secs_op cmd_write_sector small few any r
                    (write2sector hd (buf + done * 512) secs_op ++ (waits_disk ∷ later)))
                ∙ rw
                    (
                      data-port hd fits,
                      words secs_op any few,
                      self (drive hd),
                      self (secs_op * 256),
                    )
                    refl,
          );
        },
      )
