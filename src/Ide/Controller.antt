-- ===== src/Ide/Controller.antt =====
-- What a channel's controller and its two drives make of the driver's calls: the registers, the commands, and the
-- sectors that are written or read.
use os_learning.Base.{
  ℕ, zero, suc, ◌+◌, ◌-◌, ◌*◌, ◌/◌, ◌%◌, ◌^◌, ◌≤◌, ◌<◌, ◌≡◌, ap, ap₂, ◌∙◌, ◌&&◌, List, [], ◌∷◌,
  ◌++◌, ◌==◌, true, arith, if◌then◌else◌,
}
use os_learning.Ide.Defs.{Call, outb, outsw, insw, expects, waits_disk, Disk, port}

pub record Registers : Type 0 where
  pub count : ℕ
  pub low : ℕ
  pub middle : ℕ
  pub high : ℕ
  pub device : ℕ

-- A command: the drive that it is for, whether its sectors are numbered (1) or stand for cylinder and head (0), the
-- first sector and their number.
pub record Command : Type 0 where
  pub code : ℕ
  pub drive : ℕ
  pub numbered : ℕ
  pub first : ℕ
  pub number : ℕ

-- what the channel sees: a drive is chosen, the driver expects an interrupt, a command is asked for, the driver
-- waits for the interrupt, words from memory are given to the data port, words are taken from it
pub data Event : Type 0 where
  chosen : (drive : ℕ) → Event
  expected waited : Event
  asked : Command → Event
  given : (addr word_cnt : ℕ) → Event
  taken : (word_cnt : ℕ) → Event

-- A byte at an offset from the channel's base.
unfoldable pub write_register : ℕ → ℕ → Registers → Registers
write_register k v r =
    if k == 2
    then record r { count = v }
    else if k == 3
    then record r { low = v }
    else if k == 4
    then record r { middle = v }
    else if k == 5
    then record r { high = v }
    else if k == 6
    then record r { device = v }
    else r

-- the drive's bit of the device register
abbrev pub drive_of : (device : ℕ) → ℕ
drive_of device = device / 2 ^ 4 % 2

-- A count of 0 stands for 256; the sector's number has 28 bits.
abbrev pub decode : (code : ℕ) → Registers → Command
decode code r = record {
  code = code;
  drive = drive_of r.device;
  numbered = r.device / 2 ^ 6 % 2;
  first = r.low + r.middle * 2 ^ 8 + r.high * 2 ^ 16 + r.device % 2 ^ 4 * 2 ^ 24;
  number = if r.count == 0 then 256 else r.count;
}

-- the events of a channel whose ports start at `base`, from the registers' contents
abbrev pub events : (base : ℕ) → Registers → List Call → List Event
events base r [] = []
events base r (outb p v ∷ calls) =
    let later = events base (write_register (p - base) v r) calls in
    if p - base == 7
    then asked (decode v r) ∷ later
    else if p - base == 6
    then chosen (drive_of v) ∷ later
    else later
events base r (outsw p a n ∷ calls) =
    let later = events base r calls in if p == base then given a n ∷ later else later
events base r (insw p n ∷ calls) =
    let later = events base r calls in if p == base then taken n ∷ later else later
events base r (expects ∷ calls) = expected ∷ events base r calls
events base r (waits_disk ∷ calls) = waited ∷ events base r calls
events base r (_ ∷ calls) = events base r calls

-- `n` sectors from `first` on, each with the address of its 512 bytes
abbrev pub placed : (first addr n : ℕ) → List (ℕ × ℕ)
placed first addr zero = []
placed first addr (suc n) = (first, addr) ∷ placed (first + 1) (addr + 512) n

-- the `n` numbers from `a` on
abbrev pub range : ℕ → ℕ → List ℕ
range a zero = []
range a (suc n) = a ∷ range (a + 1) n

-- What drive `drive` stores, as sectors with the addresses that their bytes come from: each command is WRITE SECTORS
-- for numbered sectors of this drive, gets 256 words for each sector, and is waited for. What stands behind an event
-- that does not fit is lost.
abbrev pub stored : (drive : ℕ) → List Event → List (ℕ × ℕ)
stored drive (chosen d ∷ es) = if d == drive then stored drive es else []
stored drive (expected ∷ asked c ∷ given a n ∷ waited ∷ es) =
    if c.code == 0x30 && c.drive == drive && c.numbered == 1 && n == c.number * 256
    then placed c.first a c.number ++ stored drive es
    else []
stored drive _ = []

-- The sectors that drive `drive` is asked for and whose words are taken, each time after the interrupt: each command is
-- READ SECTORS.
abbrev pub fetched : (drive : ℕ) → List Event → List ℕ
fetched drive (chosen d ∷ es) = if d == drive then fetched drive es else []
fetched drive (expected ∷ asked c ∷ waited ∷ taken n ∷ es) =
    if c.code == 0x20 && c.drive == drive && c.numbered == 1 && n == c.number * 256
    then range c.first c.number ++ fetched drive es
    else []
fetched drive _ = []

pub placed-append :
    (first addr n m : ℕ)
    → placed first addr n ++ placed (first + n) (addr + n * 512) m ≡ placed first addr (n + m)
placed-append first addr zero m =
    let here : first + 0 ≡ first = omega arith in
    let from : addr + 0 * 512 ≡ addr = omega arith in
    let count : m ≡ 0 + m = omega arith in
    ap₂ (λ f a. placed f a m) here from ∙ ap (placed first addr) count
placed-append first addr (suc n) m =
    let next : first + suc n ≡ first + 1 + n = omega arith in
    let from : addr + suc n * 512 ≡ addr + 512 + n * 512 = omega arith in
    let count : suc (n + m) ≡ suc n + m = omega arith in
    ap₂ (λ f a. (first, addr) ∷ (placed (first + 1) (addr + 512) n ++ placed f a m)) next from
    ∙ ap (λ l. (first, addr) ∷ l) (placed-append (first + 1) (addr + 512) n m)
    ∙ ap (placed first addr) count

pub range-append : (a n m : ℕ) → range a n ++ range (a + n) m ≡ range a (n + m)
range-append a zero m =
    let here : a + 0 ≡ a = omega arith in
    let count : m ≡ 0 + m = omega arith in ap₂ range here count
range-append a (suc n) m =
    let next : a + suc n ≡ a + 1 + n = omega arith in
    let count : suc (n + m) ≡ suc n + m = omega arith in
    ap (λ b. a ∷ (range (a + 1) n ++ range b m)) next
    ∙ ap (λ l. a ∷ l) (range-append (a + 1) n m)
    ∙ ap (range a) count

module _ (hd : Disk) (fits : hd.port_base + 7 < 2 ^ 16) where
  offset : (k : ℕ) → k ≤ 7 → port hd k - hd.port_base ≡ k
  offset k small = omega arith

  -- a byte at a register's port
  pub events-outb :
      (r : Registers) (k v : ℕ) (calls : List Call)
      → k ≤ 7
      → events hd.port_base r (outb (port hd k) v ∷ calls) ≡ (
          let later = events hd.port_base (write_register k v r) calls in
          if k == 7
          then asked (decode v r) ∷ later
          else if k == 6
          then chosen (drive_of v) ∷ later
          else later)
  events-outb r k v calls small =
      ap
        (λ o.
          if o == 7
          then asked (decode v r) ∷ events hd.port_base (write_register o v r) calls
          else if o == 6
          then chosen (drive_of v) ∷ events hd.port_base (write_register o v r) calls
          else events hd.port_base (write_register o v r) calls)
        (offset k small)

  pub data-port : (port hd 0 == hd.port_base) ≡ true
  data-port = ground arith
