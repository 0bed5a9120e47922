-- ===== src/Ide/Transfers.antt =====
-- `ide_read` and `ide_write`: all sectors, in order, and enough rounds.
use os_learning.Base.{
  ℕ, zero, suc, ◌+◌, ◌-◌, ◌*◌, ◌%◌, ◌^◌, ◌≤◌, ◌<◌, ◌≡◌, refl, sym, ap, ap₂, ◌∙◌, Bool-cases, inl,
  inr, true, List, [], ◌∷◌, ◌++◌, ltb, leb, arith, ltb→lt, lt→ltb, ◌==◌,
}
use mathlib.Core.List.{append_assoc, append-nil}
use os_learning.Base.Run.{Run, Returns}
use os_learning.Ide.Defs.{
  Call, takes_lock, drops_lock, Disk, max_lba, chunk, read_round, write_round, rounds, select_disk,
  device_bits, ide_read, ide_write,
}
use os_learning.Ide.Controller.{
  Registers, chosen, write_register, events, events-outb, stored, fetched, placed, placed-append,
  range, range-append,
}
use os_learning.Ide.Rounds.{
  drive, device_bits-drive, Round, stores, fetches, IsReady, read_round-Round, write_round-Round,
}

-- The calls stand between those of the lock, and mean `all`, whatever the registers were.
abbrev pub Whole :
    {X : Type 0} → (means : Registers → List Call → List X) → (all : List X) → List Call → Type 0
Whole means all calls =
    ((inner : List Call) × (calls ≡ takes_lock ∷ inner ++ (drops_lock ∷ [])))
    × ((r : Registers) → means r calls ≡ all)

-- `part done n` is what `n` sectors behind `done` mean.
module _ {X : Type 0} (means : Registers → List Call → List X) (part : (done n : ℕ) → List X)
    (none : (done : ℕ) → part done 0 ≡ [])
    (join : (done n m : ℕ) → part done n ++ part (done + n) m ≡ part done (n + m)) (sec_cnt : ℕ)
    (round : ℕ → ℕ → Run (List Call)) (end : sec_cnt + 256 < 2 ^ 32)
    (each : (done op : ℕ)
      → done + op ≤ sec_cnt
      → op ≤ 256
      → 0 < op
      → Returns (Round means (part done op)) (round done op)) where
  -- the rounds behind `done` sectors
  abbrev Rest : (done : ℕ) → List Call → Type 0
  Rest done = Round means (part done (sec_cnt - done))

  chunk-bounds :
      (done : ℕ)
      → done < sec_cnt
      → (0 < chunk sec_cnt done)
        × (chunk sec_cnt done ≤ 256)
        × (done + chunk sec_cnt done ≤ sec_cnt)
  chunk-bounds done less = (ground arith, ground arith, ground arith)

  Rest-of_Round :
      (done op : ℕ) (calls rest : List Call)
      → done + op ≤ sec_cnt
      → Round means (part done op) calls
      → Rest (done + op) rest
      → Rest done (calls ++ rest)
  Rest-of_Round done op calls rest fits now next = record {
    does = λ r later.
        let (r1, one) = now.does r (rest ++ later) in
        let (r2, others) = next.does r1 later in
        let count : op + (sec_cnt - (done + op)) ≡ sec_cnt - done = omega arith in
        (
          r2,
          ap (means r) (append_assoc calls rest later)
              ∙ one
              ∙ ap (λ l. part done op ++ l) others
              ∙ sym (
                  append_assoc (part done op) (part (done + op) (sec_cnt - (done + op)))
                    (means r2 later))
              ∙ ap (λ l. l ++ means r2 later)
                  (join done op (sec_cnt - (done + op)) ∙ ap (part done) count),
        );
  }

  Rest-none : (done : ℕ) → done ≡ sec_cnt → Rest done []
  Rest-none done all =
      let zero' : 0 ≡ sec_cnt - done = omega arith in
      record {
        does =
            λ r later. (r, ap (λ l. l ++ means r later) (sym (none done) ∙ ap (part done) zero'));
      }

  rounds-Rest :
      (fuel done : ℕ)
      → done ≤ sec_cnt
      → sec_cnt - done ≤ fuel
      → Returns (Rest done) (rounds fuel round sec_cnt done)
  unfolding rounds
  rounds-Rest zero done within enough = ([], ground (arith, enough), Rest-none done (omega arith))
  rounds-Rest (suc fuel) done within enough = elim (Bool-cases (ltb done sec_cnt)) [
    | inr all ↦ ([], rw all refl, Rest-none done (ground (arith, all)))
    | inl more ↦
        let (any, few, fits) = chunk-bounds done (ltb→lt done sec_cnt more) in
        let op = chunk sec_cnt done in
        let (calls, run, now) = each done op fits few any in
        let (rest, runs, next) = rounds-Rest fuel (done + op) fits (omega arith) in
        let wrap : (done + op) % 2 ^ 32 ≡ done + op = omega arith in
        (
          calls ++ rest,
          rw (more, wrap, run, runs) refl,
          Rest-of_Round done op calls rest fits now next,
        )
  ]

module _ (hd : Disk) (tests status : ℕ → ℕ → ℕ) (lba buf sec_cnt : ℕ)
    (fits : hd.port_base + 7 < 2 ^ 16) (any : 0 < sec_cnt) (on_disk : lba + sec_cnt ≤ max_lba + 1)
    (in_memory : buf + sec_cnt * 512 ≤ 2 ^ 32)
    (ready : (done : ℕ) → IsReady (tests done) (status done)) where
  -- the whole of a transfer, around the rounds
  abbrev around : List Call → List Call
  around calls = takes_lock ∷ select_disk hd ++ calls ++ (drops_lock ∷ [])

  starts : leb lba max_lba ≡ true
  starts = ground (arith, on_disk, any)

  counts : ltb 0 sec_cnt ≡ true
  counts = lt→ltb 0 sec_cnt any

  self : (drive hd == drive hd) ≡ true
  self = ground arith

  abbrev selected : Registers → Registers
  selected = write_register 6 (device_bits hd)

  around-outb :
      (r : Registers) (calls : List Call)
      → events hd.port_base r (around calls)
        ≡ chosen (drive hd) ∷ events hd.port_base (selected r) (calls ++ (drops_lock ∷ []))
  unfolding select_disk
  around-outb r calls =
      events-outb hd fits r 6 (device_bits hd) (calls ++ (drops_lock ∷ [])) (omega arith)
      ∙ ap (λ d. chosen d ∷ events hd.port_base (selected r) (calls ++ (drops_lock ∷ [])))
          (device_bits-drive hd)

  abbrev fetches_part : (done n : ℕ) → List ℕ
  fetches_part done n = range (lba + done) n

  fetches-join :
      (done n m : ℕ) → fetches_part done n ++ fetches_part (done + n) m ≡ fetches_part done (n + m)
  fetches-join done n m =
      let next : lba + (done + n) ≡ lba + done + n = omega arith in
      ap (λ a. range (lba + done) n ++ range a m) next ∙ range-append (lba + done) n m

  -- For a disk whose ports fit, from 1 to all sectors that lie below the limit of 80 MB, a buffer
  -- that ends in memory, and reads of the status register at which each `busy_wait` finds the disk
  -- ready: `ide_read` returns within its rounds, with the call that takes the lock first and that
  -- which gives it back last. As the channel decodes the port instructions, whatever its registers
  -- were, the driver gives this disk READ SECTORS commands for exactly the numbered sectors from
  -- `lba` on, in order, expects the interrupt of each and waits for it, and then calls `insw` at
  -- the data port for 256 words of each sector. Where the words go is left open, as the call names
  -- no buffer.
  pub ide_read-Whole :
      Returns (Whole (fetches hd) (range lba sec_cnt)) (ide_read hd tests status lba buf sec_cnt)
  unfolding ide_read select_disk
  ide_read-Whole =
      let (calls, run, rest) =
        rounds-Rest (fetches hd) fetches_part (λ done. refl) fetches-join sec_cnt
          (λ done op. read_round hd (tests done) (status done) lba buf done op) (omega arith)
          (λ done op within few pos.
            read_round-Round hd fits (tests done) (status done) (ready done) lba buf done op
              (omega arith) (omega arith) few pos)
          sec_cnt 0 (omega arith) (omega arith) in
      let first : lba + 0 ≡ lba = omega arith in
      let count : sec_cnt - 0 ≡ sec_cnt = omega arith in
      (
        around calls,
        rw (starts, counts, run) refl,
        (
          (select_disk hd ++ calls, refl),
          λ r.
              ap (fetched (drive hd)) (around-outb r calls)
              ∙ rw self refl
              ∙ (rest.does (selected r) (drops_lock ∷ [])).1
              ∙ append-nil (range (lba + 0) (sec_cnt - 0))
              ∙ ap₂ range first count,
        ),
      )

  abbrev stores_part : (done n : ℕ) → List (ℕ × ℕ)
  stores_part done n = placed (lba + done) (buf + done * 512) n

  stores-join :
      (done n m : ℕ) → stores_part done n ++ stores_part (done + n) m ≡ stores_part done (n + m)
  stores-join done n m =
      let next : lba + (done + n) ≡ lba + done + n = omega arith in
      let from : buf + (done + n) * 512 ≡ buf + done * 512 + n * 512 = omega arith in
      ap₂ (λ f a. stores_part done n ++ placed f a m) next from
      ∙ placed-append (lba + done) (buf + done * 512) n m

  -- Under the conditions of a read, `ide_write` returns within its rounds, with the call that takes
  -- the lock first and that which gives it back last. As the channel decodes the port instructions,
  -- whatever its registers were, the driver gives this disk WRITE SECTORS commands for exactly the
  -- numbered sectors from `lba` on, in order, expects the interrupt of each, gives the data port
  -- the 512 bytes of each sector, which are those from `buf` on, in order, and then waits for the
  -- interrupt.
  pub ide_write-Whole :
      Returns
        (Whole (stores hd) (placed lba buf sec_cnt))
        (ide_write hd tests status lba buf sec_cnt)
  unfolding ide_write select_disk
  ide_write-Whole =
      let (calls, run, rest) =
        rounds-Rest (stores hd) stores_part (λ done. refl) stores-join sec_cnt
          (λ done op. write_round hd (tests done) (status done) lba buf done op) (omega arith)
          (λ done op within few pos.
            write_round-Round hd fits (tests done) (status done) (ready done) lba buf done op
              (omega arith) (omega arith) few pos)
          sec_cnt 0 (omega arith) (omega arith) in
      let first : lba + 0 ≡ lba = omega arith in
      let from : buf + 0 * 512 ≡ buf = omega arith in
      let count : sec_cnt - 0 ≡ sec_cnt = omega arith in
      (
        around calls,
        rw (starts, counts, run) refl,
        (
          (select_disk hd ++ calls, refl),
          λ r.
              ap (stored (drive hd)) (around-outb r calls)
              ∙ rw self refl
              ∙ (rest.does (selected r) (drops_lock ∷ [])).1
              ∙ append-nil (placed (lba + 0) (buf + 0 * 512) (sec_cnt - 0))
              ∙ ap (λ n. placed (lba + 0) (buf + 0 * 512) n) count
              ∙ ap₂ (λ f a. placed f a sec_cnt) first from,
        ),
      )
