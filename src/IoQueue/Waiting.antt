-- ===== src/IoQueue/Waiting.antt =====
-- `ioq_putchar` on a full queue and `ioq_getchar` on an empty one, in device/ioqueue.c.
use os_learning.Base.{
  ℕ, ◌≡◌, refl, ap, ◌∙◌, Bool, true, false, none, some, List, [], ◌∷◌, arith, ◌==◌, length,
}
use os_learning.Base.Run.{fault, Returns}
use os_learning.Interrupt.{intr_off}
use os_learning.Thread.{Tid, task_blocked, Sched, is_off, IsValid}
use os_learning.Thread.Block.{Blocked, thread_block-Blocked}
use os_learning.Sync.Locks.{IsFree, lock_acquire-free}
use os_learning.IoQueue.Defs.{
  IoQueue, ioq_wait, put_round, ioq_putchar, wait_at_consumer, ioq_getchar,
}
use os_learning.IoQueue.Slots.{count, contents, IsQueue}
use os_learning.IoQueue.Ring.{ioq_full-eq, ioq_empty-eq, count-length}

-- The caller sleeps as the queue's producer, with the queue's lock; the bytes are as they were.
abbrev pub Sleeps : IoQueue → Sched → Tid → List Tid → Bool × IoQueue × Sched → Type 0
Sleeps ioq s next rest (passed, ioq', s') =
    (passed ≡ false)
    × (ioq'.producer ≡ some s.running)
    × (ioq'.lock.holder ≡ some s.running)
    × (contents ioq' ≡ contents ioq)
    × Blocked s task_blocked next rest s'

-- With interrupts off, in a valid state with `next` first of the ready queue, `ioq_putchar` into a
-- well-formed queue of 63 bytes with a free lock and no producer noted blocks its caller: it is
-- noted as the producer, it holds the queue's lock, the contents are as before, and `next` runs.
pub ioq_putchar-Sleeps :
    (ioq : IoQueue) (chr : ℕ) (s : Sched) (next : Tid) (rest : List Tid)
    → IsQueue ioq
    → s.intr ≡ intr_off
    → length (contents ioq) ≡ 63
    → IsFree ioq.lock
    → ioq.producer ≡ none
    → IsValid s
    → s.ready ≡ next ∷ rest
    → Returns (Sleeps ioq s next rest) (ioq_putchar ioq chr s)
unfolding ioq_putchar put_round ioq_wait contents
ioq_putchar-Sleeps ioq chr s next rest q off full free no_one v ready =
    let (s', run, b) = thread_block-Blocked task_blocked s next rest v refl ready in
    let n = count-length ioq in
    let is_full : (count ioq == 63) ≡ true = ground arith in
    (
      (
        false,
        record ioq {
          lock = record {
            holder = some s.running;
            semaphore = record ioq.lock.semaphore { value = 0 };
            holder_repeat_nr = 1;
          };
          producer = some s.running;
        },
        s',
      ),
      rw (
        ap is_off off,
        ioq_full-eq ioq s q off,
        is_full,
        lock_acquire-free ioq.lock s free,
        no_one,
        run,
      ),
      (refl, refl, refl, refl, b),
    )

-- With interrupts off, `ioq_getchar` from a well-formed empty queue with a free lock and no
-- consumer noted is a fault: it hands the NULL in `consumer` to `ioq_wait`, and not the place of
-- that field.
pub ioq_getchar-fault :
    (ioq : IoQueue) (s : Sched)
    → IsQueue ioq
    → s.intr ≡ intr_off
    → contents ioq ≡ []
    → IsFree ioq.lock
    → ioq.consumer ≡ none
    → ioq_getchar ioq s ≡ fault
unfolding ioq_getchar wait_at_consumer
ioq_getchar-fault ioq s q off e free no_one =
    let n : count ioq ≡ 0 = count-length ioq ∙ ap length e in
    let is_empty : (count ioq == 0) ≡ true = ground arith in
    rw
      (ap is_off off, ioq_empty-eq ioq s q off, is_empty, lock_acquire-free ioq.lock s free, no_one)
