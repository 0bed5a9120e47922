-- ===== src/IoQueue/Defs.antt =====
-- The functions of device/ioqueue.c. Where the caller blocks, the answer is that of the task that then
-- runs: `false` for `ioq_putchar`, `none` for `ioq_getchar`.
use os_learning.Base.{
  ℕ, ◌+◌, ◌%◌, Bool, true, false, Option, none, some, List, ◌==◌, get_elem?, set,
}
use os_learning.Base.Run.{Run, ok, panic, fault, ◌>>=◌, ◌>>◌, assert, access}
use os_learning.Interrupt.{intr_off, intr_set_status}
use os_learning.Thread.{Tid, task_blocked, Sched, is_off, thread_block, thread_unblock}
use os_learning.Sync.{Lock, lock_init, lock_acquire, lock_release}

abbrev pub bufsize : ℕ
bufsize = 64

-- `struct ioqueue`; a waiter that is NULL is `none`.
pub record IoQueue : Type 0 where
  pub lock : Lock
  pub consumer : Option Tid
  pub producer : Option Tid
  pub buf : List ℕ
  pub head : ℕ
  pub tail : ℕ

unfoldable pub init_ioqueue : IoQueue → IoQueue
init_ioqueue ioq = record ioq {
  lock = lock_init;
  producer = none;
  consumer = none;
  head = 0;
  tail = 0;
}

-- `uint32_t` overflow does not show, since bufsize divides 2 ^ 32.
abbrev pub next_pos : ℕ → ℕ
next_pos pos = (pos + 1) % bufsize

unfoldable pub ioq_full : IoQueue → Sched → Run Bool
ioq_full ioq s = do assert (is_off s.intr); ok (next_pos ioq.head == ioq.tail)

unfoldable pub ioq_empty : IoQueue → Sched → Run Bool
ioq_empty ioq s = do assert (is_off s.intr); ok (ioq.head == ioq.tail)

abbrev pub is_none : Option Tid → Bool
is_none none = true
is_none (some t) = false

-- On the field that `waiter` points to.
unfoldable pub ioq_wait : Option Tid → Sched → Run (Option Tid × Sched)
ioq_wait waiter s = do
  assert (is_none waiter)
  s' ← thread_block task_blocked s
  ok (some s.running, s')

unfoldable pub wakeup : Option Tid → Sched → Run (Option Tid × Sched)
wakeup none s = panic
wakeup (some t) s = do s' ← thread_unblock t s; ok (none, s')

-- `if (waiter) wakeup(&waiter);`
unfoldable pub wake_waiter : Option Tid → Sched → Run (Option Tid × Sched)
unfolding wakeup
wake_waiter none s = ok (none, s)
wake_waiter (some t) s = wakeup (some t) s

-- A round of the loop in `ioq_putchar`: wait if the queue is full, write and leave if not.
unfoldable pub put_round : IoQueue → (chr : ℕ) → Sched → Run (Bool × IoQueue × Sched)
put_round ioq chr s = do
  full ← ioq_full ioq s
  elim full [
    | true ↦ do
      (passed, lock, s1) ← lock_acquire ioq.lock s
      elim passed [
        | false ↦ ok (false, record ioq { lock = lock }, s1)
        | true ↦ do
          (producer, s2) ← ioq_wait ioq.producer s1
          ok (false, record ioq { lock = lock; producer = producer }, s2)
      ]
    | false ↦ do
      old ← access (get_elem? ioq.buf ioq.head)
      (consumer, s1) ← wake_waiter ioq.consumer s
      ok (
        true,
        record ioq {
          buf = set ioq.buf ioq.head chr;
          head = next_pos ioq.head;
          consumer = consumer;
        },
        s1,
      )
  ]

unfoldable pub ioq_putchar : IoQueue → (chr : ℕ) → Sched → Run (Bool × IoQueue × Sched)
ioq_putchar ioq chr s = do assert (is_off s.intr); put_round ioq chr s

-- The producer that `ioq_wait` has stopped goes on: the end of `thread_block`, with the flag off as
-- it was, `lock_release`, and the loop again.
unfoldable pub put_resume : IoQueue → (chr : ℕ) → Sched → Run (Bool × IoQueue × Sched)
unfolding intr_set_status
put_resume ioq chr s = do
  (lock, s1) ← lock_release ioq.lock (record s { intr = (intr_set_status intr_off s.intr).1 })
  put_round (record ioq { lock = lock }) chr s1

-- `ioq_wait(ioq->consumer)`: the value of the field is taken as the place of a waiter. NULL is no place
-- of the model; at a task's address stands its `self_kstack`, which is not NULL, so the ASSERT fails.
unfoldable pub wait_at_consumer : Option Tid → Run (Option Tid × Sched)
wait_at_consumer none = fault
wait_at_consumer (some t) = panic

unfoldable pub ioq_getchar : IoQueue → Sched → Run (Option ℕ × IoQueue × Sched)
ioq_getchar ioq s = do
  assert (is_off s.intr)
  empty ← ioq_empty ioq s
  elim empty [
    | true ↦ do
      (passed, lock, s1) ← lock_acquire ioq.lock s
      elim passed [
        | false ↦ ok (none, record ioq { lock = lock }, s1)
        | true ↦ do
          (consumer, s2) ← wait_at_consumer ioq.consumer
          ok (none, record ioq { lock = lock; consumer = consumer }, s2)
      ]
    | false ↦ do
      byte ← access (get_elem? ioq.buf ioq.tail)
      (producer, s1) ← wake_waiter ioq.producer s
      ok (some byte, record ioq { tail = next_pos ioq.tail; producer = producer }, s1)
  ]
