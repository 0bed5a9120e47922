-- ===== src/IoQueue/Ring.antt =====
-- `ioq_putchar` and `ioq_getchar` of device/ioqueue.c as the two ends of a queue.
use os_learning.Base.{
  ℕ, suc, ◌+◌, ◌-◌, ◌%◌, ◌<◌, ◌≡◌, refl, sym, ap, ap₂, ◌∙◌, Bool, true, false, Option, none, some,
  List, [], ◌∷◌, ◌++◌, arith, ◌==◌, get_or, set, length, length-set, get_elem?-eq-get_or,
  get_or-set_self,
}
use os_learning.Base.Run.{ok, Returns}
use os_learning.Interrupt.{intr_off}
use os_learning.Thread.{Tid, Sched, status_of, is_off, is_blocked, IsValid}
use os_learning.Thread.Block.{Unblocked, thread_unblock-Unblocked}
use os_learning.IoQueue.Defs.{
  bufsize, IoQueue, next_pos, init_ioqueue, ioq_full, ioq_empty, wake_waiter, put_round,
  ioq_putchar, ioq_getchar,
}
use os_learning.IoQueue.Slots.{slots, count, contents, IsQueue, slots-snoc, slots-set, length-slots}

-- a waiter, if there is one, that can be woken
abbrev pub CanWake : Option Tid → Sched → Type 0
CanWake none s = Unit
CanWake (some t) s = IsValid s × (is_blocked (status_of s t) ≡ true)

-- it has been woken, or nothing has changed
abbrev pub Woken : Option Tid → Sched → Sched → Type 0
Woken none s s' = s' ≡ s
Woken (some t) s s' = Unblocked s t s'

wake_waiter-Woken :
    (waiter : Option Tid) (s : Sched)
    → CanWake waiter s
    → Returns (λ (w, s'). (w ≡ none) × Woken waiter s s') (wake_waiter waiter s)
unfolding wake_waiter
wake_waiter-Woken none s c = ((none, s), refl, (refl, refl))
wake_waiter-Woken (some t) s c =
    let (s', run, u) = thread_unblock-Unblocked t s c.0 c.1 in ((none, s'), rw run, (refl, u))

pub ioq_full-eq :
    (ioq : IoQueue) (s : Sched)
    → IsQueue ioq
    → s.intr ≡ intr_off
    → ioq_full ioq s ≡ ok (count ioq == 63)
unfolding ioq_full
ioq_full-eq ioq s q off =
    let h = q.head_in in
    let t = q.tail_in in
    let e : (next_pos ioq.head == ioq.tail) ≡ (count ioq == 63) = ground arith in rw (off, e)

pub ioq_empty-eq :
    (ioq : IoQueue) (s : Sched)
    → IsQueue ioq
    → s.intr ≡ intr_off
    → ioq_empty ioq s ≡ ok (count ioq == 0)
unfolding ioq_empty
ioq_empty-eq ioq s q off =
    let h = q.head_in in
    let t = q.tail_in in
    let e : (ioq.head == ioq.tail) ≡ (count ioq == 0) = ground arith in rw (off, e)

pub count-length : (ioq : IoQueue) → count ioq ≡ length (contents ioq)
unfolding contents
count-length ioq = sym (length-slots (count ioq) ioq.buf ioq.tail)

abbrev pub Put : IoQueue → ℕ → Sched → Bool × IoQueue × Sched → Type 0
Put ioq chr s (passed, ioq', s') =
    (passed ≡ true)
    × IsQueue ioq'
    × (contents ioq' ≡ contents ioq ++ (chr ∷ []))
    × (ioq'.consumer ≡ none)
    × (ioq'.producer ≡ ioq.producer)
    × Woken ioq.consumer s s'

-- With interrupts off, in a well-formed queue of fewer than 63 bytes whose consumer, if it has one,
-- can be woken, `ioq_putchar` passes: the byte comes to the end of the contents, the queue stays
-- well-formed, and the consumer is woken and no longer noted.
pub ioq_putchar-Put :
    (ioq : IoQueue) (chr : ℕ) (s : Sched)
    → IsQueue ioq
    → s.intr ≡ intr_off
    → length (contents ioq) < 63
    → CanWake ioq.consumer s
    → Returns (Put ioq chr s) (ioq_putchar ioq chr s)
unfolding ioq_putchar put_round contents
ioq_putchar-Put ioq chr s q off room c =
    let ((w, s'), run, (e, k)) = wake_waiter-Woken ioq.consumer s c in
    let n = count-length ioq in
    let room' : (count ioq == 63) ≡ false = ground arith in
    let more : (next_pos ioq.head + bufsize - ioq.tail) % bufsize ≡ suc (count ioq) =
      omega (arith, q.head_in, q.tail_in) in
    let end : (ioq.tail + count ioq) % bufsize ≡ ioq.head = omega (arith, q.head_in, q.tail_in) in
    (
      (
        true,
        record ioq { buf = set ioq.buf ioq.head chr; head = next_pos ioq.head; consumer = w },
        s',
      ),
      rw (
        ap is_off off,
        ioq_full-eq ioq s q off,
        room',
        get_elem?-eq-get_or ioq.buf ioq.head 0 (omega (arith, q.size, q.head_in)),
        run,
      ),
      (
        refl,
        record {
          size = length-set ioq.buf ioq.head chr ∙ q.size;
          head_in = omega arith;
          tail_in = q.tail_in;
        },
        rw more (
            slots-snoc (count ioq) (set ioq.buf ioq.head chr) ioq.tail q.tail_in
            ∙ ap₂ ◌++◌
                (slots-set (count ioq) ioq.buf ioq.tail ioq.head chr q.tail_in (omega arith)
                  q.head_in (omega arith))
                (ap (λ b. b ∷ [])
                  (rw end
                    (get_or-set_self ioq.buf ioq.head chr 0 (omega (arith, q.size, q.head_in)))))),
        e,
        refl,
        k,
      ),
    )

abbrev pub Got : IoQueue → ℕ → List ℕ → Sched → Option ℕ × IoQueue × Sched → Type 0
Got ioq byte rest s (got, ioq', s') =
    (got ≡ some byte)
    × IsQueue ioq'
    × (contents ioq' ≡ rest)
    × (ioq'.producer ≡ none)
    × (ioq'.consumer ≡ ioq.consumer)
    × Woken ioq.producer s s'

-- With interrupts off, from a well-formed queue with contents `byte ∷ rest` whose producer, if it
-- has one, can be woken, `ioq_getchar` returns the byte: the contents are `rest`, the queue stays
-- well-formed, and the producer is woken and no longer noted.
pub ioq_getchar-Got :
    (ioq : IoQueue) (byte : ℕ) (rest : List ℕ) (s : Sched)
    → IsQueue ioq
    → s.intr ≡ intr_off
    → contents ioq ≡ byte ∷ rest
    → CanWake ioq.producer s
    → Returns (Got ioq byte rest s) (ioq_getchar ioq s)
unfolding ioq_getchar contents slots
ioq_getchar-Got ioq byte rest s q off has_byte c =
    let ((w, s'), run, (e, k)) = wake_waiter-Woken ioq.producer s c in
    let n : count ioq ≡ suc (length rest) = count-length ioq ∙ ap length has_byte in
    let some_left : (count ioq == 0) ≡ false = ground arith in
    let both : get_or ioq.buf ioq.tail 0 ∷ slots (length rest) ioq.buf (next_pos ioq.tail)
        ≡ byte ∷ rest =
      rw n at has_byte in
    let less : (ioq.head + bufsize - next_pos ioq.tail) % bufsize ≡ length rest =
      omega (arith, q.head_in, q.tail_in) in
    (
      (some (get_or ioq.buf ioq.tail 0), record ioq { tail = next_pos ioq.tail; producer = w }, s'),
      rw (
        ap is_off off,
        ioq_empty-eq ioq s q off,
        some_left,
        get_elem?-eq-get_or ioq.buf ioq.tail 0 (omega (arith, q.size, q.tail_in)),
        run,
      ),
      (
        ap some cc,
        record { size = q.size; head_in = q.head_in; tail_in = omega arith },
        rw less cc,
        e,
        refl,
        k,
      ),
    )

-- `init_ioqueue` empties the queue, whatever the array holds.
pub init_ioqueue-empty :
    (ioq : IoQueue)
    → length ioq.buf ≡ bufsize
    → IsQueue (init_ioqueue ioq) × (contents (init_ioqueue ioq) ≡ [])
unfolding init_ioqueue contents slots
init_ioqueue-empty ioq size =
    (record { size = size; head_in = omega arith; tail_in = omega arith }, refl)
