-- ===== src/IoQueue/Fifo.antt =====
-- Bytes through the queue of device/ioqueue.c, in order.
use mathlib.Core.List.{append_assoc, append-nil}
use os_learning.Base.{
  ℕ, zero, suc, ◌+◌, ◌≤◌, ◌≡◌, refl, sym, ap, ◌∙◌, true, false, none, some, List, [], ◌∷◌, ◌++◌,
  arith, length, length-append,
}
use os_learning.Base.Run.{Run, ok, panic, ◌>>=◌, Returns}
use os_learning.Interrupt.{intr_off}
use os_learning.Thread.{Sched}
use os_learning.IoQueue.Defs.{IoQueue, ioq_putchar, ioq_getchar}
use os_learning.IoQueue.Slots.{contents, IsQueue}
use os_learning.IoQueue.Ring.{ioq_putchar-Put, ioq_getchar-Got}

-- `ioq_putchar` for each byte; `panic` stands for a call that does not pass.
unfoldable pub put_all : List ℕ → IoQueue → Sched → Run (IoQueue × Sched)
put_all [] ioq s = ok (ioq, s)
put_all (chr ∷ chrs) ioq s = do
  (passed, ioq', s') ← ioq_putchar ioq chr s
  elim passed [ true ↦ put_all chrs ioq' s' | false ↦ panic ]

-- `ioq_getchar`, `n` times
unfoldable pub get_all : (n : ℕ) → IoQueue → Sched → Run (List ℕ × IoQueue × Sched)
get_all zero ioq s = ok ([], ioq, s)
get_all (suc n) ioq s = do
  (got, ioq1, s1) ← ioq_getchar ioq s
  elim got [
    | none ↦ panic
    | some byte ↦ do (bytes, ioq2, s2) ← get_all n ioq1 s1; ok (byte ∷ bytes, ioq2, s2)
  ]

-- a queue for which no one waits
pub record IsQuiet (ioq : IoQueue) : Type 0 where
  pub queue : IsQueue ioq
  pub no_consumer : ioq.consumer ≡ none
  pub no_producer : ioq.producer ≡ none

put_all-append :
    (chrs : List ℕ) (ioq : IoQueue) (s : Sched)
    → IsQuiet ioq
    → s.intr ≡ intr_off
    → length (contents ioq) + length chrs ≤ 63
    → Returns
        (λ (ioq', s'). IsQuiet ioq' × (contents ioq' ≡ contents ioq ++ chrs) × (s' ≡ s))
        (put_all chrs ioq s)
unfolding put_all
put_all-append [] ioq s q off room = ((ioq, s), refl, (q, sym (append-nil (contents ioq)), refl))
put_all-append (chr ∷ chrs) ioq s q off room =
    let ((passed, ioq1, s1), run, (e, q1, bytes, c1, p1, w)) =
      ioq_putchar-Put ioq chr s q.queue off (omega arith) (rw q.no_consumer tt) in
    let same : s1 ≡ s = rw q.no_consumer at w in
    let run' = run ∙ ap (λ b. ok (b, ioq1, s1)) e in
    let quiet : IsQuiet ioq1 = record {
      queue = q1;
      no_consumer = c1;
      no_producer = p1 ∙ q.no_producer;
    } in
    let more = ap length bytes ∙ length-append (contents ioq) (chr ∷ []) in
    let (r, runs, (q2, bytes2, same2)) =
      put_all-append chrs ioq1 s1 quiet (ap (λ t. t.intr) same ∙ off) (omega arith) in
    (
      r,
      rw run' runs,
      (
        q2,
        bytes2 ∙ ap (λ b. b ++ chrs) bytes ∙ append_assoc (contents ioq) (chr ∷ []) chrs,
        same2 ∙ same,
      ),
    )

get_all-contents :
    (bytes : List ℕ) (ioq : IoQueue) (s : Sched)
    → IsQuiet ioq
    → s.intr ≡ intr_off
    → contents ioq ≡ bytes
    → Returns
        (λ (got, ioq', s'). (got ≡ bytes) × IsQuiet ioq' × (contents ioq' ≡ []) × (s' ≡ s))
        (get_all (length bytes) ioq s)
unfolding get_all
get_all-contents [] ioq s q off e = (([], ioq, s), refl, (refl, q, e, refl))
get_all-contents (byte ∷ bytes) ioq s q off e =
    let ((got, ioq1, s1), run, (g, q1, left, p1, c1, w)) =
      ioq_getchar-Got ioq byte bytes s q.queue off e (rw q.no_producer tt) in
    let same : s1 ≡ s = rw q.no_producer at w in
    let run' = run ∙ ap (λ b. ok (b, ioq1, s1)) g in
    let quiet : IsQuiet ioq1 = record {
      queue = q1;
      no_consumer = c1 ∙ q.no_consumer;
      no_producer = p1;
    } in
    let ((rest, ioq2, s2), runs, (all, q2, empty, same2)) =
      get_all-contents bytes ioq1 s1 quiet (ap (λ t. t.intr) same ∙ off) left in
    ((byte ∷ rest, ioq2, s2), rw (run', runs), (ap (λ b. byte ∷ b) all, q2, empty, same2 ∙ same))

-- The bytes, written and then read.
abbrev pub through : List ℕ → IoQueue → Sched → Run (List ℕ × IoQueue × Sched)
through chrs ioq s = do (ioq1, s1) ← put_all chrs ioq s; get_all (length chrs) ioq1 s1

-- First in, first out: with interrupts off, at most 63 bytes that are written into a well-formed
-- empty queue for which no one waits come out in their order; the queue is empty again, and the
-- scheduler's state has not changed.
pub through-order :
    (chrs : List ℕ) (ioq : IoQueue) (s : Sched)
    → IsQuiet ioq
    → s.intr ≡ intr_off
    → contents ioq ≡ []
    → length chrs ≤ 63
    → Returns
        (λ (got, ioq', s'). (got ≡ chrs) × IsQuiet ioq' × (contents ioq' ≡ []) × (s' ≡ s))
        (through chrs ioq s)
through-order chrs ioq s q off empty room =
    let none_there = ap length empty in
    let ((ioq1, s1), run, (q1, bytes, same)) = put_all-append chrs ioq s q off (omega arith) in
    let (r, runs, (got, q2, e, same2)) =
      get_all-contents chrs ioq1 s1 q1 (ap (λ t. t.intr) same ∙ off)
        (bytes ∙ ap (λ b. b ++ chrs) empty) in
    (r, rw run runs, (got, q2, e, same2 ∙ same))
