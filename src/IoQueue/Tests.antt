-- ===== src/IoQueue/Tests.antt =====
-- A queue that has gone round its array: two bytes, in the last place and the first.
use os_learning.Base.{ℕ, List, ◌<◌, ◌≡◌, refl, none, some, [], ◌∷◌, arith, set, replicate, length}
use os_learning.Base.Run.{Returns}
use os_learning.Thread.Tests.{four_tasks, four_tasks-IsValid}
use os_learning.Sync.Locks.{IsFree}
use os_learning.IoQueue.{IoQueue, ioq_putchar, ioq_getchar}
use os_learning.IoQueue.Slots.{slots, contents, IsQueue}
use os_learning.IoQueue.Ring.{Put, Got, ioq_putchar-Put, ioq_getchar-Got}
use os_learning.IoQueue.Fifo.{IsQuiet, through, through-order}

-- with task 4 as its consumer
abbrev pub two_bytes : IoQueue
two_bytes = record {
  lock = record {
    holder = none;
    semaphore = record { value = 1; waiters = [] };
    holder_repeat_nr = 0;
  };
  consumer = some 4;
  producer = none;
  buf = set (set (replicate 64 0) 63 b'a') 0 b'b';
  head = 1;
  tail = 63;
}

abbrev pub empty : IoQueue
empty = record two_bytes { consumer = none; tail = 1 }

abbrev full : IoQueue
full = record two_bytes { consumer = none; tail = 2 }

two_bytes-IsQueue : IsQueue two_bytes
two_bytes-IsQueue = record { size = refl; head_in = omega arith; tail_in = omega arith }

pub empty-IsQueue : IsQueue empty
empty-IsQueue = record { size = refl; head_in = omega arith; tail_in = omega arith }

full-IsQueue : IsQueue full
full-IsQueue = record { size = refl; head_in = omega arith; tail_in = omega arith }

two_bytes-contents : contents two_bytes ≡ b'a' ∷ b'b' ∷ []
unfolding contents slots
two_bytes-contents = refl

pub room : length (contents empty) < 63
unfolding contents slots
room = omega arith

two_bytes-room : length (contents two_bytes) < 63
unfolding contents slots
two_bytes-room = omega arith

full-length : length (contents full) ≡ 63
unfolding contents slots
full-length = refl

empty-contents : contents empty ≡ []
unfolding contents slots
empty-contents = refl

lock-IsFree : IsFree two_bytes.lock
lock-IsFree = record { no_holder = refl; none_waits = refl; up = refl; unused = refl }

ioq_putchar-Put_example :
    Returns (Put two_bytes b'c' four_tasks) (ioq_putchar two_bytes b'c' four_tasks)
ioq_putchar-Put_example =
    ioq_putchar-Put two_bytes b'c' four_tasks two_bytes-IsQueue refl two_bytes-room
      (four_tasks-IsValid, refl)

ioq_getchar-Got_example :
    Returns (Got two_bytes b'a' (b'b' ∷ []) four_tasks) (ioq_getchar two_bytes four_tasks)
ioq_getchar-Got_example =
    ioq_getchar-Got two_bytes b'a' (b'b' ∷ []) four_tasks two_bytes-IsQueue refl two_bytes-contents
      tt

empty-IsQuiet : IsQuiet empty
empty-IsQuiet = record { queue = empty-IsQueue; no_consumer = refl; no_producer = refl }

abbrev hello : List ℕ
hello = b'h' ∷ b'e' ∷ b'l' ∷ b'l' ∷ b'o' ∷ []

through-order_example :
    Returns
      (λ (got, ioq', s'). (got ≡ hello) × IsQuiet ioq' × (contents ioq' ≡ []) × (s' ≡ four_tasks))
      (through hello empty four_tasks)
through-order_example =
    through-order hello empty four_tasks empty-IsQuiet refl empty-contents (omega arith)
