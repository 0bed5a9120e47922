-- ===== src/IoQueue/Slots.antt =====
-- What the ring of device/ioqueue.c holds: the bytes from `tail` up to `head`.
use os_learning.Base.{
  ℕ, zero, suc, ◌+◌, ◌-◌, ◌%◌, ◌<◌, ◌≤◌, ◌≡◌, refl, ap, ap₂, ◌∙◌, List, [], ◌∷◌, ◌++◌, arith,
  length, get_or, set, get_or-set_ne,
}
use os_learning.IoQueue.Defs.{bufsize, IoQueue, next_pos}

-- `n` bytes from `pos` on
unfoldable pub slots : (n : ℕ) → List ℕ → (pos : ℕ) → List ℕ
slots zero buf pos = []
slots (suc n) buf pos = get_or buf pos 0 ∷ slots n buf (next_pos pos)

abbrev pub count : IoQueue → ℕ
count ioq = (ioq.head + bufsize - ioq.tail) % bufsize

unfoldable pub contents : IoQueue → List ℕ
contents ioq = slots (count ioq) ioq.buf ioq.tail

pub record IsQueue (ioq : IoQueue) : Type 0 where
  pub size : length ioq.buf ≡ bufsize
  pub head_in : ioq.head < bufsize
  pub tail_in : ioq.tail < bufsize

pub slots-snoc :
    (n : ℕ) (buf : List ℕ) (pos : ℕ)
    → pos < bufsize
    → slots (suc n) buf pos ≡ slots n buf pos ++ (get_or buf ((pos + n) % bufsize) 0 ∷ [])
unfolding slots
slots-snoc zero buf pos h = let e : (pos + 0) % bufsize ≡ pos = omega arith in rw e
slots-snoc (suc n) buf pos h =
    let e : (next_pos pos + n) % bufsize ≡ (pos + suc n) % bufsize = omega arith in
    ap (λ q. get_or buf pos 0 ∷ q) (slots-snoc n buf (next_pos pos) (omega arith) ∙ rw e)

-- A write behind the bytes does not change them.
pub slots-set :
    (n : ℕ) (buf : List ℕ) (pos i v : ℕ)
    → pos < bufsize
    → n < bufsize
    → i < bufsize
    → n ≤ (i + bufsize - pos) % bufsize
    → slots n (set buf i v) pos ≡ slots n buf pos
unfolding slots
slots-set zero buf pos i v hp hn hi h = refl
slots-set (suc n) buf pos i v hp hn hi h =
    ap₂ ◌∷◌ (get_or-set_ne buf i pos v 0 (λ e. absurd (omega arith)))
      (slots-set n buf (next_pos pos) i v (omega arith) (omega arith) hi (omega arith))

pub length-slots : (n : ℕ) (buf : List ℕ) (pos : ℕ) → length (slots n buf pos) ≡ n
unfolding slots
length-slots zero buf pos = refl
length-slots (suc n) buf pos = ap suc (length-slots n buf (next_pos pos))
