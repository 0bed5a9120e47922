-- ===== src/CString/Tests.antt =====
-- The string functions on a memory with "aba" at 10 and "ab" at 20.
use os_learning.Base.{ℕ, ◌≡◌, refl, some, List, [], ◌∷◌, arith}
use os_learning.Base.Int.{pos}
use os_learning.Base.Run.{ok}
use os_learning.CString.{Memory, write, Holds, memcmp, strlen, strcmp, strchr, strrchr, strchrs}
use os_learning.CString.Compare.{compare_strings, strcmp-compare}

abbrev mem : Memory
mem = write (write (write (write (write (λ p. 0) 10 b'a') 11 b'b') 12 b'a') 20 b'a') 21 b'b'

abbrev aba : List ℕ
aba = b'a' ∷ b'b' ∷ b'a' ∷ []

abbrev ab : List ℕ
ab = b'a' ∷ b'b' ∷ []

run_strings :
    (strlen 9 10 mem ≡ ok 3)
    × (strcmp 9 10 20 mem ≡ ok (pos 1))
    × (strchr 9 10 b'a' mem ≡ ok (some 10))
    × (strrchr 9 10 b'a' mem ≡ ok (some 12))
    × (strchrs 9 10 b'a' mem ≡ ok 2)
    × (memcmp 10 20 2 mem ≡ ok (pos 0))
    × (memcmp 0 20 0 mem ≡ ok (pos 0))
unfolding strlen strcmp strchr strrchr strchrs memcmp
run_strings = (refl, refl, refl, refl, refl, refl, refl)

Holds-aba : Holds mem 10 aba
Holds-aba = omega arith

Holds-ab : Holds mem 20 ab
Holds-ab = omega arith

strcmp-compare_example : strcmp 9 10 20 mem ≡ ok (compare_strings aba ab)
strcmp-compare_example =
    strcmp-compare 9 10 20 mem aba ab Holds-aba Holds-ab (omega arith) (omega arith) (omega arith)
