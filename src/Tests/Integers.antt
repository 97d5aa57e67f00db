-- ===== src/Tests/Integers.antt =====
-- Tests of vee/type/generic.
use vee.Common.{ℕ, replicate, ◌-◌, ◌≡◌, refl, arith, true, some, List, [], ◌∷◌, ◌++◌, ltb}
use vee.Integer.{equal_to, greater_than}
use vee.Integer.Memory.{load}
use vee.Integer.Comparator.{unsigned_greater_than}
use vee.Integer.Equal.{Decides, equal_to-Decides, equal_to_ignores_high_bytes}
use vee.Integer.Greater.{greater_than_lem, Words, unsigned_greater_than-Words}

-- 0x0201 in two bytes, and eight bytes.
abbrev word : List ℕ
word = 1 ∷ 2 ∷ []

abbrev eight_bytes : List ℕ
eight_bytes = 1 ∷ 2 ∷ 3 ∷ 4 ∷ 5 ∷ 6 ∷ 7 ∷ 8 ∷ []

-- The left one is greater in the lower of the two words that are compared.
abbrev twenty_bytes : List ℕ
twenty_bytes = 0 ∷ 0 ∷ 0 ∷ 7 ∷ replicate 16 0

equal_to-Decides_example :
    Decides (equal_to word (1 ∷ 2 ∷ 0 ∷ [])) (load word) (load (1 ∷ 2 ∷ 0 ∷ []))
equal_to-Decides_example =
    equal_to-Decides word (1 ∷ 2 ∷ 0 ∷ []) (omega arith) (omega arith) (omega arith)

equal_to_ignores_high_bytes_example : equal_to (eight_bytes ++ (77 ∷ [])) eight_bytes ≡ some true
equal_to_ignores_high_bytes_example =
    equal_to_ignores_high_bytes eight_bytes (77 ∷ []) refl (omega arith)

greater_than_lem_example :
    greater_than word (1 ∷ 1 ∷ []) ≡ some (ltb (load (1 ∷ 1 ∷ [])) (load word))
greater_than_lem_example =
    greater_than_lem word (1 ∷ 1 ∷ []) (omega arith) (omega arith) (omega arith)

unsigned_greater_than-Words_example :
    Words twenty_bytes
      (replicate 20 0)
      (20 - 1)
      (unsigned_greater_than 20 twenty_bytes (replicate 20 0))
unsigned_greater_than-Words_example =
    unsigned_greater_than-Words 20 twenty_bytes (replicate 20 0) (omega arith) (omega arith) refl
      refl
