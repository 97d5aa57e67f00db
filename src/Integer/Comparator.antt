-- ===== src/Integer/Comparator.antt =====
-- `binary_array_comparator::unsigned_greater_than` of vee/type/generic/unsigned_integer.h with
-- words of 64 bits.
use vee.Common.{
  ℕ, zero, suc, ◌+◌, ◌-◌, Bool, true, false, Option, none, some, List, leb, ltb, ◌==◌,
  if◌then◌else◌, sub_size, replicate,
}
use vee.Integer.Memory.{memmove, load, load_at}

-- Which overload of `iteration` comes next.
pub data Iteration : Type 0 where
  no_padding_required : Iteration
  padding_required : Iteration
  end_of_array : Iteration

-- The choice by the bytes that remain, in `size_t` arithmetic.
unfoldable pub next_iteration : ℕ → Iteration
next_iteration remained =
    let rest = sub_size remained 8 in
    if rest == 0 then end_of_array else if leb 8 rest then no_padding_required else padding_required

unfoldable pub next_offset : ℕ → ℕ → ℕ
next_offset offset remained = if leb 8 (sub_size remained 8) then offset - 8 else offset

-- `iteration<offset>(padding_required)`: the remaining bytes are moved into a word.
unfoldable pub compare_padded : List ℕ → List ℕ → ℕ → Option Bool
compare_padded lhs rhs remained = elim (memmove (replicate 8 0) lhs remained) [
  | none ↦ none
  | some temp_lhs ↦ elim (memmove (replicate 8 0) rhs remained) [
    | none ↦ none
    | some temp_rhs ↦ some (ltb (load temp_rhs) (load temp_lhs))
  ]
]

-- The comparison of the words that end at the offset; none where they begin before the array.
unfoldable pub compare_words : List ℕ → List ℕ → ℕ → Option Bool
compare_words lhs rhs offset = if ltb offset 8 then none else elim (load_at lhs (offset - 8)) [
  | none ↦ none
  | some left ↦ elim (load_at rhs (offset - 8)) [ none ↦ none | some right ↦ some (ltb right left) ]
]

-- `iteration<offset>`, where `RemainedBytes` is `offset + 1`; none for an access outside an array.
-- The depth bounds the recursion, which the compiler unfolds; out of depth the answer is false.
unfoldable pub iterate : ℕ → Iteration → ℕ → List ℕ → List ℕ → Option Bool
iterate depth end_of_array offset lhs rhs = some false
iterate depth padding_required offset lhs rhs = compare_padded lhs rhs (offset + 1)
iterate zero no_padding_required offset lhs rhs = some false
iterate (suc depth) no_padding_required offset lhs rhs = elim (compare_words lhs rhs offset) [
  | none ↦ none
  | some greater ↦ elim greater [
    | true ↦ some true
    | false ↦ iterate depth (next_iteration (offset + 1)) (next_offset offset (offset + 1)) lhs rhs
  ]
]

-- `operator()`.
unfoldable pub unsigned_greater_than : ℕ → List ℕ → List ℕ → Option Bool
unsigned_greater_than array_size lhs rhs =
    iterate array_size (next_iteration array_size) (array_size - 1) lhs rhs
