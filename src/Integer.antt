-- ===== src/Integer.antt =====
-- vee/type/generic: unsigned integers of any number of bytes, on a little endian machine. Every
-- operand is its bytes, the lowest first; `sizeof` is the length of the list.
pub mod Memory
pub mod Dispatch
pub mod Comparator
pub mod Values
pub mod Assign
pub mod Equal
pub mod Greater
use vee.Common.{
  ℕ, zero, suc, ◌+◌, ◌-◌, Bool, true, false, Option, none, some, List, [], ◌∷◌, leb, ltb, ◌==◌,
  if◌then◌else◌, length, replicate,
}
use vee.Integer.Memory.{memmove, memcmp, load}
use vee.Integer.Comparator.{unsigned_greater_than}

-- `sizeof(uint64_t)`, and `sizeof(TypeSize)`, which is the size of a `size_t`.
abbrev pub word_size : ℕ
word_size = 8

-- `uint8_t data[TypeSize]{ 0, }`.
unfoldable pub unsigned_integer : ℕ → List ℕ
unsigned_integer type_size = replicate type_size 0

-- `assign`, with its two overloads: from an operand at least as large, and from a smaller one.
unfoldable pub assign : List ℕ → List ℕ → Option (List ℕ)
assign data_ rhs =
    if leb (length data_) (length rhs)
    then memmove data_ rhs (length data_)
    else memmove (replicate (length data_) 0) rhs (length rhs)

-- The two overloads of `casting`, to a type of `size` bytes.
unfoldable pub casting_greater_or_equal : ℕ → List ℕ → Option (List ℕ)
casting_greater_or_equal size data_ = memmove (replicate size 0) data_ (length data_)

unfoldable pub casting_less : ℕ → List ℕ → Option (List ℕ)
casting_less size data_ = memmove (replicate size 0) data_ size

-- `operator T`.
unfoldable pub cast : ℕ → List ℕ → Option (List ℕ)
cast size data_ =
    if leb (length data_) size then casting_greater_or_equal size data_ else casting_less size data_

-- The three overloads of `equal_to` behind its dispatch.
unfoldable pub equal_to_same : List ℕ → List ℕ → Option Bool
equal_to_same data_ rhs = memcmp data_ rhs (length data_)

unfoldable pub equal_to_greater : List ℕ → List ℕ → Option Bool
equal_to_greater data_ rhs = elim (memmove (replicate (length rhs) 0) data_ (length data_)) [
  | none ↦ none
  | some temp ↦ memcmp temp rhs (length rhs)
]

unfoldable pub equal_to_less : List ℕ → List ℕ → Option Bool
equal_to_less data_ rhs = elim (memmove (replicate (length data_) 0) rhs (length rhs)) [
  | none ↦ none
  | some temp ↦ memcmp data_ temp word_size
]

unfoldable pub equal_to : List ℕ → List ℕ → Option Bool
equal_to data_ rhs =
    if length data_ == length rhs
    then equal_to_same data_ rhs
    else if ltb (length rhs) (length data_)
    then equal_to_less data_ rhs
    else equal_to_greater data_ rhs

-- `greater_than` of an operand of at most 64 bits.
unfoldable pub greater_than_word : List ℕ → List ℕ → Option Bool
greater_than_word data_ rhs =
    elim (if leb (length data_) (length rhs)
      then casting_greater_or_equal word_size data_
      else casting_less word_size data_) [
        | none ↦ none
        | some temp_lhs ↦ some (ltb (load rhs) (load temp_lhs))
      ]

-- `greater_than` of a larger operand.
unfoldable pub greater_than_large : List ℕ → List ℕ → Option Bool
greater_than_large data_ rhs = elim (memmove (replicate (length rhs) 0) data_ (length data_)) [
  | none ↦ none
  | some temp_lhs ↦ unsigned_greater_than (length rhs) temp_lhs rhs
]

-- `greater_than` of an integer of at most 64 bits; the larger ones have no such operator.
unfoldable pub greater_than : List ℕ → List ℕ → Option Bool
greater_than data_ rhs =
    if leb (length rhs) word_size then greater_than_word data_ rhs else greater_than_large data_ rhs
