-- ===== src/Enumeration.antt =====
-- vee/enumeration.h: the class that the macro `Enumeration` declares, for constants that have no
-- values of their own. `split` of vee/helper/strmagic.h is Boost's tokenizer, a parameter.
pub mod Printed
pub mod Values
use vee.Common.{
  ℕ, zero, suc, ◌+◌, ◌-◌, ◌%◌, ◌^◌, Bool, true, false, Option, none, some, List, [], ◌∷◌, ◌++◌,
  ◌==◌,
}
use vee.CString.{codes}
use vee.Text.{trim}

-- The map from values to names. A value is shifted by 2 ^ 31, so that an `int` is a number.
abbrev pub Names : Type 0
Names = List (ℕ × List ℕ)

-- `result->insert(make_pair(key++, trim(strings[i])))` for every string.
unfoldable pub insert_names : ℕ → List (List ℕ) → Names
insert_names key [] = []
insert_names key (str ∷ strings) = (key, trim str) ∷ insert_names (suc key) strings

-- `gen`: the text of the macro's arguments is put together again and split at its commas.
unfoldable pub gen : (List ℕ → List ℕ → List (List ℕ)) → ℕ → List ℕ → List ℕ → Names
unfolding insert_names
gen split offset enumeration_start va_args =
    insert_names offset (split ((enumeration_start ++ codes ", ") ++ va_args) (codes ","))

unfoldable pub find : ℕ → Names → Option (List ℕ)
find value [] = none
find value ((key, str) ∷ names) =
    let rest : Option (List ℕ) = find value names in
    elim (key == value) [ true ↦ some str | false ↦ rest ]

-- `to_string`: `operator[]` of the map makes an empty string for a value that is not there.
unfoldable pub to_string : ℕ → Names → List ℕ × Names
unfolding find
to_string value names = elim (find value names) [
  | some str ↦ (str, names)
  | none ↦ ([], names ++ ((value, []) ∷ []))
]

-- A loop from one iterator to another that prints every constant.
unfoldable pub print_all : ℕ → ℕ → ℕ → Names → List (List ℕ)
unfolding to_string
print_all zero it end names = []
print_all (suc fuel) it end names =
    let printed : List ℕ × Names = to_string it names in
    let rest : List (List ℕ) = print_all fuel (suc it) end printed.1 in
    elim (it == end) [ true ↦ [] | false ↦ printed.0 ∷ rest ]

-- `begin` and `end`: the compiler gives `__ENUMERATION_END__` the value behind the last constant.
unfoldable pub begin : ℕ → ℕ
begin offset = offset

unfoldable pub end_of : ℕ → ℕ → ℕ
end_of offset constants = offset + constants

-- `to_uint32` and `to_uint64`, on the shifted value.
unfoldable pub to_uint32 : ℕ → ℕ
to_uint32 value = (value + 2 ^ 31) % 2 ^ 32

unfoldable pub to_uint64 : ℕ → ℕ
to_uint64 value = (value + 2 ^ 64 - 2 ^ 31) % 2 ^ 64
