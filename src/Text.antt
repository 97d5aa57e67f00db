-- ===== src/Text.antt =====
-- vee/helper/strmagic.h: cutting the white space off a text, which is a list of character codes.
pub mod Trim
pub mod Search
use vee.Common.{
  ℕ, zero, suc, ◌+◌, Bool, true, false, ◌||◌, Option, none, some, List, [], ◌∷◌, ◌==◌, take, drop,
}

-- The characters of " \t\v\n".
unfoldable pub is_blank : ℕ → Bool
is_blank c = (c == b' ') || (c == 9) || (c == 11) || (c == 10)

unfoldable pub find_first_not_of : List ℕ → Option ℕ
unfolding is_blank
find_first_not_of [] = none
find_first_not_of (c ∷ str) =
    let rest : Option ℕ = find_first_not_of str in
    elim (is_blank c) [ false ↦ some 0 | true ↦ elim rest [ none ↦ none | some n ↦ some (suc n) ] ]

unfoldable pub find_last_not_of : List ℕ → Option ℕ
unfolding is_blank
find_last_not_of [] = none
find_last_not_of (c ∷ str) = elim (find_last_not_of str) [
  | some n ↦ some (suc n)
  | none ↦ elim (is_blank c) [ false ↦ some 0 | true ↦ none ]
]

-- `npos` is none: then there is nothing to keep, and the text is returned as it is.
unfoldable pub trim_left : List ℕ → List ℕ
unfolding find_first_not_of
trim_left str = elim (find_first_not_of str) [ none ↦ str | some n ↦ drop n str ]

unfoldable pub trim_right : List ℕ → List ℕ
unfolding find_last_not_of
trim_right str = elim (find_last_not_of str) [ none ↦ str | some n ↦ take (suc n) str ]

unfoldable pub trim : List ℕ → List ℕ
unfolding trim_left trim_right
trim str = trim_left (trim_right str)
