-- ===== src/Enumeration/Printed.antt =====
-- The names that an enumeration prints.
use vee.Common.{
  ℕ, zero, suc, ◌+◌, ◌%◌, ◌^◌, ◌≡◌, ◌≢◌, ◌⊎◌, inl, inr, ◌<◌, ◌≤◌, ◌∙◌, refl, ap, none, some, List,
  [], ◌∷◌, ◌++◌, length, get_elem?, map, arith,
}
use vee.Text.{trim}
use vee.CString.{codes}
use vee.Enumeration.{
  Names, insert_names, gen, find, to_string, print_all, begin, end_of, to_uint32, to_uint64,
}
use mathlib.Core.Option.{some_inj}

find-same :
    (value key : ℕ) (str : List ℕ) (names : Names)
    → key ≡ value
    → find value ((key, str) ∷ names) ≡ some str
unfolding find
find-same value key str names e = ground arith

find-other :
    (value key : ℕ) (str : List ℕ) (names : Names)
    → key ≢ value
    → find value ((key, str) ∷ names) ≡ find value names
unfolding find
find-other value key str names ne = ground arith

find-insert_names :
    (value key i : ℕ) (strings : List (List ℕ)) (str : List ℕ)
    → get_elem? strings i ≡ some str
    → value ≡ key + i
    → find value (insert_names key strings) ≡ some (trim str)
unfolding insert_names
find-insert_names value key i [] str e v = ground (arith, e)
find-insert_names value key zero (s ∷ strings) str e v =
    find-same value key (trim s) (insert_names (suc key) strings) (omega arith)
    ∙ ap (λ x. some (trim x)) (some_inj.0 e)
find-insert_names value key (suc i) (s ∷ strings) str e v =
    find-other value key (trim s) (insert_names (suc key) strings) (omega arith)
    ∙ find-insert_names value (suc key) i strings str e (omega arith)

find-insert_names_off :
    (value key : ℕ) (strings : List (List ℕ))
    → (value < key) ⊎ (key + length strings ≤ value)
    → find value (insert_names key strings) ≡ none
unfolding find insert_names
find-insert_names_off value key [] out = refl
find-insert_names_off value key (s ∷ strings) (inl lt) =
    find-other value key (trim s) (insert_names (suc key) strings) (omega arith)
    ∙ find-insert_names_off value (suc key) strings (inl (omega arith))
find-insert_names_off value key (s ∷ strings) (inr le) =
    find-other value key (trim s) (insert_names (suc key) strings) (omega arith)
    ∙ find-insert_names_off value (suc key) strings (inr (omega arith))

to_string-found :
    (value : ℕ) (names : Names) (str : List ℕ)
    → find value names ≡ some str
    → to_string value names ≡ (str, names)
unfolding to_string
to_string-found value names str h = ground (arith, h)

to_string-missing :
    (value : ℕ) (names : Names)
    → find value names ≡ none
    → to_string value names ≡ ([], names ++ ((value, []) ∷ []))
unfolding to_string
to_string-missing value names h = ground (arith, h)

print_all-end :
    (fuel it end : ℕ) (names : Names) → it ≡ end → print_all (suc fuel) it end names ≡ []
unfolding print_all
print_all-end fuel it end names e = ground arith

print_all-next :
    (fuel it end : ℕ) (names : Names) (str : List ℕ)
    → it ≢ end
    → find it names ≡ some str
    → print_all (suc fuel) it end names ≡ str ∷ print_all fuel (suc it) end names
unfolding print_all
print_all-next fuel it end names str ne h = ground (
  arith,
  ap (λ o. o.0) (to_string-found it names str h),
  ap (λ o. o.1) (to_string-found it names str h),
)

print_all-from :
    (fuel it end : ℕ) (strings : List (List ℕ)) (names : Names)
    → ((i : ℕ) (str : List ℕ)
        → get_elem? strings i ≡ some str
        → find (it + i) names ≡ some (trim str))
    → end ≡ it + length strings
    → length strings < fuel
    → print_all fuel it end names ≡ map trim strings
print_all-from zero it end strings names look e enough = absurd (omega arith)
print_all-from (suc fuel) it end [] names look e enough =
    print_all-end fuel it end names (omega arith)
print_all-from (suc fuel) it end (s ∷ strings) names look e enough =
    print_all-next fuel it end names (trim s) (omega arith)
      (ap (λ v. find v names) here ∙ look 0 s refl)
    ∙ ap (λ xs. trim s ∷ xs)
        (print_all-from fuel (suc it) end strings names
          (λ i str h. ap (λ v. find v names) (there i) ∙ look (suc i) str h) (omega arith)
          (omega arith))
  where
    here : it ≡ it + 0
    here = omega arith

    there : (i : ℕ) → suc it + i ≡ it + suc i
    there i = omega arith

-- With the constants' names as the text between the commas, a loop from `begin` to `end` prints
-- each constant's name, without the white space around it, in the order of the declaration.
pub print_all_lem :
    (split : List ℕ → List ℕ → List (List ℕ)) (fuel offset : ℕ) (first others : List ℕ)
    (strings : List (List ℕ))
    → split ((first ++ codes ", ") ++ others) (codes ",") ≡ strings
    → length strings < fuel
    → print_all fuel (begin offset) (end_of offset (length strings)) (gen split offset first others)
      ≡ map trim strings
unfolding begin end_of gen
print_all_lem split fuel offset first others strings e enough =
    ap (λ xs. print_all fuel offset (offset + length strings) (insert_names offset xs)) e
    ∙ print_all-from fuel offset (offset + length strings) strings (insert_names offset strings)
        (λ i str h. find-insert_names (offset + i) offset i strings str h refl) refl enough

-- For a value that is none of the constants, `to_string` returns the empty name.
pub to_string_no_constant :
    (split : List ℕ → List ℕ → List (List ℕ)) (offset value : ℕ) (first others : List ℕ)
    (strings : List (List ℕ))
    → split ((first ++ codes ", ") ++ others) (codes ",") ≡ strings
    → (value < offset) ⊎ (offset + length strings ≤ value)
    → (to_string value (gen split offset first others)).0 ≡ []
unfolding gen
to_string_no_constant split offset value first others strings e out =
    ap (λ xs. (to_string value (insert_names offset xs)).0) e
    ∙ ap (λ o. o.0)
        (to_string-missing value (insert_names offset strings)
          (find-insert_names_off value offset strings out))

-- The two conversions agree on the low 32 bits.
pub to_uint64-to_uint32 : (value : ℕ) → value < 2 ^ 32 → to_uint64 value % 2 ^ 32 ≡ to_uint32 value
unfolding to_uint64 to_uint32
to_uint64-to_uint32 value lt = omega arith
