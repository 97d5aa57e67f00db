-- ===== src/Tests/Texts.antt =====
-- Tests of vee/helper/strmagic.h and vee/enumeration.h.
use vee.Common.{ℕ, ◌-◌, ltb, ◌&&◌, if◌then◌else◌, ◌≡◌, refl, arith, List, [], ◌∷◌, inr}
use vee.Text.Search.{ci_find_substr, Finds, ci_find_substr-Finds}
use vee.CString.{codes}
use vee.Enumeration.{gen, to_string}
use vee.Enumeration.Printed.{to_string_no_constant}

-- What the tokenizer gives for "red, green".
abbrev split_once : List ℕ → List ℕ → List (List ℕ)
split_once str token = codes "red" ∷ codes " green" ∷ []

to_string_no_constant_example :
    (to_string 7 (gen split_once 5 (codes "red") (codes "green"))).0 ≡ []
to_string_no_constant_example =
    to_string_no_constant split_once 5 7 (codes "red") (codes "green")
      (codes "red" ∷ codes " green" ∷ []) refl (inr (omega arith))

-- The upper case of the ASCII letters.
abbrev toupper : ℕ → ℕ
toupper c = if ltb 96 c && ltb c 123 then c - 32 else c

ci_find_substr_at : ci_find_substr toupper (codes "a Red pen") (codes "rED") ≡ 2
unfolding ci_find_substr
ci_find_substr_at = refl

ci_find_substr-Finds_example :
    Finds toupper (codes "Red") (codes "ed") (ci_find_substr toupper (codes "Red") (codes "ed"))
ci_find_substr-Finds_example = ci_find_substr-Finds toupper (codes "Red") (codes "ed") (omega arith)
