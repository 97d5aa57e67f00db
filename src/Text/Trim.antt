-- ===== src/Text/Trim.antt =====
-- What `trim` cuts off.
use vee.Common.{
  ℕ, suc, ◌≡◌, ◌∙◌, refl, ap, true, false, none, some, List, [], ◌∷◌, ◌++◌, length, arith, take,
  drop,
}
use vee.Text.{is_blank, find_first_not_of, find_last_not_of, trim_left, trim_right, trim}

-- A text of white space.
pub data Blank : List ℕ → Type 0 where
  nothing : Blank []
  more : {c : ℕ} {str : List ℕ} → is_blank c ≡ true → Blank str → Blank (c ∷ str)

-- A text that starts, and one that ends, with something else.
pub data Starts : List ℕ → Type 0 where
  starts : (c : ℕ) (str : List ℕ) → is_blank c ≡ false → Starts (c ∷ str)

pub data Stops : List ℕ → Type 0 where
  last : (c : ℕ) → is_blank c ≡ false → Stops (c ∷ [])
  more : (c : ℕ) (str : List ℕ) → Stops str → Stops (c ∷ str)

find_first_not_of-Blank : (str : List ℕ) → Blank str → find_first_not_of str ≡ none
unfolding find_first_not_of
find_first_not_of-Blank _ nothing = refl
find_first_not_of-Blank _ (more {c} {str} e b) = ground (arith, e, find_first_not_of-Blank str b)

find_last_not_of-Blank : (str : List ℕ) → Blank str → find_last_not_of str ≡ none
unfolding find_last_not_of
find_last_not_of-Blank _ nothing = refl
find_last_not_of-Blank _ (more {c} {str} e b) = ground (arith, e, find_last_not_of-Blank str b)

find_first_not_of-Starts :
    (l str : List ℕ) → Blank l → Starts str → find_first_not_of (l ++ str) ≡ some (length l)
unfolding find_first_not_of
find_first_not_of-Starts _ _ nothing (starts c str e) = ground (arith, e)
find_first_not_of-Starts _ str (more {c} {str = l} e b) s =
    ground (arith, e, find_first_not_of-Starts l str b s)

-- A text that stops is not empty: its last character stands where the search finds it.
find_last_not_of-Stops :
    (str r : List ℕ)
    → Stops str
    → Blank r
    → (n : ℕ) × (find_last_not_of (str ++ r) ≡ some n) × (suc n ≡ length str)
unfolding find_last_not_of
find_last_not_of-Stops _ r (last c e) b =
    (0, ground (arith, e, find_last_not_of-Blank r b), omega arith)
find_last_not_of-Stops _ r (more c str s) b =
    let (n, found, len) = find_last_not_of-Stops str r s b in
    (suc n, ground (arith, found), omega arith)

drop-append : (l str : List ℕ) → drop (length l) (l ++ str) ≡ str
drop-append [] str = refl
drop-append (c ∷ l) str = drop-append l str

take-append : (l str : List ℕ) → take (length l) (l ++ str) ≡ l
take-append [] str = refl
take-append (c ∷ l) str = ap (λ xs. c ∷ xs) (take-append l str)

trim_left-none : (str : List ℕ) → find_first_not_of str ≡ none → trim_left str ≡ str
unfolding trim_left
trim_left-none str h = ground (arith, h)

trim_left-some :
    (str : List ℕ) (n : ℕ) → find_first_not_of str ≡ some n → trim_left str ≡ drop n str
unfolding trim_left
trim_left-some str n h = ground (arith, h)

trim_right-none : (str : List ℕ) → find_last_not_of str ≡ none → trim_right str ≡ str
unfolding trim_right
trim_right-none str h = ground (arith, h)

trim_right-some :
    (str : List ℕ) (n : ℕ) → find_last_not_of str ≡ some n → trim_right str ≡ take (suc n) str
unfolding trim_right
trim_right-some str n h = ground (arith, h)

trim_left_lem : (l str : List ℕ) → Blank l → Starts str → trim_left (l ++ str) ≡ str
trim_left_lem l str b s =
    trim_left-some (l ++ str) (length l) (find_first_not_of-Starts l str b s) ∙ drop-append l str

trim_right_lem : (str r : List ℕ) → Stops str → Blank r → trim_right (str ++ r) ≡ str
trim_right_lem str r s b =
    let (n, found, len) = find_last_not_of-Stops str r s b in
    trim_right-some (str ++ r) n found ∙ ap (λ k. take k (str ++ r)) len ∙ take-append str r

Starts-append : (str r : List ℕ) → Starts str → Starts (str ++ r)
Starts-append _ r (starts c str e) = starts c (str ++ r) e

append-Stops : (l str : List ℕ) → Stops str → Stops (l ++ str)
append-Stops [] str s = s
append-Stops (c ∷ l) str s = more c (l ++ str) (append-Stops l str s)

-- `trim` cuts the white space off both ends of a text that starts and stops with something else.
pub trim_lem :
    (l str r : List ℕ) → Blank l → Starts str → Stops str → Blank r → trim ((l ++ str) ++ r) ≡ str
unfolding trim
trim_lem l str r bl st sp br =
    ap trim_left (trim_right_lem (l ++ str) r (append-Stops l str sp) br)
    ∙ trim_left_lem l str bl st

-- A text of nothing but white space is returned whole.
pub trim-Blank : (str : List ℕ) → Blank str → trim str ≡ str
unfolding trim
trim-Blank str b =
    ap trim_left (trim_right-none str (find_last_not_of-Blank str b))
    ∙ trim_left-none str (find_first_not_of-Blank str b)
