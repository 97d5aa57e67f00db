-- ===== src/Text/Search.antt =====
-- `equal` and `ci_find_substr` of vee/helper/strmagic.h: the search that ignores case. What
-- `std::toupper` makes of a character in the locale is a parameter.
use vee.Common.{
  ℕ, zero, suc, ◌-◌, ◌%◌, ◌^◌, ◌<◌, ◌≡◌, refl, ap, ap₂, subst, Bool, true, false, Bool-cases, inl,
  inr, List, [], ◌∷◌, ◌==◌, map, take, drop, length, arith,
}

-- `not_found`, which is -1: the 32 bits of an `int`.
abbrev pub not_found : ℕ
not_found = 2 ^ 32 - 1

head-eq : {b c : ℕ} {bs cs : List ℕ} → b ∷ bs ≡ c ∷ cs → b ≡ c
head-eq e = cc

tail-eq : {b c : ℕ} {bs cs : List ℕ} → b ∷ bs ≡ c ∷ cs → bs ≡ cs
tail-eq e = ap (λ xs. drop 1 xs) e

module _ (toupper : ℕ → ℕ) where
  unfoldable pub equal : ℕ → ℕ → Bool
  equal ch1 ch2 = toupper ch1 == toupper ch2

  -- Whether a string begins with another, up to case.
  unfoldable pub begins_with : List ℕ → List ℕ → Bool
  unfolding equal
  begins_with str1 [] = true
  begins_with [] (c ∷ str2) = false
  begins_with (b ∷ str1) (c ∷ str2) =
      let rest : Bool = begins_with str1 str2 in elim (equal b c) [ true ↦ rest | false ↦ false ]

  -- `std::search` with `equal`: the index where it ends, the length where it finds nothing.
  unfoldable pub search : List ℕ → List ℕ → ℕ
  unfolding begins_with
  search [] str2 = 0
  search (c ∷ str1) str2 =
      let rest : ℕ = search str1 str2 in
      elim (begins_with (c ∷ str1) str2) [ true ↦ 0 | false ↦ suc rest ]

  unfoldable pub ci_find_substr : List ℕ → List ℕ → ℕ
  unfolding search
  ci_find_substr str1 str2 =
      let it : ℕ = search str1 str2 in
      elim (it == length str1) [ true ↦ not_found | false ↦ it % 2 ^ 32 ]

  -- The first characters of `str1` are those of `str2`, up to case.
  abbrev pub Matches : List ℕ → List ℕ → Type 0
  Matches str1 str2 = map toupper (take (length str2) str1) ≡ map toupper str2

  -- The result of a search: the first index where it matches, or that there is none.
  pub data Finds (str1 str2 : List ℕ) : ℕ → Type 0 where
    at :
        (n : ℕ)
        → n < length str1
        → Matches (drop n str1) str2
        → ((k : ℕ) → k < n → ¬ Matches (drop k str1) str2)
        → Finds str1 str2 n
    nowhere : ((k : ℕ) → k < length str1 → ¬ Matches (drop k str1) str2) → Finds str1 str2 not_found

  begins_with-Matches : (str1 str2 : List ℕ) → begins_with str1 str2 ≡ true → Matches str1 str2
  unfolding begins_with equal
  begins_with-Matches str1 [] h = refl
  begins_with-Matches [] (c ∷ str2) h = absurd (ground (arith, h))
  begins_with-Matches (b ∷ str1) (c ∷ str2) h =
      ap₂ (λ d ds. d ∷ ds) (ground (arith, h)) (begins_with-Matches str1 str2 (ground (arith, h)))

  not_Matches : (str1 str2 : List ℕ) → begins_with str1 str2 ≡ false → ¬ Matches str1 str2
  unfolding begins_with equal
  not_Matches str1 [] h m = ground (arith, h)
  not_Matches [] (c ∷ str2) h m = cc
  not_Matches (b ∷ str1) (c ∷ str2) h m = elim (Bool-cases (begins_with str1 str2)) [
    | inl begins ↦ ground (arith, h, begins, head-eq m)
    | inr differs ↦ not_Matches str1 str2 differs (tail-eq m)
  ]

  -- The first index, as the search steps over a character.
  data First (str1 str2 : List ℕ) : ℕ → Type 0 where
    here :
        (n : ℕ)
        → n < length str1
        → Matches (drop n str1) str2
        → ((k : ℕ) → k < n → ¬ Matches (drop k str1) str2)
        → First str1 str2 n
    never :
        (n : ℕ)
        → n ≡ length str1
        → ((k : ℕ) → k < n → ¬ Matches (drop k str1) str2)
        → First str1 str2 n

  below_suc :
      (c : ℕ) (str1 str2 : List ℕ) (n : ℕ)
      → ¬ Matches (c ∷ str1) str2
      → ((k : ℕ) → k < n → ¬ Matches (drop k str1) str2)
      → (k : ℕ) → k < suc n
      → ¬ Matches (drop k (c ∷ str1)) str2
  below_suc c str1 str2 n misses nos zero lt = misses
  below_suc c str1 str2 n misses nos (suc k) lt = nos k (omega arith)

  step_First :
      (c : ℕ) (str1 str2 : List ℕ) (n : ℕ)
      → ¬ Matches (c ∷ str1) str2
      → First str1 str2 n
      → First (c ∷ str1) str2 (suc n)
  step_First c str1 str2 _ misses (here n lt m nos) =
      here (suc n) (omega arith) m (below_suc c str1 str2 n misses nos)
  step_First c str1 str2 _ misses (never n e nos) =
      never (suc n) (omega arith) (below_suc c str1 str2 n misses nos)

  search-First : (str1 str2 : List ℕ) → First str1 str2 (search str1 str2)
  unfolding search
  search-First [] str2 = never 0 refl (λ k lt. absurd (omega arith))
  search-First (c ∷ str1) str2 = elim (Bool-cases (begins_with (c ∷ str1) str2)) [
    | inl h ↦ subst (First (c ∷ str1) str2) (ground (arith, h)) (
        here 0 (omega arith) (begins_with-Matches (c ∷ str1) str2 h) (λ k lt. absurd (omega arith)))
    | inr h ↦ subst (First (c ∷ str1) str2) (ground (arith, h)) (
        step_First c str1 str2 (search str1 str2) (not_Matches (c ∷ str1) str2 h)
          (search-First str1 str2))
  ]

  -- In a string of less than 2 ^ 31 characters, `ci_find_substr` gives the first index where the
  -- other string stands, up to case, if there is one inside the string, and otherwise -1.
  pub ci_find_substr-Finds :
      (str1 str2 : List ℕ) → length str1 < 2 ^ 31 → Finds str1 str2 (ci_find_substr str1 str2)
  unfolding ci_find_substr
  ci_find_substr-Finds str1 str2 short = go (search str1 str2) (search-First str1 str2)
    where
      go :
          (it : ℕ)
          → First str1 str2 it
          → Finds str1 str2 (elim (it == length str1) [ true ↦ not_found | false ↦ it % 2 ^ 32 ])
      go _ (here n lt m nos) = subst (Finds str1 str2) (ground arith) (at n lt m nos)
      go _ (never n e nos) =
          subst (Finds str1 str2) (ground arith) (nowhere (λ k lt. nos k (omega arith)))
