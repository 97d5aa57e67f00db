-- ===== src/Lockfree/Blocks/Numbers.antt =====
-- How often a block number stands in a list, and lists of consecutive numbers.
use vee.Common.{
  ℕ, zero, suc, ◌+◌, ◌≤◌, ◌<◌, ◌≡◌, refl, ap, List, [], ◌∷◌, ◌++◌, arith, length, ◌==◌,
  if◌then◌else◌, get_elem?, set, some, get_elem?-set_ne,
}

abbrev pub count : ℕ → List ℕ → ℕ
count a [] = 0
count a (b ∷ bs) = (if a == b then 1 else 0) + count a bs

abbrev pub from : ℕ → ℕ → List ℕ
from i zero = []
from i (suc n) = i ∷ from (i + 1) n

pub count-append : (a : ℕ) (bs cs : List ℕ) → count a (bs ++ cs) ≡ count a bs + count a cs
count-append a [] cs = omega arith
count-append a (b ∷ bs) cs = omega (arith, count-append a bs cs)

pub length-from : (i n : ℕ) → length (from i n) ≡ n
length-from i zero = refl
length-from i (suc n) = ap suc (length-from (i + 1) n)

-- Each number from `i` up to `i + n` stands once in the list, and no other does.
pub count-from :
    (a i n : ℕ) → (count a (from i n) ≤ 1) × (0 < count a (from i n) → (i ≤ a) × (a < i + n))
count-from a i zero = ground arith
count-from a i (suc n) = ground (arith, count-from a (i + 1) n)

module _ {A : Type 0} where
  -- The blocks of the list `bs`, in their order, hold the elements `xs`.
  abbrev pub Points : List A → List ℕ → List A → Type 0
  Points cont [] [] = Unit
  Points cont [] (x ∷ xs) = ⊥
  Points cont (b ∷ bs) [] = ⊥
  Points cont (b ∷ bs) (x ∷ xs) = (get_elem? cont b ≡ some x) × Points cont bs xs

  pub length-Points :
      (cont : List A) (bs : List ℕ) (xs : List A) → Points cont bs xs → length bs ≡ length xs
  length-Points cont [] [] p = refl
  length-Points cont [] (x ∷ xs) p = absurd p
  length-Points cont (b ∷ bs) [] p = absurd p
  length-Points cont (b ∷ bs) (x ∷ xs) p = ap suc (length-Points cont bs xs p.1)

  -- A write to a block outside the list.
  pub Points-set :
      (cont : List A) (bs : List ℕ) (xs : List A) (c : ℕ) (v : A)
      → count c bs ≡ 0
      → Points cont bs xs
      → Points (set cont c v) bs xs
  Points-set cont [] [] c v fresh p = tt
  Points-set cont [] (x ∷ xs) c v fresh p = absurd p
  Points-set cont (b ∷ bs) [] c v fresh p = absurd p
  Points-set cont (b ∷ bs) (x ∷ xs) c v fresh p = (
    rw (get_elem?-set_ne cont c b v (ground arith)) p.0,
    Points-set cont bs xs c v (omega arith) p.1,
  )

  pub Points-append :
      (cont : List A) (bs : List ℕ) (xs : List A) (c : ℕ) (v : A)
      → get_elem? cont c ≡ some v
      → Points cont bs xs
      → Points cont (bs ++ (c ∷ [])) (xs ++ (v ∷ []))
  Points-append cont [] [] c v e p = (e, tt)
  Points-append cont [] (x ∷ xs) c v e p = absurd p
  Points-append cont (b ∷ bs) [] c v e p = absurd p
  Points-append cont (b ∷ bs) (x ∷ xs) c v e p = (p.0, Points-append cont bs xs c v e p.1)
