-- ===== src/Lockfree/Stack/Stacked.antt =====
-- What every call of `lockfree::stack` keeps: the slots below the top are used and the others null,
-- and there are as many free block numbers as null slots. `ys` are the elements that the blocks
-- below the top hold, the last one first; `free` are the free block numbers.
use vee.Common.{
  ℕ, zero, suc, ◌+◌, ◌≤◌, ◌<◌, ◌≡◌, refl, ◌∙◌, Option, none, some, List, [], ◌∷◌, arith, length,
  get_elem?, set, max_cells, length-replicate, replicate, get_elem?-replicate, get_elem?-set_ne,
}
use vee.Lockfree.AtQueue.{AtQueue, atqueue}
use vee.Lockfree.AtQueue.Holds.{Holds, atqueue-Holds}
use vee.Lockfree.Blocks.{built, fill}
use vee.Lockfree.Blocks.Numbers.{from, length-from}
use vee.Lockfree.Blocks.Fill.{Filled, fill_lem}
use vee.Lockfree.Stack.{Stack, stack}

module _ {A : Type 0} where
  -- The first blocks hold `ys`, the last of them first.
  abbrev pub Cells : List A → List A → Type 0
  Cells cont [] = Unit
  Cells cont (y ∷ ys) = (get_elem? cont (length ys) ≡ some y) × Cells cont ys

  pub Cells-set :
      (cont : List A) (ys : List A) (c : ℕ) (v : A)
      → length ys ≤ c
      → Cells cont ys
      → Cells (set cont c v) ys
  Cells-set cont [] c v le p = tt
  Cells-set cont (y ∷ ys) c v le p = (
    get_elem?-set_ne cont c (length ys) v (omega arith) ∙ p.0,
    Cells-set cont ys c v (omega arith) p.1,
  )

  some_elem : (cont : List A) (i : ℕ) → i < length cont → (a : A) × (get_elem? cont i ≡ some a)
  some_elem [] i lt = elim lt [ ]
  some_elem (x ∷ cont) zero lt = (x, refl)
  some_elem (x ∷ cont) (suc i) lt = some_elem cont i (omega arith)

  -- The first `n` blocks always hold some list.
  pub Cells-below :
      (cont : List A) (n : ℕ) → n ≤ length cont → (ys : List A) × (length ys ≡ n) × Cells cont ys
  Cells-below cont zero le = ([], refl, tt)
  Cells-below cont (suc n) le =
      let (ys, e, p) = Cells-below cont n (omega arith) in
      let (y, q) = some_elem cont n (omega arith) in
      (y ∷ ys, omega arith, (ground (arith, q, e), p))

-- The first `n` slots are not null.
abbrev pub Used : List (Option ℕ) → ℕ → Type 0
Used outarr zero = Unit
Used outarr (suc n) = ((b : ℕ) × (get_elem? outarr n ≡ some (some b))) × Used outarr n

pub Used-set :
    (outarr : List (Option ℕ)) (n c : ℕ) (v : Option ℕ)
    → n ≤ c
    → Used outarr n
    → Used (set outarr c v) n
Used-set outarr zero c v le p = tt
Used-set outarr (suc n) c v le p = (
  (p.0.0, get_elem?-set_ne outarr c n v (omega arith) ∙ p.0.1),
  Used-set outarr n c v (omega arith) p.1,
)

pub record Stacked {A : Type 0} (s : Stack A) (free : List ℕ) (ys : List A) : Type 0 where
  pub small : s.capacity ≤ max_cells
  pub cont_length : length s.cont ≡ s.capacity
  pub outarr_length : length s.outarr ≡ s.capacity
  pub free_kept : Holds s.cont_queue free
  pub free_capacity : s.cont_queue.capacity ≡ s.capacity
  pub all_blocks : length free + length ys ≡ s.capacity
  pub top_at : s.top ≡ length ys
  pub cells : Cells s.cont ys
  pub shown : Used s.outarr (length ys)
  pub clear : (k : ℕ) → length ys ≤ k → k < s.capacity → get_elem? s.outarr k ≡ some none

pub record IsFresh {A : Type 0} (fresh : A) (n : ℕ) : Type 0 where
  pub object : Stack A
  pub returns : stack fresh n ≡ built object
  pub holds : Stacked object (from 0 n) []
  pub capacity_lem : object.capacity ≡ n

pub stack-eq :
    {A : Type 0} (fresh : A) (n : ℕ) (free : AtQueue ℕ)
    → fill n 0 (atqueue 0 n) ≡ built free
    → stack fresh n
      ≡ built (record {
        capacity = n;
        cont = replicate n fresh;
        outarr = replicate n none;
        cont_queue = free;
        top = 0;
      })
unfolding stack
stack-eq fresh n free e = ground (arith, e)

-- The constructor returns an empty stack, with its block numbers in ascending order.
unfoldable pub stack-IsFresh :
    {A : Type 0} (fresh : A) (n : ℕ) → 0 < n → n ≤ max_cells → IsFresh fresh n
unfolding stack atqueue
stack-IsFresh fresh n pos small = record {
  object = record {
    capacity = n;
    cont = replicate n fresh;
    outarr = replicate n none;
    cont_queue = f.after;
    top = 0;
  };
  returns = stack-eq fresh n f.after f.returns;
  holds = record {
    small = small;
    cont_length = length-replicate n fresh;
    outarr_length = length-replicate n none;
    free_kept = f.holds;
    free_capacity = f.same_capacity;
    all_blocks = omega (arith, length-from 0 n);
    top_at = refl;
    cells = tt;
    shown = tt;
    clear = λ k le lt. get_elem?-replicate n k none lt;
  };
  capacity_lem = refl;
}
  where
    f : Filled (atqueue 0 n) [] n 0
    f = fill_lem n 0 (atqueue 0 n) [] (atqueue-Holds 0 n pos small) (omega arith)
