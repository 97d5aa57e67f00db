-- ===== src/Lockfree/AtQueue/Holds.antt =====
-- The representation invariant of `lockfree::atqueue`: which list a ring of cells stands for. The
-- cells from the front on hold the list, and exactly their pointers are not null.
use vee.Common.{
  ℕ, ◌+◌, ◌%◌, ◌≤◌, ◌<◌, ◌≡◌, ◌∙◌, sym, ap, none, some, List, [], arith, length, get_elem?, cell,
  cell-lt, cell-zero, next-cell, max_cells, length-replicate, add_size, get_elem?-replicate,
}
use vee.Lockfree.AtQueue.{AtQueue, atqueue, next_index}

pub record Holds {A : Type 0} (q : AtQueue A) (xs : List A) : Type 0 where
  pub pos : 0 < q.capacity
  pub small : q.capacity ≤ max_cells
  pub cont_length : length q.cont ≡ q.capacity
  pub ptrs_length : length q.ptrs ≡ q.capacity
  pub front_in : q.front < q.capacity
  pub fits : length xs ≤ q.capacity
  pub rear_at : q.rear ≡ cell q.capacity q.front (length xs)
  pub stored :
      (k : ℕ) → k < length xs → get_elem? q.cont (cell q.capacity q.front k) ≡ get_elem? xs k
  pub shown :
      (k : ℕ)
      → k < length xs
      → get_elem? q.ptrs (cell q.capacity q.front k) ≡ some (some (cell q.capacity q.front k))
  pub free :
      (k : ℕ)
      → length xs ≤ k
      → k < q.capacity
      → get_elem? q.ptrs (cell q.capacity q.front k) ≡ some none

pub next_index-lt : (n h : ℕ) → h < n → n ≤ max_cells → next_index n h ≡ cell n h 1
next_index-lt n h lt small = ap (λ j. j % n) no_wrap
  where
    no_wrap : add_size h 1 ≡ h + 1
    no_wrap = omega arith

pub next_index-cell :
    (n h k : ℕ) → 0 < n → n ≤ max_cells → next_index n (cell n h k) ≡ cell n h (k + 1)
next_index-cell n h k pos small =
    next_index-lt n (cell n h k) (cell-lt n h k pos) small ∙ next-cell n h k

pub atqueue-Holds :
    {A : Type 0} (fresh : A) (n : ℕ) → 0 < n → n ≤ max_cells → Holds (atqueue fresh n) []
unfolding atqueue
atqueue-Holds fresh n pos small = record {
  pos = pos;
  small = small;
  cont_length = length-replicate n fresh;
  ptrs_length = length-replicate n none;
  front_in = pos;
  fits = omega arith;
  rear_at = sym (cell-zero n 0 pos);
  stored = λ k lt. elim lt [ ];
  shown = λ k lt. elim lt [ ];
  free = λ k le lt. get_elem?-replicate n (cell n 0 k) none (cell-lt n 0 k pos);
}
