-- ===== src/Queue/Holds.antt =====
-- The representation invariant of vee/queue.h: which list a ring of blocks stands for.
use vee.Common.{
  ℕ, ◌+◌, ◌%◌, add_size, ◌≤◌, ◌<◌, ◌≡◌, ◌∙◌, ap, false, List, arith, length, get_elem?, cell,
  next-cell, cell-lt, max_cells,
}
use vee.Queue.{Queue, advance}

pub record Holds {A : Type 0} (q : Queue A) (xs : List A) : Type 0 where
  pub pos : 0 < q.capacity
  pub small : q.capacity ≤ max_cells
  pub blocks_length : length q.blocks ≡ q.capacity
  pub locks_length : length q.blocklcks ≡ q.capacity
  pub front_in : q.front < q.capacity
  pub fits : length xs ≤ q.capacity
  pub sized : q.size ≡ length xs
  pub rear_at : q.rear ≡ cell q.capacity q.front (length xs)
  pub stored :
      (k : ℕ) → k < length xs → get_elem? q.blocks (cell q.capacity q.front k) ≡ get_elem? xs k
  pub open_idx : q.idxlck.flag ≡ false

pub advance-lt : (n h : ℕ) → h < n → n ≤ max_cells → advance n h ≡ cell n h 1
advance-lt n h lt small = ap (λ j. j % n) no_wrap
  where
    no_wrap : add_size h 1 ≡ h + 1
    no_wrap = omega arith

pub advance-cell : (n h k : ℕ) → 0 < n → n ≤ max_cells → advance n (cell n h k) ≡ cell n h (k + 1)
advance-cell n h k pos small = advance-lt n (cell n h k) (cell-lt n h k pos) small ∙ next-cell n h k
