-- ===== src/Lockfree/Threads/Single.antt =====
-- The invariant of one thread that calls `enqueue` and one that calls `dequeue`.
use vee.Common.{ℕ, ◌+◌, ◌≤◌, ◌<◌, ◌≡◌, some, List, ◌++◌, length, get_elem?, cell, drop}
use vee.Lockfree.AtQueue.{AtQueue}
use vee.Lockfree.AtQueue.Holds.{Holds}
use vee.Lockfree.Threads.{
  PutPc, resting, calling, loaded, free, claimed, stored, GetPc, waiting, asking, looked, full, won,
  taken,
}

-- The queue as it would be with all cells from `base` on that hold `ys`, and no other, in use.
abbrev pub at_base : {A : Type 0} → AtQueue A → ℕ → List A → AtQueue A
at_base q base ys = record q { front = base; rear = cell q.capacity base (length ys) }

-- A cell that the producer has claimed and has not shown yet.
abbrev pub lag : {A : Type 0} → PutPc A → ℕ
lag (claimed v r) = 1
lag (stored v r) = 1
lag _ = 0

-- A cell that the consumer has claimed and has not freed yet, and whether it has read it.
abbrev pub lead : GetPc → ℕ
lead (won f) = 1
lead (taken f) = 1
lead _ = 0

abbrev pub skip : GetPc → ℕ
skip (taken f) = 1
skip _ = 0

-- What a thread knows, by the fields of the ring, the first cell in use and the number of values.
abbrev pub Putting : {A : Type 0} → ℕ → ℕ → List A → ℕ → ℕ → PutPc A → Type 0
Putting rear capacity cont base n resting = Unit
Putting rear capacity cont base n (calling v) = Unit
Putting rear capacity cont base n (loaded v r) = r ≡ rear
Putting rear capacity cont base n (free v r) = (r ≡ rear) × (n < capacity)
Putting rear capacity cont base n (claimed v r) = r ≡ cell capacity base n
Putting rear capacity cont base n (stored v r) =
    (r ≡ cell capacity base n) × (get_elem? cont r ≡ some v)

abbrev pub Getting : ℕ → ℕ → ℕ → GetPc → Type 0
Getting front base n waiting = Unit
Getting front base n asking = Unit
Getting front base n (looked f) = f ≡ front
Getting front base n (full f) = (f ≡ front) × (0 < n)
Getting front base n (won f) = (f ≡ base) × (0 < n)
Getting front base n (taken f) = (f ≡ base) × (0 < n)

-- `ys` are the values in the cells whose pointers are not null. What was sent is what was received,
-- and those of them that were not read yet.
pub record IsOrdered {A : Type 0} (q : AtQueue A) (p : PutPc A) (g : GetPc) (sent received : List A)
    : Type 0 where
  pub base : ℕ
  pub ys : List A
  pub holds : Holds (at_base q base ys) ys
  pub fits : length ys + lag p ≤ q.capacity
  pub front_at : q.front ≡ cell q.capacity base (lead g)
  pub rear_at : q.rear ≡ cell q.capacity base (length ys + lag p)
  pub kept : sent ≡ received ++ drop (skip g) ys
  pub putting : Putting q.rear q.capacity q.cont base (length ys) p
  pub getting : Getting q.front base (length ys) g
