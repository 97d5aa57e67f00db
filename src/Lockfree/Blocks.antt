-- ===== src/Lockfree/Blocks.antt =====
-- The queue of free block numbers that `lockfree::queue` and `lockfree::stack` share: how it is
-- filled by their constructors, and how a number is put back.
pub mod Numbers
pub mod Fill
use vee.Common.{ℕ, zero, suc, ◌+◌, Bool, true, false, Option, none, some}
use vee.Lockfree.AtQueue.{AtQueue, enqueue}

-- How a constructor ends: with an object, by throwing `std::runtime_error`, or not at all.
pub data Built {ℓ} (A : Type ℓ) : Type ℓ where
  built : A → Built A
  throws : Built A
  stuck : Built A

-- `for (size_t i = 0; i < capacity; )` of the constructors, with `n` numbers to go from `i` on.
unfoldable pub fill : ℕ → ℕ → AtQueue ℕ → Built (AtQueue ℕ)
fill zero i q = built q
fill (suc n) i q = elim (enqueue 2 i 0 q) [
  | none ↦ stuck
  | some (done, q') ↦ elim done [ true ↦ fill n (i + 1) q' | false ↦ throws ]
]

-- `while (!queue.enqueue(block_id)) {}`, for so many rounds; `none` while it still runs.
unfoldable pub put_back : ℕ → ℕ → AtQueue ℕ → Option (AtQueue ℕ)
put_back zero block_id q = none
put_back (suc fuel) block_id q = elim (enqueue 2 block_id 0 q) [
  | none ↦ none
  | some (done, q') ↦ elim done [ true ↦ some q' | false ↦ put_back fuel block_id q' ]
]

-- A block number is an integer: an assignment from a cell leaves its value there.
abbrev pub kept : ℕ → ℕ
kept id = id
