-- ===== src/Lockfree/AtQueue.antt =====
-- `lockfree::atqueue` of vee/lockfree/queue.h: a ring of cells, each with a pointer that is null
-- while the cell is free. The functions are the calls run alone; `Lockfree/Threads` interleaves
-- their atomic steps.
pub mod Fifo
pub mod Holds
pub mod Enqueue
pub mod Dequeue
pub mod Refine
use vee.Common.{
  ℕ, zero, suc, ◌+◌, ◌%◌, ◌^◌, Bool, true, false, Option, none, some, List, [], ◌∷◌, ◌==◌, leb,
  if◌then◌else◌, add_size, get_elem?, set, replicate,
}
use vee.Lockfree.AtQueue.Fifo.{Op, put, get, Reply}

-- `_ptrs[i]` is null, or points to a cell of `_cont`: the option of that cell's index.
pub record AtQueue (A : Type 0) : Type 0 where
  pub capacity : ℕ
  pub front : ℕ
  pub rear : ℕ
  pub cont : List A
  pub ptrs : List (Option ℕ)

-- `(x + 1) % capacity` on a `size_t`.
abbrev pub next_index : ℕ → ℕ → ℕ
next_index capacity x = add_size x 1 % capacity

-- `std::atomic_compare_exchange_strong(&object, &expected, desired)`: the result, and the object.
abbrev pub compare_exchange : ℕ → ℕ → ℕ → Bool × ℕ
compare_exchange object expected desired =
    if object == expected then (true, desired) else (false, object)

-- Whether the pointer at an index of the ring is null; none outside the array,
-- where the code has no defined behaviour and a round below makes no progress.
abbrev pub is_null : List (Option ℕ) → ℕ → Option Bool
is_null ptrs i = elim (get_elem? ptrs i) [
  | none ↦ none
  | some p ↦ elim p [ none ↦ some true | some j ↦ some false ]
]

module _ {A : Type 0} where
  unfoldable pub atqueue : A → ℕ → AtQueue A
  atqueue fresh capacity = record {
    capacity = capacity;
    front = 0;
    rear = 0;
    cont = replicate capacity fresh;
    ptrs = replicate capacity none;
  }

  -- `enqueue` of a free cell at the index `rear` that was read: the exchange, and the two stores.
  unfoldable pub claim_rear : A → ℕ → AtQueue A → Option Bool × AtQueue A
  claim_rear value rear q =
      let (won, rear') = compare_exchange q.rear rear (next_index q.capacity rear) in
      elim won [
        | true ↦ (
          some true,
          record q {
            rear = rear';
            cont = set q.cont rear value;
            ptrs = set q.ptrs rear (some rear);
          },
        )
        | false ↦ (none, record q { rear = rear' })
      ]

  -- One round of the loop of `enqueue`: `some true` where it returns, `some false` where the queue
  -- is full and the counter grows, `none` where the exchange failed and the round is repeated.
  unfoldable pub enqueue_round : A → AtQueue A → Option Bool × AtQueue A
  unfolding claim_rear
  enqueue_round value q = elim (is_null q.ptrs q.rear) [
    | none ↦ (none, q)
    | some null ↦ if null then claim_rear value q.rear q else (some false, q)
  ]

  -- `while (counter <= retries)`, for so many rounds; `none` while it still runs.
  unfoldable pub enqueue_loop : ℕ → A → ℕ → ℕ → AtQueue A → Option (Bool × AtQueue A)
  unfolding enqueue_round
  enqueue_loop zero value retries counter q = none
  enqueue_loop (suc fuel) value retries counter q = elim (leb counter retries) [
    | false ↦ some (false, q)
    | true ↦
        let (outcome, q') = enqueue_round value q in
        elim outcome [
          | none ↦ enqueue_loop fuel value retries counter q'
          | some done ↦ elim done [
            | true ↦ some (true, q')
            | false ↦ enqueue_loop fuel value retries (add_size counter 1) q'
          ]
        ]
  ]

  unfoldable pub enqueue : ℕ → A → ℕ → AtQueue A → Option (Bool × AtQueue A)
  unfolding enqueue_loop
  enqueue fuel value retries q = enqueue_loop fuel value retries 0 q

  -- `left` is what an assignment from a cell leaves in it.
  module _ (left : A → A) where
    -- `dequeue` of the cell at the index `front` that was read: the exchange, the read into `out`,
    -- and the store of the null pointer.
    unfoldable pub claim_front : ℕ → AtQueue A → Option (Bool × Option A) × AtQueue A
    claim_front front q =
        let (won, front') = compare_exchange q.front front (next_index q.capacity front) in
        elim won [
          | true ↦ elim (get_elem? q.cont front) [
            | none ↦ (some (true, none), record q { front = front' })
            | some val ↦ (
              some (true, some val),
              record q {
                front = front';
                cont = set q.cont front (left val);
                ptrs = set q.ptrs front none;
              },
            )
          ]
          | false ↦ (none, record q { front = front' })
        ]

    -- One round of the loop of `dequeue`: `some` of the result and of what is written to `out`
    -- where it returns, `none` where the exchange failed.
    unfoldable pub dequeue_round : AtQueue A → Option (Bool × Option A) × AtQueue A
    unfolding claim_front
    dequeue_round q = elim (is_null q.ptrs q.front) [
      | none ↦ (none, q)
      | some null ↦ if null then (some (false, none), q) else claim_front q.front q
    ]

    -- `while (true)`, for so many rounds; `none` while it still runs.
    unfoldable pub dequeue : ℕ → AtQueue A → Option (Bool × Option A × AtQueue A)
    unfolding dequeue_round
    dequeue zero q = none
    dequeue (suc fuel) q =
        let (outcome, q') = dequeue_round q in
        elim outcome [ none ↦ dequeue fuel q' | some r ↦ some (r.0, r.1, q') ]

    -- A client's calls in order, `enqueue` with no retries; none where one does not return.
    unfoldable pub run : ℕ → AtQueue A → List (Op A) → Option (List (Reply A))
    run fuel q [] = some []
    run fuel q (put x ∷ ops) = elim (enqueue fuel x 0 q) [
      | none ↦ none
      | some (done, q') ↦ elim (run fuel q' ops) [
        | none ↦ none
        | some replies ↦ some ((done, none) ∷ replies)
      ]
    ]
    run fuel q (get ∷ ops) = elim (dequeue fuel q) [
      | none ↦ none
      | some (done, out, q') ↦ elim (run fuel q' ops) [
        | none ↦ none
        | some replies ↦ some ((done, out) ∷ replies)
      ]
    ]
