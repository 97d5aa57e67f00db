-- ===== src/Lockfree/Queue.antt =====
-- `lockfree::queue` of vee/lockfree/queue.h: blocks for the elements, a queue of the numbers of the
-- free blocks, and a queue of the numbers of the used ones, run one call at a time.
pub mod Holds
pub mod Enqueue
pub mod Dequeue
pub mod Refine
use vee.Common.{
  ℕ, zero, suc, Bool, true, false, Option, none, some, List, [], ◌∷◌, leb, add_size, get_elem?, set,
  replicate,
}
use vee.Lockfree.AtQueue.{AtQueue, atqueue}
use vee.Lockfree.AtQueue
use vee.Lockfree.AtQueue.Fifo.{Op, put, get, Reply}
use vee.Lockfree.Blocks.{Built, built, throws, stuck, fill, put_back, kept}

pub record Queue (A : Type 0) : Type 0 where
  pub capacity : ℕ
  pub cont : List A
  pub cont_queue : AtQueue ℕ
  pub out_queue : AtQueue ℕ

module _ {A : Type 0} where
  unfoldable pub queue : A → ℕ → Built (Queue A)
  queue fresh capacity = elim (fill capacity 0 (atqueue 0 capacity)) [
    | throws ↦ throws
    | stuck ↦ stuck
    | built free ↦ built (record {
      capacity = capacity;
      cont = replicate capacity fresh;
      cont_queue = free;
      out_queue = atqueue 0 capacity;
    })
  ]

  -- `enqueue` with the number of a free block: the element is stored, and the number published.
  unfoldable pub publish : ℕ → A → ℕ → Queue A → AtQueue ℕ → Option (Bool × Queue A)
  publish fuel value block_id q cont_queue = elim (put_back fuel block_id q.out_queue) [
    | none ↦ none
    | some out_queue ↦ some (
      true,
      record q { cont = set q.cont block_id value; cont_queue = cont_queue; out_queue = out_queue },
    )
  ]

  -- `while (counter <= retries)` of `enqueue`, for so many rounds; `none` while it still runs.
  unfoldable pub enqueue_loop : ℕ → A → ℕ → ℕ → Queue A → Option (Bool × Queue A)
  unfolding publish
  enqueue_loop zero value retries counter q = none
  enqueue_loop (suc fuel) value retries counter q = elim (leb counter retries) [
    | false ↦ some (false, q)
    | true ↦ elim (AtQueue.dequeue kept 1 q.cont_queue) [
      | none ↦ none
      | some (done, out, cont_queue) ↦ elim out [
        | some block_id ↦ publish (suc fuel) value block_id q cont_queue
        | none ↦
            enqueue_loop fuel value retries (add_size counter 1)
              (record q { cont_queue = cont_queue })
      ]
    ]
  ]

  unfoldable pub enqueue : ℕ → A → ℕ → Queue A → Option (Bool × Queue A)
  enqueue fuel value retries q = enqueue_loop fuel value retries 0 q

  module _ (left : A → A) where
    -- `dequeue` with the number of a used block: the element is read, and the number freed.
    unfoldable pub release : ℕ → ℕ → Queue A → AtQueue ℕ → Option (Bool × Option A × Queue A)
    release fuel block_id q out_queue = elim (put_back fuel block_id q.cont_queue) [
      | none ↦ none
      | some cont_queue ↦ elim (get_elem? q.cont block_id) [
        | none ↦ some (true, none, record q { cont_queue = cont_queue; out_queue = out_queue })
        | some val ↦ some (
          true,
          some val,
          record q {
            cont = set q.cont block_id (left val);
            cont_queue = cont_queue;
            out_queue = out_queue;
          },
        )
      ]
    ]

    unfoldable pub dequeue : ℕ → Queue A → Option (Bool × Option A × Queue A)
    unfolding release
    dequeue fuel q = elim (AtQueue.dequeue kept 1 q.out_queue) [
      | none ↦ none
      | some (done, out, out_queue) ↦ elim out [
        | none ↦ some (false, none, record q { out_queue = out_queue })
        | some block_id ↦ release fuel block_id q out_queue
      ]
    ]

    -- A client's calls in order, `enqueue` with no retries; none where one does not return.
    unfoldable pub run : ℕ → Queue A → List (Op A) → Option (List (Reply A))
    run fuel q [] = some []
    run fuel q (put x ∷ ops) = elim (enqueue fuel x 0 q) [
      | none ↦ none
      | some (done, q') ↦ elim (run fuel q' ops) [
        | none ↦ none
        | some replies ↦ some ((done, none) ∷ replies)
      ]
    ]
    run fuel q (get ∷ ops) = elim (dequeue fuel q) [
      | none ↦ none
      | some (done, out, q') ↦ elim (run fuel q' ops) [
        | none ↦ none
        | some replies ↦ some ((done, out) ∷ replies)
      ]
    ]
