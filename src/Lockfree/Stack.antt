-- ===== src/Lockfree/Stack.antt =====
-- `lockfree::stack` of vee/lockfree/stack.h: blocks for the elements, an array of pointers to the
-- blocks in stack order, and a queue of free block numbers, run one call at a time.
pub mod Lifo
pub mod Stacked
pub mod Push
pub mod Pop
pub mod Runs
use vee.Common.{
  ℕ, zero, suc, ◌+◌, ◌-◌, Bool, true, false, Option, none, some, List, [], ◌∷◌, ◌==◌, add_size,
  sub_size, get_elem?, set, replicate,
}
use vee.Lockfree.AtQueue.{AtQueue, atqueue, compare_exchange, is_null}
use vee.Lockfree.AtQueue
use vee.Lockfree.Stack.Lifo.{Op, push_op, pop_op, Reply}
use vee.Lockfree.Blocks.{Built, built, throws, stuck, fill, put_back, kept}

-- `_outarr[i]` is null, or points to a block of `_cont`: the option of that block's number.
pub record Stack (A : Type 0) : Type 0 where
  pub capacity : ℕ
  pub cont : List A
  pub outarr : List (Option ℕ)
  pub cont_queue : AtQueue ℕ
  pub top : ℕ

module _ {A : Type 0} where
  unfoldable pub stack : A → ℕ → Built (Stack A)
  stack fresh capacity = elim (fill capacity 0 (atqueue 0 capacity)) [
    | throws ↦ throws
    | stuck ↦ stuck
    | built free ↦ built (record {
      capacity = capacity;
      cont = replicate capacity fresh;
      outarr = replicate capacity none;
      cont_queue = free;
      top = 0;
    })
  ]

  -- `push` with the number of a free block. While the slot at the old top is not null the call
  -- spins, which run alone it does for ever: `none`.
  unfoldable pub place : A → ℕ → Stack A → AtQueue ℕ → Option (Bool × Stack A)
  place value block_id s cont_queue = elim (is_null s.outarr s.top) [
    | none ↦ none
    | some null ↦ elim null [
      | false ↦ none
      | true ↦ some (
        true,
        record s {
          cont = set s.cont block_id value;
          outarr = set s.outarr s.top (some block_id);
          cont_queue = cont_queue;
          top = add_size s.top 1;
        },
      )
    ]
  ]

  unfoldable pub push : Stack A → A → Option (Bool × Stack A)
  unfolding place
  push s value = elim (AtQueue.dequeue kept 1 s.cont_queue) [
    | none ↦ none
    | some (done, out, cont_queue) ↦ elim out [
      | none ↦ some (false, record s { cont_queue = cont_queue })
      | some block_id ↦ place value block_id s cont_queue
    ]
  ]

  module _ (left : A → A) where
    -- `pop` after its exchange, with `dst` below the old top: the block with the number `dst` is
    -- read, the slot is cleared, and the number `dst` goes back to the free ones.
    unfoldable pub hand_out : ℕ → ℕ → ℕ → Stack A → Option (Bool × Option A × Stack A)
    hand_out fuel dst top s = elim (put_back fuel dst s.cont_queue) [
      | none ↦ none
      | some cont_queue ↦ elim (get_elem? s.cont dst) [
        | none ↦ some (true, none, record s { cont_queue = cont_queue; top = top })
        | some val ↦ some (
          true,
          some val,
          record s {
            cont = set s.cont dst (left val);
            outarr = set s.outarr dst none;
            cont_queue = cont_queue;
            top = top;
          },
        )
      ]
    ]

    -- `while (true)` of `pop`, for so many rounds; `none` while it still runs.
    unfoldable pub pop : ℕ → Stack A → Option (Bool × Option A × Stack A)
    unfolding hand_out
    pop zero s = none
    pop (suc fuel) s =
        let dst = sub_size s.top 1 in
        elim (s.top == 0) [
          | true ↦ some (false, none, s)
          | false ↦ elim (is_null s.outarr dst) [
            | none ↦ none
            | some null ↦ elim null [
              | true ↦ pop fuel s
              | false ↦
                  let (won, top) = compare_exchange s.top s.top dst in
                  elim won [
                    | true ↦ hand_out (suc fuel) dst top s
                    | false ↦ pop fuel (record s { top = top })
                  ]
            ]
          ]
        ]

    -- A client's calls in order; none where one does not return.
    unfoldable pub run : ℕ → Stack A → List (Op A) → Option (List (Reply A))
    run fuel s [] = some []
    run fuel s (push_op x ∷ ops) = elim (push s x) [
      | none ↦ none
      | some (done, s') ↦ elim (run fuel s' ops) [
        | none ↦ none
        | some replies ↦ some ((done, none) ∷ replies)
      ]
    ]
    run fuel s (pop_op ∷ ops) = elim (pop fuel s) [
      | none ↦ none
      | some (done, out, s') ↦ elim (run fuel s' ops) [
        | none ↦ none
        | some replies ↦ some ((done, out) ∷ replies)
      ]
    ]
