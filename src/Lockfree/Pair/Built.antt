-- ===== src/Lockfree/Pair/Built.antt =====
-- The constructor of `lockfree::queue`, and the state that two threads start from.
use vee.Common.{
  ℕ, zero, suc, ◌+◌, ◌≤◌, ◌<◌, ◌≡◌, ◌∙◌, refl, sym, ap, true, some, List, [], ◌∷◌, ◌++◌, length,
  length-append, arith, max_cells,
}
use vee.Lockfree.AtQueue.{AtQueue, is_null}
use vee.Lockfree.AtQueue.Holds.{Holds}
use vee.Lockfree.Blocks.{kept, fill, built}
use vee.Lockfree.Blocks.Numbers.{from, length-from}
use vee.Lockfree.Queue.{queue}
use vee.Lockfree.Threads.{Threads, resting, waiting, Reach, here, start}
use vee.Lockfree.Threads.Prefix.{rest-Holds, Reach-capacity}
use vee.Lockfree.Threads.Alone.{enqueue-Steps, Reach-Steps}
use vee.Lockfree.Pair.{Filled, built_pair}

from-last : (i k : ℕ) → from i k ++ ((i + k) ∷ []) ≡ from i (suc k)
from-last i zero = ap (λ j. j ∷ []) (omega arith)
from-last i (suc k) =
    ap (λ j. i ∷ (from (i + 1) k ++ (j ∷ []))) (omega arith)
    ∙ ap (λ js. i ∷ js) (from-last (i + 1) k)

next_number : (k : ℕ) → from 0 k ++ (k ∷ []) ≡ from 0 (k + 1)
next_number k =
    ap (λ j. from 0 k ++ (j ∷ [])) (omega arith)
    ∙ from-last 0 k
    ∙ ap (from 0) {x = suc k} (omega arith)

-- A cell behind fewer values than cells is free.
rear-null :
    (q : AtQueue ℕ) (xs : List ℕ)
    → Holds q xs
    → length xs < q.capacity
    → is_null q.ptrs q.rear ≡ some true
rear-null q xs h room =
    ap (is_null q.ptrs) h.rear_at ∙ ground (arith, h.free (length xs) (omega arith) room)

module _ {A : Type 0} (left : A → A) (n : ℕ) (pos : 0 < n) (small : n ≤ max_cells) where
  -- The loop of the constructor, of which one thread makes the steps.
  filling :
      (m k : ℕ) (s : Threads ℕ)
      → k + m ≡ n
      → Reach kept 1 1 0 n s
      → s.sent ≡ from 0 k
      → s.received ≡ []
      → s.put 0 ≡ resting
      → s.get 0 ≡ waiting
      → (q : Threads ℕ) × Filled left n q × (fill m k s.ring ≡ built q.ring)
  unfolding fill
  filling zero k s e r sent none at_rest waits = (
    s,
    record {
      reached = r;
      numbers = sent ∙ ap (from 0) (omega arith);
      untouched = none;
      at_rest = at_rest;
      waits = waits;
    },
    refl,
  )
  filling (suc m) k s e r sent none at_rest waits =
      let (rest, split, holds) = rest-Holds kept 0 n s pos small r at_rest waits in
      let size : length rest ≡ k = omega (
        arith,
        ap length (sym sent ∙ split),
        ap length none,
        length-append s.received rest,
        length-from 0 k,
      ) in
      let null : is_null s.ring.ptrs s.ring.rear ≡ some true =
        rear-null s.ring rest holds (omega (arith, size, Reach-capacity kept r)) in
      let (t, steps, at_rest', returns, sent', same_get, same_received) =
        enqueue-Steps kept 1 1 s 0 k (omega arith) at_rest true null in
      let (q, filled, e') =
        filling m (k + 1) t (omega arith) (Reach-Steps kept 1 1 r steps)
          (sent' ∙ ap (λ s. s ++ (k ∷ [])) sent ∙ next_number k) (same_received ∙ none) at_rest'
          (ap (λ g. g 0) same_get ∙ waits) in
      (q, filled, ground (arith, returns, e'))

  -- The constructor of a queue of at least one and at most `max_cells` blocks returns an object
  -- whose rings and blocks are those of a state from which the two threads start.
  pub queue-Filled :
      (fresh : A)
      → (q : Threads ℕ) × Filled left n q
        × (queue fresh n
            ≡ built (record {
              capacity = n;
              cont = (built_pair left fresh n q).cont;
              cont_queue = (built_pair left fresh n q).cont_queue.ring;
              out_queue = (built_pair left fresh n q).out_queue.ring;
            }))
  unfolding queue
  queue-Filled fresh =
      let (q, filled, e) =
        filling n 0 (start kept 1 1 0 n) (omega arith) here refl refl refl refl in
      (q, filled, ground (arith, e))
