-- ===== src/Lockfree/AtQueue/Refine.antt =====
-- Calls of `lockfree::atqueue` that do not overlap, and the bounded queue.
use vee.Common.{ℕ, suc, ◌≤◌, ◌<◌, ◌≡◌, refl, some, List, [], ◌∷◌, arith, max_cells}
use vee.Lockfree.AtQueue.{AtQueue, atqueue, run}
use vee.Lockfree.AtQueue.Fifo
use vee.Lockfree.AtQueue.Fifo.{Op, put, get}
use vee.Lockfree.AtQueue.Holds.{Holds, atqueue-Holds}
use vee.Lockfree.AtQueue.Enqueue.{enqueue_fifo}
use vee.Lockfree.AtQueue.Dequeue.{dequeue_fifo}

module _ {A : Type 0} (left : A → A) where
  -- No sequence of calls tells a queue that holds `xs` from the bounded queue `xs` of its capacity,
  -- and every call returns within two rounds of its loop.
  run_refines :
      (fuel : ℕ) (ops : List (Op A)) (q : AtQueue A) (xs : List A)
      → Holds q xs
      → run left (suc (suc fuel)) q ops ≡ some (Fifo.run q.capacity xs ops)
  unfolding run Fifo.run
  run_refines fuel [] q xs v = refl
  run_refines fuel (put x ∷ ops) q xs v =
      let d = enqueue_fifo q xs x (suc (suc fuel)) 0 v (omega arith) (omega arith) in
      ground (
        arith,
        d.returns,
        run_refines fuel ops d.after (Fifo.enqueue q.capacity xs x).1 d.holds,
        d.same_capacity,
      )
  run_refines fuel (get ∷ ops) q xs v =
      let d = dequeue_fifo left (suc fuel) q xs v in
      ground (
        arith,
        d.returns,
        run_refines fuel ops d.after (Fifo.dequeue xs).2 d.holds,
        d.same_capacity,
      )

  -- From its constructor on, with a capacity from 1 to 2 ^ 63, an `atqueue` answers every sequence
  -- of calls that do not overlap, of `enqueue` with no retries and of `dequeue`, as the bounded
  -- queue does that is empty at first, each call within two rounds of its loop.
  pub run-atqueue :
      (fresh : A) (n : ℕ)
      → 0 < n
      → n ≤ max_cells
      → (fuel : ℕ) (ops : List (Op A))
      → run left (suc (suc fuel)) (atqueue fresh n) ops ≡ some (Fifo.run n [] ops)
  unfolding atqueue
  run-atqueue fresh n pos small fuel ops =
      run_refines fuel ops (atqueue fresh n) [] (atqueue-Holds fresh n pos small)
