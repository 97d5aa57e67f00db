-- ===== src/Lockfree/Queue/Refine.antt =====
-- Calls of `lockfree::queue` that do not overlap, and the bounded queue.
use vee.Common.{ℕ, suc, ◌≤◌, ◌<◌, ◌≡◌, refl, some, List, [], ◌∷◌, arith, max_cells}
use vee.Lockfree.AtQueue.Fifo
use vee.Lockfree.AtQueue.Fifo.{Op, put, get}
use vee.Lockfree.Blocks.{built}
use vee.Lockfree.Queue.{Queue, queue, run}
use vee.Lockfree.Queue.Holds.{Represents, IsFresh, queue-IsFresh}
use vee.Lockfree.Queue.Enqueue.{enqueue-Represents}
use vee.Lockfree.Queue.Dequeue.{dequeue-Represents}

module _ {A : Type 0} (left : A → A) where
  run-Represents :
      (fuel : ℕ) (ops : List (Op A)) (q : Queue A) (xs : List A)
      → Represents q xs
      → run left (suc (suc fuel)) q ops ≡ some (Fifo.run q.capacity xs ops)
  unfolding run Fifo.run
  run-Represents fuel [] q xs v = refl
  run-Represents fuel (put x ∷ ops) q xs v =
      let d = enqueue-Represents q xs x (suc (suc fuel)) 0 v (omega arith) (omega arith) in
      ground (
        arith,
        d.returns,
        run-Represents fuel ops d.after (Fifo.enqueue q.capacity xs x).1 d.holds,
        d.same_capacity,
      )
  run-Represents fuel (get ∷ ops) q xs v =
      let d = dequeue-Represents left (suc fuel) q xs v in
      ground (
        arith,
        d.returns,
        run-Represents fuel ops d.after (Fifo.dequeue xs).2 d.holds,
        d.same_capacity,
      )

  -- With a capacity from 1 to 2 ^ 63 the constructor does not throw, and the queue that it builds
  -- answers every sequence of calls that do not overlap, of `enqueue` with no retries and of
  -- `dequeue`, as the bounded queue does that is empty at first, each call within two rounds of each
  -- of its loops.
  pub run-built :
      (fresh : A) (n : ℕ)
      → 0 < n
      → n ≤ max_cells
      → (fuel : ℕ) (ops : List (Op A))
      → (q : Queue A) × (queue fresh n ≡ built q)
        × (run left (suc (suc fuel)) q ops ≡ some (Fifo.run n [] ops))
  run-built fresh n pos small fuel ops = (
    f.object,
    f.returns,
    ground (arith, run-Represents fuel ops f.object [] f.holds, f.capacity_lem),
  )
    where
      f : IsFresh fresh n
      f = queue-IsFresh fresh n pos small
