-- ===== src/Queue/Refine.antt =====
-- Sequences of calls of vee/queue.h, and the bounded queue.
use vee.Common.{
  ℕ, ◌≤◌, ◌<◌, ◌≡◌, refl, sym, Bool, some, List, [], ◌∷◌, arith, cell-zero, max_cells,
  length-replicate,
}
use vee.Lock.{spin_lock}
use vee.Queue.{Queue, queue, copy, run}
use vee.Queue.Bounded
use vee.Queue.Bounded.{Op, put, get, Reply}
use vee.Queue.Holds.{Holds}
use vee.Queue.Enqueue.{enqueue_refines}
use vee.Queue.Dequeue.{dequeue_refines}

module _ {A : Type 0} where
  module _ (left : A → A) where
    -- No sequence of calls tells a queue that holds `xs` from the bounded queue `xs` with its
    -- capacity and its flag, and no call waits for ever.
    pub run_refines :
        (ops : List (Op A)) (q : Queue A) (xs : List A)
        → Holds q xs
        → run left q ops ≡ some (Bounded.run q.capacity q.overwrite_flag xs ops)
    unfolding run Bounded.run
    run_refines [] q xs v = refl
    run_refines (put x ∷ ops) q xs v =
        let d = enqueue_refines q xs x v in
        let ih =
          run_refines ops d.after (Bounded.enqueue q.capacity q.overwrite_flag xs x).1 d.holds in
        rw (d.returns, ih, d.same_capacity, d.same_flag)
    run_refines (get ∷ ops) q xs v =
        let d = dequeue_refines left q xs v in
        let ih = run_refines ops d.after (Bounded.dequeue xs).2 d.holds in
        rw (d.returns, ih, d.same_capacity, d.same_flag)

  queue-Holds :
      (fresh : A) (n : ℕ) (flag : Bool) → 0 < n → n ≤ max_cells → Holds (queue fresh n flag) []
  unfolding queue
  queue-Holds fresh n flag pos small = record {
    pos = pos;
    small = small;
    blocks_length = length-replicate n fresh;
    locks_length = length-replicate n spin_lock;
    front_in = pos;
    fits = omega arith;
    sized = refl;
    rear_at = sym (cell-zero n 0 pos);
    stored = λ k lt. elim lt [ ];
    open_idx = refl;
  }

  -- From its constructor on, with a capacity from 1 to 2 ^ 63, a queue answers every sequence of
  -- calls as the bounded queue does that is empty at first.
  pub run-queue :
      (left : A → A) (fresh : A) (n : ℕ) (flag : Bool)
      → 0 < n
      → n ≤ max_cells
      → (ops : List (Op A)) → run left (queue fresh n flag) ops ≡ some (Bounded.run n flag [] ops)
  unfolding queue
  run-queue left fresh n flag pos small ops =
      run_refines left ops (queue fresh n flag) [] (queue-Holds fresh n flag pos small)

  -- A copy of a queue answers as an empty one of its capacity and its flag, whatever elements the
  -- original holds.
  pub run-copy :
      (left : A → A) (fresh : A) (q : Queue A) (xs : List A)
      → Holds q xs
      → (ops : List (Op A))
      → run left (copy fresh q) ops ≡ some (Bounded.run q.capacity q.overwrite_flag [] ops)
  unfolding copy
  run-copy left fresh q xs v ops =
      run-queue left fresh q.capacity q.overwrite_flag v.pos v.small ops
