-- ===== src/Tests/Pooled.antt =====
-- Tests of `lockfree::queue` and `lockfree::stack`.
use vee.Common.{ℕ, true, false, some, none, List, [], ◌∷◌, ◌≡◌, refl, arith}
use vee.Lockfree.AtQueue.Fifo
use vee.Lockfree.AtQueue.Fifo.{Op, put, get}
use vee.Lockfree.Blocks.{built}
use vee.Lockfree.Queue as Pooled
use vee.Lockfree.Queue.Holds as PooledHolds
use vee.Lockfree.Queue.Enqueue.{Done, enqueue-Represents}
use vee.Lockfree.Queue.Refine as PooledRefine
use vee.Lockfree.Stack.{Stack, stack, run}
use vee.Lockfree.Stack.Lifo
use vee.Lockfree.Stack.Lifo.{push_op, pop_op, pops, pushes, Reply}
use vee.Lockfree.Stack.Stacked.{Stacked, IsFresh, stack-IsFresh}
use vee.Lockfree.Stack.Push.{Pushed, push-Pushed}
use vee.Lockfree.Stack.Runs.{run-fill_drain, pop_push_pop}

abbrev script : List (Op ℕ)
script = put 1 ∷ put 2 ∷ put 3 ∷ get ∷ put 4 ∷ get ∷ get ∷ get ∷ []

-- The queue of two blocks, as it is built.
pooled : PooledHolds.IsFresh {A = ℕ} 0 2
pooled = PooledHolds.queue-IsFresh 0 2 (omega arith) (omega arith)

run-built_example :
    (q : Pooled.Queue ℕ) × (Pooled.queue 0 2 ≡ built q)
    × (Pooled.run (λ x. x) 2 q script ≡ some (Fifo.run 2 [] script))
run-built_example = PooledRefine.run-built (λ x. x) 0 2 (omega arith) (omega arith) 0 script

-- With three retries, five rounds.
enqueue-Represents_example :
    let (done, ys) = Fifo.enqueue {A = ℕ} pooled.object.capacity [] 7 in
    Done pooled.object ys (Pooled.enqueue 5 7 3 pooled.object) done
enqueue-Represents_example =
    enqueue-Represents pooled.object [] 7 5 3 pooled.holds (omega arith) (omega arith)

abbrev elements : List ℕ
elements = 7 ∷ 8 ∷ 9 ∷ []

run-fill_drain_example :
    (s : Stack ℕ) × (stack 0 2 ≡ built s)
    × (run (λ x. x) 1 s (pushes elements (pops 3))
        ≡ some (Lifo.run 2 [] (pushes elements (pops 3))))
run-fill_drain_example = run-fill_drain (λ x. x) 0 2 (omega arith) (omega arith) 0 3 elements

fill_drain_replies :
    Lifo.run 2 [] (pushes elements (pops 3))
    ≡ (true, none)
      ∷ (true, none)
      ∷ (false, none)
      ∷ (true, some 8)
      ∷ (true, some 7)
      ∷ (false, none)
      ∷ []
unfolding Lifo.run
fill_drain_replies = refl

-- The stack of two blocks, as it is built, and after a push of 7.
fresh : IsFresh {A = ℕ} 0 2
fresh = stack-IsFresh 0 2 (omega arith) (omega arith)

one : Pushed fresh.object 7 0 (1 ∷ []) []
one = push-Pushed fresh.object 7 0 (1 ∷ []) [] fresh.holds

one-Stacked : Stacked one.after (1 ∷ []) (7 ∷ [])
unfolding fresh stack-IsFresh
one-Stacked = one.holds (7 ∷ []) refl (refl, tt)

pop_push_pop_example :
    run (λ x. x) 1 one.after (pop_op ∷ push_op 8 ∷ pop_op ∷ [])
    ≡ some ((true, some 7) ∷ (true, none) ∷ (true, some 7) ∷ [])
pop_push_pop_example = pop_push_pop (λ x. x) 0 one.after 1 [] 7 [] 8 one-Stacked (omega arith)
