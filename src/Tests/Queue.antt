-- ===== src/Tests/Queue.antt =====
-- Tests of vee/queue.h.
use vee.Common.{ℕ, true, false, some, none, List, [], ◌∷◌, ◌≡◌, refl, arith}
use vee.Queue.{queue, run}
use vee.Queue.Bounded
use vee.Queue.Bounded.{Op, put, get}
use vee.Queue.Refine.{run-queue}

abbrev script : List (Op ℕ)
script = put 1 ∷ put 2 ∷ put 3 ∷ get ∷ get ∷ get ∷ []

overwriting :
    run (λ x. x) (queue 0 2 true) script
    ≡ some (
        (true, none)
        ∷ (true, none)
        ∷ (true, none)
        ∷ (true, some 2)
        ∷ (true, some 3)
        ∷ (false, none)
        ∷ [])
unfolding run queue
overwriting = refl

refusing :
    run (λ x. x) (queue 0 2 false) script
    ≡ some (
        (true, none)
        ∷ (true, none)
        ∷ (false, none)
        ∷ (true, some 1)
        ∷ (true, some 2)
        ∷ (false, none)
        ∷ [])
unfolding run queue
refusing = refl

run-queue_example : run (λ x. x) (queue 0 2 true) script ≡ some (Bounded.run 2 true [] script)
run-queue_example = run-queue (λ x. x) 0 2 true (omega arith) (omega arith) script
