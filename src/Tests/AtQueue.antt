-- ===== src/Tests/AtQueue.antt =====
-- Tests of `lockfree::atqueue`.
use vee.Common.{
  ℕ, zero, suc, ◌<◌, ◌≤◌, true, false, some, none, List, [], ◌∷◌, ◌≡◌, refl, arith, get_elem?, cell,
}
use vee.Lockfree.AtQueue.{AtQueue, atqueue, enqueue, dequeue, run}
use vee.Lockfree.AtQueue.Fifo
use vee.Lockfree.AtQueue.Fifo.{Op, put, get}
use vee.Lockfree.AtQueue.Holds.{Holds}
use vee.Lockfree.AtQueue.Refine.{run-atqueue}

abbrev two_items : List ℕ
two_items = 8 ∷ 9 ∷ []

-- 8, then 9, round the end of the cells.
abbrev wrapped : AtQueue ℕ
wrapped = record {
  capacity = 3;
  front = 2;
  rear = 1;
  cont = 9 ∷ 7 ∷ 8 ∷ [];
  ptrs = some 0 ∷ none ∷ some 2 ∷ [];
}

wrapped_stored : (k : ℕ) → k < 2 → get_elem? wrapped.cont (cell 3 2 k) ≡ get_elem? two_items k
wrapped_stored zero lt = refl
wrapped_stored (suc zero) lt = refl
wrapped_stored (suc (suc k)) lt = absurd (omega arith)

wrapped_shown : (k : ℕ) → k < 2 → get_elem? wrapped.ptrs (cell 3 2 k) ≡ some (some (cell 3 2 k))
wrapped_shown zero lt = refl
wrapped_shown (suc zero) lt = refl
wrapped_shown (suc (suc k)) lt = absurd (omega arith)

wrapped_free : (k : ℕ) → 2 ≤ k → k < 3 → get_elem? wrapped.ptrs (cell 3 2 k) ≡ some none
wrapped_free zero le lt = absurd (omega arith)
wrapped_free (suc zero) le lt = absurd (omega arith)
wrapped_free (suc (suc zero)) le lt = refl
wrapped_free (suc (suc (suc k))) le lt = absurd (omega arith)

wrapped-Holds : Holds wrapped two_items
wrapped-Holds = record {
  pos = omega arith;
  small = omega arith;
  cont_length = refl;
  ptrs_length = refl;
  front_in = omega arith;
  fits = omega arith;
  rear_at = refl;
  stored = wrapped_stored;
  shown = wrapped_shown;
  free = wrapped_free;
}

abbrev script : List (Op ℕ)
script = put 1 ∷ put 2 ∷ put 3 ∷ get ∷ put 4 ∷ get ∷ get ∷ get ∷ []

script_replies :
    run (λ x. x) 2 (atqueue 0 2) script
    ≡ some (
        (true, none)
        ∷ (true, none)
        ∷ (false, none)
        ∷ (true, some 1)
        ∷ (true, none)
        ∷ (true, some 2)
        ∷ (true, some 4)
        ∷ (false, none)
        ∷ [])
unfolding run atqueue enqueue dequeue
script_replies = refl

run-atqueue_example : run (λ x. x) 2 (atqueue 0 2) script ≡ some (Fifo.run 2 [] script)
run-atqueue_example = run-atqueue (λ x. x) 0 2 (omega arith) (omega arith) 0 script
