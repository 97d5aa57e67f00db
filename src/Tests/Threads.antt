-- ===== src/Tests/Threads.antt =====
-- Tests of threads on one `atqueue` of vee/lockfree/queue.h.
use vee.Common.{ℕ, ◌≡◌, ◌≤◌, refl, arith, true, false, none, some, List, [], ◌∷◌, ◌++◌, length}
use vee.Lockfree.AtQueue.{AtQueue, enqueue, dequeue, atqueue}
use vee.Lockfree.AtQueue.Holds.{Holds}
use vee.Lockfree.Threads.{
  Threads, resting, waiting, call, load, see_free, claim, store, publish, ask, look, see_full, win,
  take, clear, Reach, here, next,
}
use vee.Lockfree.Threads.Prefix.{received_prefix, rest-Holds}
use vee.Lockfree.Threads.Lost.{two_producers_lose}

-- Two calls of `enqueue` and one of `dequeue` that overlap.
overlapped :
    {A : Type 0} (left : A → A) (fresh a b : A)
    → (s : Threads A) × Reach left 1 1 fresh 2 s
      × (s.put 0 ≡ resting)
      × (s.get 0 ≡ waiting)
      × (s.sent ≡ a ∷ b ∷ [])
      × (s.received ≡ a ∷ [])
unfolding atqueue
overlapped left fresh a b =
    let r0 = next here (call 0 a (omega arith) refl) in
    let r1 = next r0 (load 0 a (omega arith) refl) in
    let r2 = next r1 (see_free 0 a 0 (omega arith) refl refl) in
    let r3 = next r2 (claim 0 a 0 (omega arith) refl refl) in
    let r4 = next r3 (store 0 a 0 (omega arith) refl) in
    let r5 = next r4 (publish 0 a 0 (omega arith) refl) in
    let r6 = next r5 (call 0 b (omega arith) refl) in
    let r7 = next r6 (load 0 b (omega arith) refl) in
    let r8 = next r7 (see_free 0 b 1 (omega arith) refl refl) in
    let r9 = next r8 (claim 0 b 1 (omega arith) refl refl) in
    let r10 = next r9 (ask 0 (omega arith) refl) in
    let r11 = next r10 (look 0 (omega arith) refl) in
    let r12 = next r11 (see_full 0 0 (omega arith) refl refl) in
    let r13 = next r12 (store 0 b 1 (omega arith) refl) in
    let r14 = next r13 (publish 0 b 1 (omega arith) refl) in
    let r15 = next r14 (win 0 0 (omega arith) refl refl) in
    let r16 = next r15 (take 0 0 a (omega arith) refl refl) in
    let r17 = next r16 (clear 0 0 (omega arith) refl) in (_, r17, refl, refl, refl, refl)

five_six :
    (s : Threads ℕ) × Reach (λ x. x) 1 1 0 2 s
    × (s.put 0 ≡ resting)
    × (s.get 0 ≡ waiting)
    × (s.sent ≡ 5 ∷ 6 ∷ [])
    × (s.received ≡ 5 ∷ [])
five_six = overlapped (λ x. x) 0 5 6

received_prefix_example :
    (rest : List ℕ) × (five_six.0.sent ≡ five_six.0.received ++ rest) × (length rest ≤ 2)
received_prefix_example =
    received_prefix (λ x. x) 0 2 five_six.0 (omega arith) (omega arith) five_six.1

rest-Holds_example :
    (rest : List ℕ) × (five_six.0.sent ≡ five_six.0.received ++ rest) × Holds five_six.0.ring rest
rest-Holds_example =
    rest-Holds (λ x. x) 0 2 five_six.0 (omega arith) (omega arith) five_six.1 five_six.2 five_six.3

two_producers_lose_example :
    (s : Threads ℕ) × (q : AtQueue ℕ) × Reach (λ x. x) 2 1 0 2 s
    × (s.put 0 ≡ resting)
    × (s.put 1 ≡ resting)
    × (s.get 0 ≡ waiting)
    × (s.sent ≡ 2 ∷ 3 ∷ 1 ∷ [])
    × (s.received ≡ 1 ∷ 2 ∷ [])
    × (dequeue (λ x. x) 1 s.ring ≡ some (false, none, s.ring))
    × (enqueue 1 4 0 s.ring ≡ some (true, q))
    × (dequeue (λ x. x) 1 q ≡ some (false, none, q))
two_producers_lose_example = two_producers_lose (λ x. x) 0 1 2 3 4
