-- ===== src/Lockfree/Threads/Lost.antt =====
-- Two threads that call `enqueue` of an `atqueue` of two cells.
use vee.Common.{◌≡◌, refl, true, false, none, some, [], ◌∷◌, arith}
use vee.Lockfree.AtQueue.{AtQueue, enqueue, dequeue, atqueue}
use vee.Lockfree.Threads.{
  Threads, resting, waiting, call, load, see_free, claim, store, publish, ask, look, see_full, win,
  take, clear, Reach, here, next,
}

module _ {A : Type 0} (left : A → A) where
  -- On a queue of two cells that two threads enqueue into and one takes from, whatever the values
  -- `a`, `b`, `c` and `d` are, a state is reached where no thread is in a call, `b`, `c` and `a`
  -- were sent, only `a` and `b` were received, and a `dequeue` run alone returns false. From it an
  -- `enqueue` of `d` run alone returns true, and a `dequeue` after it returns false again.
  pub two_producers_lose :
      (fresh a b c d : A)
      → (s : Threads A) × (q : AtQueue A) × Reach left 2 1 fresh 2 s
        × (s.put 0 ≡ resting)
        × (s.put 1 ≡ resting)
        × (s.get 0 ≡ waiting)
        × (s.sent ≡ b ∷ c ∷ a ∷ [])
        × (s.received ≡ a ∷ b ∷ [])
        × (dequeue left 1 s.ring ≡ some (false, none, s.ring))
        × (enqueue 1 d 0 s.ring ≡ some (true, q))
        × (dequeue left 1 q ≡ some (false, none, q))
  unfolding dequeue enqueue atqueue
  two_producers_lose fresh a b c d =
      let r0 = next here (call 0 a (omega arith) refl) in
      let r1 = next r0 (load 0 a (omega arith) refl) in
      let r2 = next r1 (see_free 0 a 0 (omega arith) refl refl) in
      let r3 = next r2 (claim 0 a 0 (omega arith) refl refl) in
      let r4 = next r3 (call 1 b (omega arith) refl) in
      let r5 = next r4 (load 1 b (omega arith) refl) in
      let r6 = next r5 (see_free 1 b 1 (omega arith) refl refl) in
      let r7 = next r6 (claim 1 b 1 (omega arith) refl refl) in
      let r8 = next r7 (store 1 b 1 (omega arith) refl) in
      let r9 = next r8 (publish 1 b 1 (omega arith) refl) in
      let r10 = next r9 (call 1 c (omega arith) refl) in
      let r11 = next r10 (load 1 c (omega arith) refl) in
      let r12 = next r11 (see_free 1 c 0 (omega arith) refl refl) in
      let r13 = next r12 (claim 1 c 0 (omega arith) refl refl) in
      let r14 = next r13 (store 1 c 0 (omega arith) refl) in
      let r15 = next r14 (publish 1 c 0 (omega arith) refl) in
      let r16 = next r15 (store 0 a 0 (omega arith) refl) in
      let r17 = next r16 (publish 0 a 0 (omega arith) refl) in
      let r18 = next r17 (ask 0 (omega arith) refl) in
      let r19 = next r18 (look 0 (omega arith) refl) in
      let r20 = next r19 (see_full 0 0 (omega arith) refl refl) in
      let r21 = next r20 (win 0 0 (omega arith) refl refl) in
      let r22 = next r21 (take 0 0 a (omega arith) refl refl) in
      let r23 = next r22 (clear 0 0 (omega arith) refl) in
      let r24 = next r23 (ask 0 (omega arith) refl) in
      let r25 = next r24 (look 0 (omega arith) refl) in
      let r26 = next r25 (see_full 0 1 (omega arith) refl refl) in
      let r27 = next r26 (win 0 1 (omega arith) refl refl) in
      let r28 = next r27 (take 0 1 b (omega arith) refl refl) in
      let r29 = next r28 (clear 0 1 (omega arith) refl) in
      (_, _, r29, refl, refl, refl, refl, refl, refl, refl, refl)
