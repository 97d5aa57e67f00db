-- ===== src/Tests/Pairs.antt =====
-- Tests of two threads on one `lockfree::queue` of vee/lockfree/queue.h.
use vee.Common.{ℕ, ◌≡◌, ◌≤◌, ◌≢◌, refl, arith, List, [], ◌∷◌, ◌++◌, length}
use vee.Lockfree.AtQueue.{atqueue}
use vee.Lockfree.Blocks.{built}
use vee.Lockfree.Queue.{queue}
use vee.Lockfree.Threads
use vee.Lockfree.Threads.{
  Threads, taken, waiting, Reach, here, next, call, load, see_free, claim, store, look, see_full,
  win, take, clear,
}
use vee.Lockfree.Pair.{
  Pair, PairReach, Filled, new, on, built_pair, enter, ask_free, take_free, leave_free, fill, pass,
  start_get, publish, passing, freeing,
}
use vee.Lockfree.Pair.Waits.{pair_prefix}
use vee.Lockfree.Pair.Built.{queue-Filled}
use vee.Lockfree.Pair.Loops.{Succeeds}
use vee.Lockfree.Pair.Success.{pair-Succeeds}

taken_busy : (f : ℕ) → taken f ≢ waiting
taken_busy f = λ e. cc

-- A queue of one block, whose first thread has sent one element.
one_sent :
    {A : Type 0} (left : A → A) (fresh a : A)
    → (s : Pair A) × PairReach left fresh 1 s × (s.sent ≡ a ∷ []) × (s.received ≡ [])
unfolding atqueue
one_sent left fresh a =
    let b : ℕ = 0 in
    let r0 = next here (call 0 b (omega arith) refl) in
    let r1 = next r0 (load 0 b (omega arith) refl) in
    let r2 = next r1 (see_free 0 b 0 (omega arith) refl refl) in
    let r3 = next r2 (claim 0 b 0 (omega arith) refl refl) in
    let r4 = next r3 (store 0 b 0 (omega arith) refl) in
    let r5 = next r4 (Threads.publish 0 b 0 (omega arith) refl) in
    let p =
      new _
        (record { reached = r5; numbers = refl; untouched = refl; at_rest = refl; waits = refl }) in
    let p0 = on p (enter a refl) in
    let p1 = on p0 (ask_free a _ refl (Threads.ask 0 (omega arith) refl, refl, refl) refl) in
    let p2 = on p1 (ask_free a _ refl (Threads.look 0 (omega arith) refl, refl, refl) refl) in
    let p3 =
      on p2 (ask_free a _ refl (Threads.see_full 0 0 (omega arith) refl refl, refl, refl) refl) in
    let p4 = on p3 (ask_free a _ refl (Threads.win 0 0 (omega arith) refl refl, refl, refl) refl) in
    let p5 =
      on p4 (take_free a _ 0 refl (Threads.take 0 0 0 (omega arith) refl refl, refl, refl) refl) in
    let p6 = on p5 (
      leave_free a _ 0 refl (taken_busy 0) (Threads.clear 0 0 (omega arith) refl, refl, refl)
        refl) in
    let p7 = on p6 (fill a 0 refl refl) in
    let p8 = on p7 (pass a _ 0 refl (Threads.call 0 0 (omega arith) refl, refl, refl) refl refl) in
    let p9 = on p8 (pass a _ 0 refl (Threads.load 0 0 (omega arith) refl, refl, refl) refl refl) in
    let p10 =
      on p9
        (pass a _ 0 refl (Threads.see_free 0 0 0 (omega arith) refl refl, refl, refl) refl refl) in
    let p11 =
      on p10
        (pass a _ 0 refl (Threads.claim 0 0 0 (omega arith) refl refl, refl, refl) refl refl) in
    let p12 =
      on p11 (pass a _ 0 refl (Threads.store 0 0 0 (omega arith) refl, refl, refl) refl refl) in
    let p13 =
      on p12
        (publish a _ 0 0 refl refl (Threads.publish 0 0 0 (omega arith) refl, refl, refl) refl) in
    let p14 = on p13 (start_get refl) in (_, p14, refl, refl)

five : (s : Pair ℕ) × PairReach (λ x. x) 0 1 s × (s.sent ≡ 5 ∷ []) × (s.received ≡ [])
five = one_sent (λ x. x) 0 5

pair_prefix_example : (rest : List ℕ) × (five.0.sent ≡ five.0.received ++ rest) × (length rest ≤ 1)
pair_prefix_example = pair_prefix (λ x. x) 1 (omega arith) (omega arith) 0 five.0 five.1

pair-Succeeds_example :
    ((v id : ℕ) → five.0.sender ≡ passing v id → Succeeds five.0.out_queue)
    × ((id : ℕ) → five.0.getter ≡ freeing id → Succeeds five.0.cont_queue)
pair-Succeeds_example = pair-Succeeds (λ x. x) 1 (omega arith) (omega arith) 0 five.0 five.1

abbrev fresh : ℕ
fresh = 0

queue-Filled_example :
    (q : Threads ℕ) × Filled {A = ℕ} (λ x. x) 2 q
    × (queue fresh 2
        ≡ built (record {
          capacity = 2;
          cont = (built_pair (λ x. x) fresh 2 q).cont;
          cont_queue = (built_pair (λ x. x) fresh 2 q).cont_queue.ring;
          out_queue = (built_pair (λ x. x) fresh 2 q).out_queue.ring;
        }))
queue-Filled_example = queue-Filled (λ x. x) 2 (omega arith) (omega arith) fresh
