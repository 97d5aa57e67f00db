-- ===== src/Lockfree/Pair/Loops.antt =====
-- The loops in which the two threads on a `lockfree::queue` pass a number on:
-- `while(!_out_queue.enqueue(block_id))` and `while (!_cont_queue.enqueue(block_id))`.
use vee.Common.{
  ℕ, zero, suc, ◌+◌, ◌≤◌, ◌<◌, ◌≡◌, ◌∙◌, sym, ap, subst, true, some, List, [], ◌∷◌, ◌++◌, length,
  length-append, length-drop, cell, arith, max_cells,
}
use vee.Lockfree.AtQueue.{is_null}
use vee.Lockfree.Blocks.{kept}
use vee.Lockfree.Threads.{
  PutPc, loaded, free, waiting, Threads, Step, call, load, see_free, retry, refuse, claim, lose,
  store, ask, look, see_full, see_empty, win, miss, take, clear, Reach,
}
use vee.Lockfree.Threads
use vee.Lockfree.Threads.Single.{lag, skip, Putting, IsOrdered}
use vee.Lockfree.Threads.Locals.{skip-le}
use vee.Lockfree.Threads.Prefix.{Reach-IsOrdered, Reach-capacity}
use vee.Lockfree.Pair.Order.{append_cancel}

-- A thread inside `enqueue` that has seen its cell finds it free, and its exchange does not fail.
pub record Succeeds (s : Threads ℕ) : Type 0 where
  pub finds_free : (v r : ℕ) → s.put 0 ≡ loaded v r → is_null s.ring.ptrs r ≡ some true
  pub exchanges : (v r : ℕ) → s.put 0 ≡ free v r → s.ring.rear ≡ r

module _ {n : ℕ} (pos : 0 < n) (small : n ≤ max_cells) where
  at_loaded :
      (s : Threads ℕ) (rest : List ℕ) (o : IsOrdered s.ring (s.put 0) (s.get 0) s.sent s.received)
      → s.ring.capacity ≡ n
      → s.sent ≡ s.received ++ rest
      → skip (s.get 0) + length rest < n
      → (v r : ℕ) → s.put 0 ≡ loaded v r
      → is_null s.ring.ptrs r ≡ some true
  at_loaded s rest o whole split room v r at =
      ap (is_null s.ring.ptrs) here
      ∙ ground (arith, o.holds.free (length o.ys) (omega arith) (omega (arith, whole, fewer)))
    where
      fewer : length o.ys < n
      fewer = omega (
        arith,
        ap length (append_cancel s.received (sym o.kept ∙ split)),
        length-drop (skip (s.get 0)) o.ys,
        skip-le s.ring.front o.base (length o.ys) (s.get 0) o.getting,
        room,
      )

      here : r ≡ cell s.ring.capacity o.base (length o.ys)
      here =
          subst (Putting s.ring.rear s.ring.capacity s.ring.cont o.base (length o.ys)) at o.putting
          ∙ o.rear_at
          ∙ ap (cell s.ring.capacity o.base) (omega (arith, ap lag at))

  pub room-Succeeds :
      (s : Threads ℕ) (rest : List ℕ)
      → Reach kept 1 1 0 n s
      → s.sent ≡ s.received ++ rest
      → skip (s.get 0) + length rest < n
      → Succeeds s
  room-Succeeds s rest reached split room =
      let o = Reach-IsOrdered kept pos small reached in
      record {
        finds_free = at_loaded s rest o (Reach-capacity kept reached) split room;
        exchanges = λ v r at.
            sym
              (subst (Putting s.ring.rear s.ring.capacity s.ring.cont o.base (length o.ys)) at
                o.putting).0;
      }

-- Only the read of a value leaves a cell that is read and not freed.
pub skip-Step :
    {s t : Threads ℕ}
    → Step kept 1 1 s t
    → t.received ≡ s.received
    → skip (t.get 0) ≤ skip (s.get 0)
skip-Step {s} (call i v lt at) same = omega arith
skip-Step {s} (load i v lt at) same = omega arith
skip-Step {s} (see_free i v r lt at null) same = omega arith
skip-Step {s} (retry i v r lt at null) same = omega arith
skip-Step {s} (refuse i v r lt at null) same = omega arith
skip-Step {s} (claim i v r lt at e) same = omega arith
skip-Step {s} (lose i v r lt at e) same = omega arith
skip-Step {s} (store i v r lt at) same = omega arith
skip-Step {s} (Threads.publish i v r lt at) same = omega arith
skip-Step (ask zero lt at) same = omega arith
skip-Step (ask (suc i) lt at) same = absurd (omega arith)
skip-Step (look zero lt at) same = omega arith
skip-Step (look (suc i) lt at) same = absurd (omega arith)
skip-Step (see_full zero f lt at shown) same = omega arith
skip-Step (see_full (suc i) f lt at shown) same = absurd (omega arith)
skip-Step (see_empty zero f lt at null) same = omega arith
skip-Step (see_empty (suc i) f lt at null) same = absurd (omega arith)
skip-Step (win zero f lt at e) same = omega arith
skip-Step (win (suc i) f lt at e) same = absurd (omega arith)
skip-Step (miss zero f lt at e) same = omega arith
skip-Step (miss (suc i) f lt at e) same = absurd (omega arith)
skip-Step {s} (take i f x lt at content) same =
    absurd (omega (arith, ap length same, length-append s.received (x ∷ [])))
skip-Step (clear zero f lt at) same = omega arith
skip-Step (clear (suc i) f lt at) same = absurd (omega arith)
