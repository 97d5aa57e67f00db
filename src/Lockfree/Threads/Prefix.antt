-- ===== src/Lockfree/Threads/Prefix.antt =====
-- One thread that calls `enqueue` of an `atqueue` and one that calls `dequeue`, in every order of
-- their steps.
use vee.Common.{
  ℕ, zero, suc, ◌≤◌, ◌<◌, ◌≡◌, ◌∙◌, refl, sym, ap, subst, List, [], ◌++◌, length, length-drop, cell,
  cell-zero, drop, arith, max_cells,
}
use vee.Lockfree.AtQueue.{AtQueue, atqueue}
use vee.Lockfree.AtQueue.Holds.{Holds, atqueue-Holds}
use vee.Lockfree.Threads.{
  PutPc, resting, calling, loaded, GetPc, waiting, asking, looked, Threads, Step, call, load,
  see_free, retry, refuse, claim, lose, store, publish, ask, look, see_full, see_empty, win, miss,
  take, clear, start, Reach, here, next,
}
use vee.Lockfree.Threads.Single.{skip, IsOrdered}
use vee.Lockfree.Threads.Order.{
  put-IsOrdered, see_free-IsOrdered, claim-IsOrdered, store-IsOrdered, publish-IsOrdered,
  get-IsOrdered, see_full-IsOrdered, win-IsOrdered, take-IsOrdered, clear-IsOrdered,
}

module _ {A : Type 0} (left : A → A) where
  abbrev pub IsOrderedRun : Threads A → Type 0
  IsOrderedRun s = IsOrdered s.ring (s.put 0) (s.get 0) s.sent s.received

  start-IsOrdered :
      (fresh : A) (capacity : ℕ)
      → 0 < capacity
      → capacity ≤ max_cells
      → IsOrderedRun (start left 1 1 fresh capacity)
  unfolding atqueue
  start-IsOrdered fresh capacity pos small = record {
    base = 0;
    ys = [];
    holds =
        subst (λ r. Holds (record (atqueue fresh capacity) { rear = r }) [])
          (sym (cell-zero capacity 0 pos)) (atqueue-Holds fresh capacity pos small);
    fits = omega arith;
    front_at = sym (cell-zero capacity 0 pos);
    rear_at = sym (cell-zero capacity 0 pos);
    kept = refl;
    putting = tt;
    getting = tt;
  }

  module _ {q : AtQueue A} {sent received : List A} where
    producing :
        {g : GetPc} {p p' : PutPc A}
        → p ≡ p'
        → IsOrdered q p g sent received
        → IsOrdered q p' g sent received
    producing {g} at o = subst (λ p. IsOrdered q p g sent received) at o

    consuming :
        {p : PutPc A} {g g' : GetPc}
        → g ≡ g'
        → IsOrdered q p g sent received
        → IsOrdered q p g' sent received
    consuming {p} at o = subst (λ g. IsOrdered q p g sent received) at o

  Step-IsOrdered : {s t : Threads A} → Step left 1 1 s t → IsOrderedRun s → IsOrderedRun t
  Step-IsOrdered (call zero v lt at) o = put-IsOrdered (calling v) (producing at o) refl tt
  Step-IsOrdered (call (suc i) v lt at) o = absurd (omega arith)
  Step-IsOrdered (load zero v lt at) o = put-IsOrdered (loaded v _) (producing at o) refl refl
  Step-IsOrdered (load (suc i) v lt at) o = absurd (omega arith)
  Step-IsOrdered (see_free zero v r lt at null) o = see_free-IsOrdered (producing at o) null
  Step-IsOrdered (see_free (suc i) v r lt at null) o = absurd (omega arith)
  Step-IsOrdered (retry zero v r lt at null) o = put-IsOrdered (calling v) (producing at o) refl tt
  Step-IsOrdered (retry (suc i) v r lt at null) o = absurd (omega arith)
  Step-IsOrdered (refuse zero v r lt at null) o = put-IsOrdered resting (producing at o) refl tt
  Step-IsOrdered (refuse (suc i) v r lt at null) o = absurd (omega arith)
  Step-IsOrdered (claim zero v r lt at e) o = claim-IsOrdered (producing at o)
  Step-IsOrdered (claim (suc i) v r lt at e) o = absurd (omega arith)
  Step-IsOrdered (lose zero v r lt at e) o = put-IsOrdered (calling v) (producing at o) refl tt
  Step-IsOrdered (lose (suc i) v r lt at e) o = absurd (omega arith)
  Step-IsOrdered (store zero v r lt at) o = store-IsOrdered (producing at o)
  Step-IsOrdered (store (suc i) v r lt at) o = absurd (omega arith)
  Step-IsOrdered (publish zero v r lt at) o = publish-IsOrdered (producing at o)
  Step-IsOrdered (publish (suc i) v r lt at) o = absurd (omega arith)
  Step-IsOrdered (ask zero lt at) o = get-IsOrdered asking (consuming at o) refl refl tt
  Step-IsOrdered (ask (suc i) lt at) o = absurd (omega arith)
  Step-IsOrdered (look zero lt at) o = get-IsOrdered (looked _) (consuming at o) refl refl refl
  Step-IsOrdered (look (suc i) lt at) o = absurd (omega arith)
  Step-IsOrdered (see_full zero f lt at shown) o = see_full-IsOrdered (consuming at o) shown
  Step-IsOrdered (see_full (suc i) f lt at shown) o = absurd (omega arith)
  Step-IsOrdered (see_empty zero f lt at null) o =
      get-IsOrdered waiting (consuming at o) refl refl tt
  Step-IsOrdered (see_empty (suc i) f lt at null) o = absurd (omega arith)
  Step-IsOrdered (win zero f lt at e) o = win-IsOrdered (consuming at o)
  Step-IsOrdered (win (suc i) f lt at e) o = absurd (omega arith)
  Step-IsOrdered (miss zero f lt at e) o = get-IsOrdered asking (consuming at o) refl refl tt
  Step-IsOrdered (miss (suc i) f lt at e) o = absurd (omega arith)
  Step-IsOrdered (take zero f x lt at content) o =
      take-IsOrdered x (left x) (consuming at o) content
  Step-IsOrdered (take (suc i) f x lt at content) o = absurd (omega arith)
  Step-IsOrdered (clear zero f lt at) o = clear-IsOrdered (consuming at o)
  Step-IsOrdered (clear (suc i) f lt at) o = absurd (omega arith)

  pub Reach-IsOrdered :
      {fresh : A} {capacity : ℕ} {s : Threads A}
      → 0 < capacity
      → capacity ≤ max_cells
      → Reach left 1 1 fresh capacity s
      → IsOrderedRun s
  Reach-IsOrdered {fresh} {capacity} pos small here = start-IsOrdered fresh capacity pos small
  Reach-IsOrdered pos small (next r st) = Step-IsOrdered st (Reach-IsOrdered pos small r)

  Step-capacity : {s t : Threads A} → Step left 1 1 s t → t.ring.capacity ≡ s.ring.capacity
  Step-capacity (call i v lt at) = refl
  Step-capacity (load i v lt at) = refl
  Step-capacity (see_free i v r lt at null) = refl
  Step-capacity (retry i v r lt at null) = refl
  Step-capacity (refuse i v r lt at null) = refl
  Step-capacity (claim i v r lt at e) = refl
  Step-capacity (lose i v r lt at e) = refl
  Step-capacity (store i v r lt at) = refl
  Step-capacity (publish i v r lt at) = refl
  Step-capacity (ask i lt at) = refl
  Step-capacity (look i lt at) = refl
  Step-capacity (see_full i f lt at shown) = refl
  Step-capacity (see_empty i f lt at null) = refl
  Step-capacity (win i f lt at e) = refl
  Step-capacity (miss i f lt at e) = refl
  Step-capacity (take i f x lt at content) = refl
  Step-capacity (clear i f lt at) = refl

  pub Reach-capacity :
      {fresh : A} {capacity : ℕ} {s : Threads A}
      → Reach left 1 1 fresh capacity s
      → s.ring.capacity ≡ capacity
  unfolding atqueue
  Reach-capacity here = refl
  Reach-capacity (next r st) = Step-capacity st ∙ Reach-capacity r

  -- Of the states that one thread with `enqueue` and one with `dequeue` reach, in any order of
  -- their atomic steps, on an `atqueue` whose capacity is positive and at most `max_cells`: the
  -- values sent are the values received, in the same order, and after them at most `capacity`
  -- others.
  pub received_prefix :
      (fresh : A) (capacity : ℕ) (s : Threads A)
      → 0 < capacity
      → capacity ≤ max_cells
      → Reach left 1 1 fresh capacity s
      → (rest : List A) × (s.sent ≡ s.received ++ rest) × (length rest ≤ capacity)
  received_prefix fresh capacity s pos small r =
      let o = Reach-IsOrdered pos small r in
      (
        drop (skip (s.get 0)) o.ys,
        o.kept,
        omega (arith, length-drop (skip (s.get 0)) o.ys, o.fits, Reach-capacity r),
      )

  -- Between calls: in every state that one thread with `enqueue` and one with `dequeue` reach on a
  -- new queue of 1 to 2 ^ 63 cells, and in which neither is in a call, the ring holds exactly the
  -- values sent and not received, in their order.
  pub rest-Holds :
      (fresh : A) (capacity : ℕ) (s : Threads A)
      → 0 < capacity
      → capacity ≤ max_cells
      → Reach left 1 1 fresh capacity s
      → s.put 0 ≡ resting
      → s.get 0 ≡ waiting
      → (rest : List A) × (s.sent ≡ s.received ++ rest) × Holds s.ring rest
  rest-Holds fresh capacity s pos small r at_rest waits =
      let o = consuming waits (producing at_rest (Reach-IsOrdered pos small r)) in
      (o.ys, o.kept, resting_ring o)
    where
      resting_ring : (o : IsOrdered s.ring resting waiting s.sent s.received) → Holds s.ring o.ys
      resting_ring o =
          subst (λ f. Holds (record s.ring { front = f }) o.ys)
            (sym (o.front_at ∙ cell-zero s.ring.capacity o.base o.holds.front_in))
            (subst (λ r. Holds (record s.ring { front = o.base; rear = r }) o.ys)
              (sym (o.rear_at ∙ ap (cell s.ring.capacity o.base) (omega arith))) o.holds)
