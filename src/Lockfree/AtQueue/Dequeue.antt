-- ===== src/Lockfree/AtQueue/Dequeue.antt =====
-- `atqueue::dequeue`, run alone on a ring that holds a list.
use vee.Common.{
  ℕ, suc, ◌+◌, ◌≤◌, ◌<◌, ◌≡◌, refl, ◌∙◌, sym, ap, subst, true, none, some, List, [], ◌∷◌, arith,
  length, get_elem?, set, cell, cell-lt, cell-ne, cell-full, cell-zero, cell-next, length-set,
  get_elem?-set_self, get_elem?-set_ne, ℕ_discrete, stored-drop,
}
use vee.Lockfree.AtQueue.{AtQueue, next_index, dequeue}
use vee.Lockfree.AtQueue.Fifo
use vee.Lockfree.AtQueue.Fifo.{Reply}
use vee.Lockfree.AtQueue.Holds.{Holds, next_index-lt}

module _ {A : Type 0} (left : A → A) where
  -- A call of `dequeue` that returns `r`, and leaves a queue of the same capacity with `ys`.
  pub record Taken (fuel : ℕ) (q : AtQueue A) (ys : List A) (r : Reply A) : Type 0 where
    pub after : AtQueue A
    pub returns : dequeue left fuel q ≡ some (r.0, r.1, after)
    pub holds : Holds after ys
    pub same_capacity : after.capacity ≡ q.capacity

  module _ (q : AtQueue A) (x : A) (xs : List A) (v : Holds q (x ∷ xs)) where
    abbrev pub taken_after : AtQueue A
    taken_after = record q {
      front = next_index q.capacity q.front;
      cont = set q.cont q.front (left x);
      ptrs = set q.ptrs q.front none;
    }

    front-next : next_index q.capacity q.front ≡ cell q.capacity q.front 1
    front-next = next_index-lt q.capacity q.front v.front_in v.small

    front-shown : get_elem? q.ptrs q.front ≡ some (some q.front)
    front-shown =
        subst (λ h. get_elem? q.ptrs h ≡ some (some h)) (cell-zero q.capacity q.front v.front_in)
          (v.shown 0 (omega arith))

    front-stored : get_elem? q.cont q.front ≡ some x
    front-stored =
        ap (get_elem? q.cont) (sym (cell-zero q.capacity q.front v.front_in))
        ∙ v.stored 0 (omega arith)

    -- The cells of the new round that are not the one before its start keep their pointers.
    ptr-kept :
        (k : ℕ)
        → k + 1 < q.capacity
        → get_elem? (set q.ptrs q.front none) (cell q.capacity (cell q.capacity q.front 1) k)
          ≡ get_elem? q.ptrs (cell q.capacity q.front (k + 1))
    ptr-kept k lt =
        ap (get_elem? (set q.ptrs q.front none)) (cell-next q.capacity q.front k)
        ∙ get_elem?-set_ne q.ptrs q.front (cell q.capacity q.front (k + 1)) none (λ e.
          cell-ne q.capacity q.front 0 (k + 1) v.front_in v.pos lt (omega arith)
            (cell-zero q.capacity q.front v.front_in ∙ e))

    shown_after :
        (k : ℕ)
        → k < length xs
        → get_elem? (set q.ptrs q.front none) (cell q.capacity (cell q.capacity q.front 1) k)
          ≡ some (some (cell q.capacity (cell q.capacity q.front 1) k))
    shown_after k lt =
        ptr-kept k (omega (arith, v.fits))
        ∙ v.shown (k + 1) (omega arith)
        ∙ ap (λ (c : ℕ). some (some c)) (sym (cell-next q.capacity q.front k))

    free_after :
        (k : ℕ)
        → length xs ≤ k
        → k < q.capacity
        → get_elem? (set q.ptrs q.front none) (cell q.capacity (cell q.capacity q.front 1) k)
          ≡ some none
    free_after k le lt = elim (ℕ_discrete (k + 1) q.capacity) [
      | yes e ↦
          ap (get_elem? (set q.ptrs q.front none)) (
            cell-next q.capacity q.front k
            ∙ ap (cell q.capacity q.front) e
            ∙ cell-full q.capacity q.front v.front_in)
          ∙ get_elem?-set_self q.ptrs q.front none (omega (arith, v.ptrs_length, v.front_in))
      | no ne ↦ ptr-kept k (omega arith) ∙ v.free (k + 1) (omega arith) (omega arith)
    ]

    pub taken_after-Holds : Holds taken_after xs
    taken_after-Holds = record {
      pos = v.pos;
      small = v.small;
      cont_length = length-set q.cont q.front (left x) ∙ v.cont_length;
      ptrs_length = length-set q.ptrs q.front none ∙ v.ptrs_length;
      front_in = omega (arith, front-next, cell-lt q.capacity q.front 1 v.pos);
      fits = omega (arith, v.fits);
      rear_at =
          v.rear_at
          ∙ ap (cell q.capacity q.front) (omega arith)
          ∙ sym (cell-next q.capacity q.front (length xs))
          ∙ ap (λ h. cell q.capacity h (length xs)) (sym front-next);
      stored = λ k lt.
          subst
            (λ h. get_elem? (set q.cont q.front (left x)) (cell q.capacity h k) ≡ get_elem? xs k)
            (sym front-next)
            (stored-drop q.cont q.capacity q.front x xs v.stored (left x) v.front_in v.fits k lt);
      shown = λ k lt.
          subst
            (λ h.
              get_elem? (set q.ptrs q.front none) (cell q.capacity h k)
              ≡ some (some (cell q.capacity h k)))
            (sym front-next) (shown_after k lt);
      free = λ k le lt.
          subst (λ h. get_elem? (set q.ptrs q.front none) (cell q.capacity h k) ≡ some none)
            (sym front-next) (free_after k le lt);
    }

    dequeue_takes : (fuel : ℕ) → Taken (suc fuel) q xs (true, some x)
    unfolding dequeue
    dequeue_takes fuel = record {
      after = taken_after;
      returns = ground (arith, front-shown, front-stored);
      holds = taken_after-Holds;
      same_capacity = refl;
    }

  -- Run alone on a queue that holds `xs`, `dequeue` returns in its first round: it hands out the
  -- oldest element and leaves the rest, or returns false and leaves the queue as it is.
  pub dequeue_fifo :
      (fuel : ℕ) (q : AtQueue A) (xs : List A)
      → Holds q xs
      → let (done, out, ys) = Fifo.dequeue xs in Taken (suc fuel) q ys (done, out)
  unfolding Fifo.dequeue dequeue
  dequeue_fifo fuel q [] v = record {
    after = q;
    returns = ground (arith, null);
    holds = v;
    same_capacity = refl;
  }
    where
      null : get_elem? q.ptrs q.front ≡ some none
      null =
          ap (get_elem? q.ptrs) (sym (cell-zero q.capacity q.front v.front_in))
          ∙ v.free 0 (omega arith) v.pos
  dequeue_fifo fuel q (x ∷ xs) v = dequeue_takes q x xs v fuel
