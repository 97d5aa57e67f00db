-- ===== src/Queue/Dequeue.antt =====
-- `dequeue` of vee/queue.h on a ring that holds a list.
use vee.Common.{
  ◌≡◌, refl, ◌∙◌, sym, ap, subst, true, some, List, [], ◌∷◌, arith, length, get_elem?, set, cell,
  cell-zero, cell-next, cell-lt, length-set, sub_size,
}
use vee.Lock.{spin_lock}
use vee.Queue.{Queue, advance, dequeue}
use vee.Queue.Bounded
use vee.Queue.Bounded.{Op, put, get, Reply}
use vee.Queue.Holds.{Holds, advance-lt}
use vee.Common.{stored-drop}
use vee.Queue.Enqueue.{unlocked-Holds}

module _ {A : Type 0} where
  module _ (left : A → A) where
    -- A call of `dequeue` that returns `r`, and leaves a queue of the same kind that holds `ys`.
    pub record Taken (q : Queue A) (ys : List A) (r : Reply A) : Type 0 where
      pub after : Queue A
      pub returns : dequeue left q ≡ some (r.0, r.1, after)
      pub holds : Holds after ys
      pub same_capacity : after.capacity ≡ q.capacity
      pub same_flag : after.overwrite_flag ≡ q.overwrite_flag

    dequeue_takes :
        (q : Queue A) (x : A) (xs : List A) → Holds q (x ∷ xs) → Taken q xs (true, some x)
    unfolding dequeue
    dequeue_takes q x xs v = record {
      after = after;
      returns = ground (arith, v.open_idx, v.sized, head);
      holds = record {
        pos = v.pos;
        small = v.small;
        blocks_length = length-set q.blocks q.front (left x) ∙ v.blocks_length;
        locks_length = length-set q.blocklcks q.front spin_lock ∙ v.locks_length;
        front_in = omega (arith, front-next, cell-lt q.capacity q.front 1 v.pos);
        fits = omega (arith, v.fits);
        sized = omega (arith, v.sized, v.fits, v.small);
        rear_at =
            v.rear_at
            ∙ ap (cell q.capacity q.front) (omega arith)
            ∙ sym (cell-next q.capacity q.front (length xs))
            ∙ ap (λ h. cell q.capacity h (length xs)) (sym front-next);
        stored = λ k lt.
            subst
              (λ h.
                get_elem? (set q.blocks q.front (left x)) (cell q.capacity h k) ≡ get_elem? xs k)
              (sym front-next)
              (stored-drop q.blocks q.capacity q.front x xs v.stored (left x) v.front_in v.fits k
                lt);
        open_idx = refl;
      };
      same_capacity = refl;
      same_flag = refl;
    }
      where
        front-next : advance q.capacity q.front ≡ cell q.capacity q.front 1
        front-next = advance-lt q.capacity q.front v.front_in v.small

        head : get_elem? q.blocks q.front ≡ some x
        head =
            ap (get_elem? q.blocks) (sym (cell-zero q.capacity q.front v.front_in))
            ∙ v.stored 0 (omega arith)

        after : Queue A
        after = record q {
          blocks = set q.blocks q.front (left x);
          blocklcks = set q.blocklcks q.front spin_lock;
          idxlck = spin_lock;
          size = sub_size q.size 1;
          front = advance q.capacity q.front;
        }

    -- On a queue that holds `xs`, `dequeue` hands out the oldest element and leaves the rest; if
    -- there is none it reports so, and changes neither the elements nor the output argument.
    pub dequeue_refines :
        (q : Queue A) (xs : List A)
        → Holds q xs
        → let (done, out, ys) = Bounded.dequeue xs in Taken q ys (done, out)
    unfolding Bounded.dequeue dequeue
    dequeue_refines q [] v = record {
      after = record q { idxlck = spin_lock };
      returns = ground (arith, v.open_idx, v.sized);
      holds = unlocked-Holds q [] v;
      same_capacity = refl;
      same_flag = refl;
    }
    dequeue_refines q (x ∷ xs) v = dequeue_takes q x xs v
