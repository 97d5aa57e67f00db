-- ===== src/Lockfree/Queue/Dequeue.antt =====
-- `lockfree::queue::dequeue`, run alone.
use vee.Common.{
  ℕ, suc, ◌≡◌, refl, ◌∙◌, true, false, none, some, List, [], ◌∷◌, ◌++◌, arith, length-append,
  length-set, set,
}
use vee.Lockfree.AtQueue.Fifo
use vee.Lockfree.AtQueue.Fifo.{Reply}
use vee.Lockfree.AtQueue.Dequeue.{Taken}
use vee.Lockfree.Blocks.{kept}
use vee.Lockfree.Blocks.Numbers.{count-append, Points-set}
use vee.Lockfree.Blocks.Fill.{PutBack, put_back_lem, take_number, no_number}
use vee.Lockfree.Queue.{Queue, dequeue}
use vee.Lockfree.Queue.Holds.{Parts, Represents}

module _ {A : Type 0} (left : A → A) where
  -- A call of `dequeue` that returns `r`, and leaves a queue of the same capacity with `ys`.
  pub record Released (fuel : ℕ) (q : Queue A) (ys : List A) (r : Reply A) : Type 0 where
    pub after : Queue A
    pub returns : dequeue left fuel q ≡ some (r.0, r.1, after)
    pub holds : Represents after ys
    pub same_capacity : after.capacity ≡ q.capacity

  dequeue_full :
      (fuel b : ℕ) (q : Queue A) (free used : List ℕ) (x : A) (xs : List A)
      → Parts q free (b ∷ used) (x ∷ xs)
      → Released (suc fuel) q xs (true, some x)
  unfolding dequeue
  dequeue_full fuel b q free used x xs v = record {
    after = record q { cont = set q.cont b (left x); cont_queue = p.after; out_queue = t.after };
    returns = ground (arith, t.returns, p.returns, v.points.0);
    holds = record {
      free = free ++ (b ∷ []);
      used = used;
      parts = record {
        cont_length = length-set q.cont b (left x) ∙ v.cont_length;
        free_kept = p.holds;
        used_kept = t.holds;
        free_capacity = p.same_capacity ∙ v.free_capacity;
        used_capacity = t.same_capacity ∙ v.used_capacity;
        all_blocks = omega (arith, v.all_blocks, length-append free (b ∷ []));
        once = λ a. omega (arith, v.once a, count-append a free (b ∷ []));
        inside = λ a h. v.inside a (omega (arith, count-append a free (b ∷ [])));
        points = Points-set q.cont used xs b (left x) (ground (arith, v.once b)) v.points.1;
      };
    };
    same_capacity = refl;
  }
    where
      t : Taken kept 1 q.out_queue used (true, some b)
      t = take_number q.out_queue b used v.used_kept

      p : PutBack (suc fuel) b q.cont_queue (free ++ (b ∷ []))
      p =
          put_back_lem fuel b q.cont_queue free v.free_kept
            (omega (arith, v.all_blocks, v.free_capacity))

  dequeue_empty :
      (fuel : ℕ) (q : Queue A) (free : List ℕ)
      → Parts q free [] []
      → Released fuel q [] (false, none)
  unfolding dequeue
  dequeue_empty fuel q free v = record {
    after = record q { out_queue = t.after };
    returns = ground (arith, t.returns);
    holds = record {
      free = free;
      used = [];
      parts = record {
        cont_length = v.cont_length;
        free_kept = v.free_kept;
        used_kept = t.holds;
        free_capacity = v.free_capacity;
        used_capacity = t.same_capacity ∙ v.used_capacity;
        all_blocks = v.all_blocks;
        once = v.once;
        inside = v.inside;
        points = tt;
      };
    };
    same_capacity = refl;
  }
    where
      t : Taken kept 1 q.out_queue [] (false, none)
      t = no_number q.out_queue v.used_kept

  dequeue-Parts :
      (fuel : ℕ) (q : Queue A) (free used : List ℕ) (xs : List A)
      → Parts q free used xs
      → let (done, out, ys) = Fifo.dequeue xs in Released (suc fuel) q ys (done, out)
  unfolding Fifo.dequeue
  dequeue-Parts fuel q free [] [] v = dequeue_empty (suc fuel) q free v
  dequeue-Parts fuel q free [] (x ∷ xs) v = absurd v.points
  dequeue-Parts fuel q free (b ∷ used) [] v = absurd v.points
  dequeue-Parts fuel q free (b ∷ used) (x ∷ xs) v = dequeue_full fuel b q free used x xs v

  -- Run alone on a queue that represents `xs`, `dequeue` hands out the oldest element and leaves
  -- the rest, or returns false and leaves the elements as they are.
  pub dequeue-Represents :
      (fuel : ℕ) (q : Queue A) (xs : List A)
      → Represents q xs
      → let (done, out, ys) = Fifo.dequeue xs in Released (suc fuel) q ys (done, out)
  dequeue-Represents fuel q xs v = dequeue-Parts fuel q v.free v.used xs v.parts
