-- ===== src/Lockfree/Queue/Enqueue.antt =====
-- `lockfree::queue::enqueue`, run alone.
use vee.Common.{
  ℕ, zero, suc, ◌+◌, ◌≤◌, ◌<◌, ◌≡◌, refl, ◌∙◌, sym, subst, Bool, true, false, Option, some, List,
  [], ◌∷◌, ◌++◌, ◌^◌, arith, length, length-append, length-set, set, get_elem?-set_self, add_size,
  dec_lt,
}
use vee.Lockfree.AtQueue.Fifo
use vee.Lockfree.AtQueue.Dequeue.{Taken}
use vee.Lockfree.Blocks.{kept}
use vee.Lockfree.Blocks.Numbers.{count-append, length-Points, Points-set, Points-append}
use vee.Lockfree.Blocks.Fill.{PutBack, put_back_lem, take_number, no_number}
use vee.Lockfree.Queue.{Queue, enqueue_loop, enqueue}
use vee.Lockfree.Queue.Holds.{Parts, Represents}

module _ {A : Type 0} where
  -- A call that returns `r` and leaves a queue of the same capacity with the elements `ys`.
  pub record Done {R : Type 0} (q : Queue A) (ys : List A) (call : Option (R × Queue A)) (r : R)
      : Type 0 where
    pub after : Queue A
    pub returns : call ≡ some (r, after)
    pub holds : Represents after ys
    pub same_capacity : after.capacity ≡ q.capacity

  module _ (q : Queue A) (val : A) (b : ℕ) (free used : List ℕ) (xs : List A)
      (v : Parts q (b ∷ free) used xs) where
    t : Taken kept 1 q.cont_queue free (true, some b)
    t = take_number q.cont_queue b free v.free_kept

    p : (fuel : ℕ) → PutBack (suc fuel) b q.out_queue (used ++ (b ∷ []))
    p fuel =
        put_back_lem fuel b q.out_queue used v.used_kept
          (omega (arith, v.all_blocks, v.used_capacity))

    in_cont : b < length q.cont
    in_cont = ground (arith, v.inside b, v.cont_length)

    enqueue_loop-room :
        (fuel retries : ℕ)
        → Done q (xs ++ (val ∷ [])) (enqueue_loop (suc fuel) val retries 0 q) true
    unfolding enqueue_loop
    enqueue_loop-room fuel retries = record {
      after = record q {
        cont = set q.cont b val;
        cont_queue = t.after;
        out_queue = (p fuel).after;
      };
      returns = ground (arith, t.returns, (p fuel).returns);
      holds = record {
        free = free;
        used = used ++ (b ∷ []);
        parts = record {
          cont_length = length-set q.cont b val ∙ v.cont_length;
          free_kept = t.holds;
          used_kept = (p fuel).holds;
          free_capacity = t.same_capacity ∙ v.free_capacity;
          used_capacity = (p fuel).same_capacity ∙ v.used_capacity;
          all_blocks = omega (arith, v.all_blocks, length-append used (b ∷ []));
          once = λ a. omega (arith, v.once a, count-append a used (b ∷ []));
          inside = λ a h. v.inside a (omega (arith, count-append a used (b ∷ [])));
          points =
              Points-append (set q.cont b val) used xs b val
                (get_elem?-set_self q.cont b val in_cont)
                (Points-set q.cont used xs b val (ground (arith, v.once b)) v.points);
        };
      };
      same_capacity = refl;
    }

  -- With no free block, `retries + 1` rounds find none.
  enqueue_loop-full :
      (fuel retries counter : ℕ) (q : Queue A) (val : A) (used : List ℕ) (xs : List A)
      → Parts q [] used xs
      → retries < 2 ^ 63
      → counter ≤ retries + 1
      → retries + 1 < fuel + counter
      → Done q xs (enqueue_loop fuel val retries counter q) false
  unfolding enqueue_loop
  enqueue_loop-full zero retries counter q val used xs v small le enough = absurd (omega arith)
  enqueue_loop-full (suc fuel) retries counter q val used xs v small le enough =
      elim (dec_lt retries counter) [
        | yes over ↦ record {
          after = q;
          returns = ground arith;
          holds = record { free = []; used = used; parts = v };
          same_capacity = refl;
        }
        | no more ↦
            let t = no_number q.cont_queue v.free_kept in
            let ih =
              enqueue_loop-full fuel retries (add_size counter 1)
                (record q { cont_queue = t.after }) val used xs
                (record {
                  cont_length = v.cont_length;
                  free_kept = t.holds;
                  used_kept = v.used_kept;
                  free_capacity = t.same_capacity ∙ v.free_capacity;
                  used_capacity = v.used_capacity;
                  all_blocks = v.all_blocks;
                  once = v.once;
                  inside = v.inside;
                  points = v.points;
                })
                small (omega arith) (omega arith) in
            record {
              after = ih.after;
              returns = ground (arith, t.returns, ih.returns);
              holds = ih.holds;
              same_capacity = ih.same_capacity;
            }
      ]

  enqueue-Parts :
      (q : Queue A) (val : A) (free used : List ℕ) (xs : List A) (fuel retries : ℕ)
      → Parts q free used xs
      → retries < 2 ^ 63
      → retries + 1 < fuel
      → let (done, ys) = Fifo.enqueue q.capacity xs val in
        Done q ys (enqueue_loop fuel val retries 0 q) done
  enqueue-Parts q val free used xs zero retries v small enough = absurd (omega arith)
  enqueue-Parts q val [] used xs (suc fuel) retries v small enough =
      subst {A = Bool × List A} (λ r. Done q r.1 (enqueue_loop (suc fuel) val retries 0 q) r.0)
        (sym (
          Fifo.enqueue-full q.capacity xs val
            (omega (arith, v.all_blocks, length-Points q.cont used xs v.points))))
        (enqueue_loop-full (suc fuel) retries 0 q val used xs v small (omega arith) (omega arith))
  enqueue-Parts q val (b ∷ free) used xs (suc fuel) retries v small enough =
      subst {A = Bool × List A} (λ r. Done q r.1 (enqueue_loop (suc fuel) val retries 0 q) r.0)
        (sym (
          Fifo.enqueue-room q.capacity xs val
            (omega (arith, v.all_blocks, length-Points q.cont used xs v.points))))
        (enqueue_loop-room q val b free used xs v fuel retries)

  -- A call of `enqueue` that overlaps no other, on a queue that represents `xs`, and with any number
  -- of retries below 2 ^ 63, returns within `retries + 2` rounds: it appends the element if there is
  -- room, and otherwise returns false and leaves the elements as they are; the queue keeps its
  -- capacity.
  pub enqueue-Represents :
      (q : Queue A) (xs : List A) (val : A) (fuel retries : ℕ)
      → Represents q xs
      → retries < 2 ^ 63
      → retries + 1 < fuel
      → let (done, ys) = Fifo.enqueue q.capacity xs val in
        Done q ys (enqueue fuel val retries q) done
  unfolding enqueue
  enqueue-Represents q xs val fuel retries v small enough =
      enqueue-Parts q val v.free v.used xs fuel retries v.parts small enough
