-- ===== src/Lockfree/Blocks/Fill.antt =====
-- How the constructors fill the queue of free blocks, and how a number is put back.
use vee.Common.{
  ℕ, zero, suc, ◌+◌, ◌≤◌, ◌<◌, ◌≡◌, refl, ◌∙◌, sym, subst, Bool, true, false, some, List, [], ◌∷◌,
  ◌++◌, none, arith, length, length-append, append-nil, append_assoc,
}
use vee.Lockfree.AtQueue.{AtQueue, enqueue}
use vee.Lockfree.AtQueue.Fifo
use vee.Lockfree.AtQueue.Holds.{Holds}
use vee.Lockfree.AtQueue.Enqueue.{Done, enqueue_fifo}
use vee.Lockfree.AtQueue.Dequeue.{Taken, dequeue_fifo}
use vee.Lockfree.Blocks.{built, fill, put_back, kept}
use vee.Lockfree.Blocks.Numbers.{from}

-- A call of `enqueue` on a queue with room.
pub enqueue_room :
    (q : AtQueue ℕ) (xs : List ℕ) (b : ℕ)
    → Holds q xs
    → length xs < q.capacity
    → Done q (xs ++ (b ∷ [])) (enqueue 2 b 0 q) true
enqueue_room q xs b v room =
    subst {A = Bool × List ℕ} (λ r. Done q r.1 (enqueue 2 b 0 q) r.0)
      (Fifo.enqueue-room q.capacity xs b room)
      (enqueue_fifo q xs b 2 0 v (omega arith) (omega arith))

pub record Filled (q : AtQueue ℕ) (xs : List ℕ) (n i : ℕ) : Type 0 where
  pub after : AtQueue ℕ
  pub returns : fill n i q ≡ built after
  pub holds : Holds after (xs ++ from i n)
  pub same_capacity : after.capacity ≡ q.capacity

pub fill_lem :
    (n i : ℕ) (q : AtQueue ℕ) (xs : List ℕ)
    → Holds q xs
    → length xs + n ≤ q.capacity
    → Filled q xs n i
unfolding fill
fill_lem zero i q xs v room = record {
  after = q;
  returns = refl;
  holds = subst (Holds q) (sym (append-nil xs)) v;
  same_capacity = refl;
}
fill_lem (suc n) i q xs v room =
    let d = enqueue_room q xs i v (omega arith) in
    let f =
      fill_lem n (i + 1) d.after (xs ++ (i ∷ [])) d.holds
        (omega (arith, d.same_capacity, length-append xs (i ∷ []))) in
    record {
      after = f.after;
      returns = ground (arith, d.returns, f.returns);
      holds = subst (Holds f.after) (append_assoc xs (i ∷ []) (from (i + 1) n)) f.holds;
      same_capacity = f.same_capacity ∙ d.same_capacity;
    }

pub record PutBack (fuel b : ℕ) (q : AtQueue ℕ) (ys : List ℕ) : Type 0 where
  pub after : AtQueue ℕ
  pub returns : put_back fuel b q ≡ some after
  pub holds : Holds after ys
  pub same_capacity : after.capacity ≡ q.capacity

pub put_back_lem :
    (fuel b : ℕ) (q : AtQueue ℕ) (xs : List ℕ)
    → Holds q xs
    → length xs < q.capacity
    → PutBack (suc fuel) b q (xs ++ (b ∷ []))
unfolding put_back
put_back_lem fuel b q xs v room =
    let d = enqueue_room q xs b v room in
    record {
      after = d.after;
      returns = ground (arith, d.returns);
      holds = d.holds;
      same_capacity = d.same_capacity;
    }

-- The number of a free block is taken from the queue of free blocks.
pub take_number :
    (q : AtQueue ℕ) (b : ℕ) (bs : List ℕ) → Holds q (b ∷ bs) → Taken kept 1 q bs (true, some b)
unfolding Fifo.dequeue
take_number q b bs v = dequeue_fifo kept 0 q (b ∷ bs) v

pub no_number : (q : AtQueue ℕ) → Holds q [] → Taken kept 1 q [] (false, none)
unfolding Fifo.dequeue
no_number q v = dequeue_fifo kept 0 q [] v
