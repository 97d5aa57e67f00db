-- ===== src/Lockfree/Queue/Holds.antt =====
-- The representation invariant of `lockfree::queue`: the used blocks hold the elements in order,
-- and each block number is in one of the two queues, once.
use vee.Common.{
  ℕ, ◌+◌, ◌≤◌, ◌<◌, ◌≡◌, refl, List, [], arith, length, max_cells, length-replicate, replicate,
}
use vee.Lockfree.AtQueue.{atqueue}
use vee.Lockfree.AtQueue.Holds.{atqueue-Holds}
use vee.Lockfree.AtQueue.Holds
use vee.Lockfree.Blocks.{built}
use vee.Lockfree.Blocks.Numbers.{count, from, length-from, count-from, Points}
use vee.Lockfree.Blocks.Fill.{Filled, fill_lem}
use vee.Lockfree.Queue.{Queue, queue}

pub record Parts {A : Type 0} (q : Queue A) (free used : List ℕ) (xs : List A) : Type 0 where
  pub cont_length : length q.cont ≡ q.capacity
  pub free_kept : Holds.Holds q.cont_queue free
  pub used_kept : Holds.Holds q.out_queue used
  pub free_capacity : q.cont_queue.capacity ≡ q.capacity
  pub used_capacity : q.out_queue.capacity ≡ q.capacity
  pub all_blocks : length free + length used ≡ q.capacity
  pub once : (a : ℕ) → count a free + count a used ≤ 1
  pub inside : (a : ℕ) → 0 < count a free + count a used → a < q.capacity
  pub points : Points q.cont used xs

pub record Represents {A : Type 0} (q : Queue A) (xs : List A) : Type 0 where
  pub free : List ℕ
  pub used : List ℕ
  pub parts : Parts q free used xs

pub record IsFresh {A : Type 0} (fresh : A) (n : ℕ) : Type 0 where
  pub object : Queue A
  pub returns : queue fresh n ≡ built object
  pub holds : Represents object []
  pub capacity_lem : object.capacity ≡ n

-- The constructor returns an object, and it is empty.
pub queue-IsFresh : {A : Type 0} (fresh : A) (n : ℕ) → 0 < n → n ≤ max_cells → IsFresh fresh n
unfolding queue atqueue
queue-IsFresh fresh n pos small = record {
  object = record {
    capacity = n;
    cont = replicate n fresh;
    cont_queue = f.after;
    out_queue = atqueue 0 n;
  };
  returns = ground (arith, f.returns);
  holds = record {
    free = from 0 n;
    used = [];
    parts = record {
      cont_length = length-replicate n fresh;
      free_kept = f.holds;
      used_kept = atqueue-Holds 0 n pos small;
      free_capacity = f.same_capacity;
      used_capacity = refl;
      all_blocks = omega (arith, length-from 0 n);
      once = λ a. omega (arith, count-from a 0 n);
      inside = λ a h. omega (arith, ((count-from a 0 n).1 (omega arith)).1);
      points = tt;
    };
  };
  capacity_lem = refl;
}
  where
    f : Filled (atqueue 0 n) [] n 0
    f = fill_lem n 0 (atqueue 0 n) [] (atqueue-Holds 0 n pos small) (omega arith)
