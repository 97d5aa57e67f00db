-- ===== src/Queue.antt =====
-- vee/queue.h: the bounded queue in a ring of blocks, with its index lock and its block locks.
pub mod Bounded
pub mod Holds
pub mod Enqueue
pub mod Dequeue
pub mod Refine
use vee.Common.{
  ℕ, zero, suc, ◌+◌, ◌%◌, ◌^◌, ◌-◌, ◌*◌, Bool, true, false, Option, none, some, List, [], ◌∷◌, ◌==◌,
  if◌then◌else◌, add_size, sub_size, get_elem?, set, replicate,
}
use vee.Lock.{SpinLock, spin_lock, lock, unlock}
use vee.Queue.Bounded.{Op, put, get, Reply}

pub record Queue (A : Type 0) : Type 0 where
  pub capacity : ℕ
  pub overwrite_flag : Bool
  pub front : ℕ
  pub rear : ℕ
  pub size : ℕ
  pub blocks : List A
  pub blocklcks : List SpinLock
  pub idxlck : SpinLock

-- `++x %= capacity` on a `size_t`.
abbrev pub advance : ℕ → ℕ → ℕ
advance capacity x = add_size x 1 % capacity

module _ {A : Type 0} where
  -- The constructor. `new data_t[capacity]` fills the blocks with a default value.
  unfoldable pub queue : A → ℕ → Bool → Queue A
  queue fresh capacity overwrite_flag = record {
    capacity = capacity;
    overwrite_flag = overwrite_flag;
    front = 0;
    rear = 0;
    size = 0;
    blocks = replicate capacity fresh;
    blocklcks = replicate capacity spin_lock;
    idxlck = spin_lock;
  }

  -- The copying constructor takes the capacity and the flag of the other queue, and nothing else.
  unfoldable pub copy : A → Queue A → Queue A
  unfolding queue
  copy fresh other = queue fresh other.capacity other.overwrite_flag

  unfoldable pub is_empty : Queue A → Bool
  is_empty q = q.size == 0

  unfoldable pub is_full : Queue A → Bool
  is_full q = q.size == q.capacity

  -- The part of `enqueue` under the index lock: the block to write, or none if it is refused.
  unfoldable pub reserve_rear : Queue A → Option ℕ × Queue A
  unfolding is_full
  reserve_rear q =
      if is_full q
      then if q.overwrite_flag
        then (
          some q.rear,
          record q { rear = advance q.capacity q.rear; front = advance q.capacity q.front },
        )
        else (none, q)
      else (some q.rear, record q { rear = advance q.capacity q.rear; size = add_size q.size 1 })

  -- The rest of it, when the index lock is free again. The block's lock was adopted and not taken;
  -- it is released at the end.
  unfoldable pub store_block : A → Option ℕ × Queue A → Bool × Queue A
  unfolding unlock
  store_block val (none, q) = (false, q)
  store_block val (some rear, q) = (
    true,
    record q { blocks = set q.blocks rear val; blocklcks = set q.blocklcks rear spin_lock },
  )

  -- `none` where the call waits for the index lock.
  unfoldable pub enqueue : Queue A → A → Option (Bool × Queue A)
  unfolding reserve_rear store_block lock unlock
  enqueue q val = elim (lock 1 q.idxlck) [
    | none ↦ none
    | some held ↦
        let (block, q') = reserve_rear (record q { idxlck = held }) in
        some (store_block val (block, record q' { idxlck = unlock q'.idxlck }))
  ]

  -- The part of `dequeue` under the index lock. `--_size` runs only at `_size ≢ 0`.
  unfoldable pub reserve_front : Queue A → Option ℕ × Queue A
  reserve_front q =
      if q.size == 0
      then (none, q)
      else (some q.front, record q { size = sub_size q.size 1; front = advance q.capacity q.front })

  -- `left` is what an assignment from the block leaves in it: the old value where it is a copy.
  module _ (left : A → A) where
    -- `out = ...`: the value read, and the block after it.
    unfoldable pub take_block : Option ℕ × Queue A → Bool × Option A × Queue A
    take_block (none, q) = (false, none, q)
    take_block (some front, q) = elim (get_elem? q.blocks front) [
      | none ↦ (true, none, q)
      | some val ↦ (
        true,
        some val,
        record q {
          blocks = set q.blocks front (left val);
          blocklcks = set q.blocklcks front spin_lock;
        },
      )
    ]

    -- The option in the result is what is written to `out`.
    unfoldable pub dequeue : Queue A → Option (Bool × Option A × Queue A)
    unfolding reserve_front take_block lock unlock
    dequeue q = elim (lock 1 q.idxlck) [
      | none ↦ none
      | some held ↦
          let (block, q') = reserve_front (record q { idxlck = held }) in
          some (take_block (block, record q' { idxlck = unlock q'.idxlck }))
    ]

    -- A client's calls in order, with what each returns; none where one waits for ever.
    unfoldable pub run : Queue A → List (Op A) → Option (List (Reply A))
    unfolding enqueue dequeue
    run q [] = some []
    run q (put x ∷ ops) = elim (enqueue q x) [
      | none ↦ none
      | some (done, q') ↦ elim (run q' ops) [
        | none ↦ none
        | some replies ↦ some ((done, none) ∷ replies)
      ]
    ]
    run q (get ∷ ops) = elim (dequeue q) [
      | none ↦ none
      | some (done, out, q') ↦ elim (run q' ops) [
        | none ↦ none
        | some replies ↦ some ((done, out) ∷ replies)
      ]
    ]
