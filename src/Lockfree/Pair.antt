-- ===== src/Lockfree/Pair.antt =====
-- `lockfree::queue` of vee/lockfree/queue.h, shared by one thread that calls `enqueue` and one that
-- calls `dequeue`: the atomic steps of their calls of the two `atqueue`s, and what the threads do
-- between these, in any order.
pub mod Paired
pub mod Blocks
pub mod Order
pub mod Waits
pub mod Built
pub mod Loops
pub mod Success
use vee.Common.{ℕ, zero, suc, ◌≡◌, ◌≢◌, some, List, [], ◌∷◌, ◌++◌, get_elem?, set, replicate}
use vee.Lockfree.Blocks.{kept}
use vee.Lockfree.Blocks.Numbers.{from}
use vee.Lockfree.Threads.{
  PutPc, resting, calling, loaded, free, claimed, stored, GetPc, waiting, Threads, Step, Reach,
  start,
}

-- Where the first thread stands in `enqueue`, with the element and its `block_id`.
pub data Sending (A : Type 0) : Type 0 where
  outside : Sending A  -- in no call
  asking : A → Sending A  -- in `_cont_queue.dequeue`
  holding : A → ℕ → Sending A  -- behind the read of the number, before the store of the element
  passing : A → ℕ → Sending A  -- in the loop of `_out_queue.enqueue`

-- Where the second stands in `dequeue`.
pub data Getting : Type 0 where
  out_of_call : Getting
  seeking : Getting  -- in `_out_queue.dequeue`
  reading : ℕ → Getting  -- behind the read of the number, before the read of the element
  freeing : ℕ → Getting  -- in the loop of `_cont_queue.enqueue`

-- The queue's blocks, its two `atqueue`s with the steps of the threads in them, and the threads.
-- `sent` are the elements whose number was stored in `_out_queue`, and `received` those that were
-- read into `out`, in the order of these steps.
pub record Pair (A : Type 0) : Type 0 where
  pub cont : List A
  pub cont_queue : Threads ℕ
  pub out_queue : Threads ℕ
  pub sender : Sending A
  pub getter : Getting
  pub sent : List A
  pub received : List A

-- A step of a call of `dequeue` on one of the rings, and of a call of `enqueue`.
abbrev pub Gets : Threads ℕ → Threads ℕ → Type 0
Gets s t = Step kept 1 1 s t × (t.put ≡ s.put) × (t.sent ≡ s.sent)

abbrev pub Puts : Threads ℕ → Threads ℕ → Type 0
Puts s t = Step kept 1 1 s t × (t.get ≡ s.get) × (t.received ≡ s.received)

-- The argument of a call of `enqueue` on one of the rings.
abbrev pub Passes : ℕ → PutPc ℕ → Type 0
Passes id resting = Unit
Passes id (calling v) = v ≡ id
Passes id (loaded v r) = v ≡ id
Passes id (free v r) = v ≡ id
Passes id (claimed v r) = v ≡ id
Passes id (stored v r) = v ≡ id

-- `left` is what an assignment from a block leaves in it.
module _ {A : Type 0} (left : A → A) where
  pub data PairStep (s : Pair A) : Pair A → Type 0 where
    -- `enqueue`.
    enter : (v : A) → s.sender ≡ outside → PairStep s (record s { sender = asking v })
    ask_free :
        (v : A) (t : Threads ℕ)
        → s.sender ≡ asking v
        → Gets s.cont_queue t
        → t.received ≡ s.cont_queue.received
        → PairStep s (record s { cont_queue = t })
    give_up :
        (v : A) (t : Threads ℕ)
        → s.sender ≡ asking v
        → Gets s.cont_queue t
        → t.received ≡ s.cont_queue.received
        → t.get 0 ≡ waiting
        → PairStep s (record s { cont_queue = t; sender = outside })
    take_free :
        (v : A) (t : Threads ℕ) (id : ℕ)
        → s.sender ≡ asking v
        → Gets s.cont_queue t
        → t.received ≡ s.cont_queue.received ++ (id ∷ [])
        → PairStep s (record s { cont_queue = t; sender = holding v id })
    leave_free :
        (v : A) (t : Threads ℕ) (id : ℕ)
        → s.sender ≡ holding v id
        → s.cont_queue.get 0 ≢ waiting
        → Gets s.cont_queue t
        → t.received ≡ s.cont_queue.received
        → PairStep s (record s { cont_queue = t })
    fill :
        (v : A) (id : ℕ)
        → s.sender ≡ holding v id
        → s.cont_queue.get 0 ≡ waiting
        → PairStep s (record s { cont = set s.cont id v; sender = passing v id })
    pass :
        (v : A) (t : Threads ℕ) (id : ℕ)
        → s.sender ≡ passing v id
        → Puts s.out_queue t
        → Passes id (t.put 0)
        → t.sent ≡ s.out_queue.sent
        → PairStep s (record s { out_queue = t })
    publish :
        (v : A) (t : Threads ℕ) (id rear : ℕ)
        → s.sender ≡ passing v id
        → s.out_queue.put 0 ≡ stored id rear
        → Puts s.out_queue t
        → t.sent ≡ s.out_queue.sent ++ (id ∷ [])
        → PairStep s (record s { out_queue = t; sender = outside; sent = s.sent ++ (v ∷ []) })
    -- `dequeue`.
    start_get : s.getter ≡ out_of_call → PairStep s (record s { getter = seeking })
    ask_used :
        (t : Threads ℕ)
        → s.getter ≡ seeking
        → Gets s.out_queue t
        → t.received ≡ s.out_queue.received
        → PairStep s (record s { out_queue = t })
    find_none :
        (t : Threads ℕ)
        → s.getter ≡ seeking
        → Gets s.out_queue t
        → t.received ≡ s.out_queue.received
        → t.get 0 ≡ waiting
        → PairStep s (record s { out_queue = t; getter = out_of_call })
    take_used :
        (t : Threads ℕ) (id : ℕ)
        → s.getter ≡ seeking
        → Gets s.out_queue t
        → t.received ≡ s.out_queue.received ++ (id ∷ [])
        → PairStep s (record s { out_queue = t; getter = reading id })
    leave_used :
        (t : Threads ℕ) (id : ℕ)
        → s.getter ≡ reading id
        → s.out_queue.get 0 ≢ waiting
        → Gets s.out_queue t
        → t.received ≡ s.out_queue.received
        → PairStep s (record s { out_queue = t })
    read :
        (id : ℕ) (x : A)
        → s.getter ≡ reading id
        → s.out_queue.get 0 ≡ waiting
        → get_elem? s.cont id ≡ some x
        → PairStep s (record s {
          cont = set s.cont id (left x);
          getter = freeing id;
          received = s.received ++ (x ∷ []);
        })
    give_back :
        (t : Threads ℕ) (id : ℕ)
        → s.getter ≡ freeing id
        → Puts s.cont_queue t
        → Passes id (t.put 0)
        → t.sent ≡ s.cont_queue.sent
        → PairStep s (record s { cont_queue = t })
    free_block :
        (t : Threads ℕ) (id rear : ℕ)
        → s.getter ≡ freeing id
        → s.cont_queue.put 0 ≡ stored id rear
        → Puts s.cont_queue t
        → t.sent ≡ s.cont_queue.sent ++ (id ∷ [])
        → PairStep s (record s { cont_queue = t; getter = out_of_call })

  -- A `_cont_queue` that the constructor has filled.
  pub record Filled (capacity : ℕ) (q : Threads ℕ) : Type 0 where
    pub reached : Reach kept 1 1 0 capacity q
    pub numbers : q.sent ≡ from 0 capacity
    pub untouched : q.received ≡ []
    pub at_rest : q.put 0 ≡ resting
    pub waits : q.get 0 ≡ waiting

  -- A new queue.
  abbrev pub built_pair : A → ℕ → Threads ℕ → Pair A
  built_pair fresh capacity q = record {
    cont = replicate capacity fresh;
    cont_queue = q;
    out_queue = start kept 1 1 0 capacity;
    sender = outside;
    getter = out_of_call;
    sent = [];
    received = [];
  }

  pub data PairReach (fresh : A) (capacity : ℕ) : Pair A → Type 0 where
    new :
        (q : Threads ℕ) → Filled capacity q → PairReach fresh capacity (built_pair fresh capacity q)
    on : {s t : Pair A} → PairReach fresh capacity s → PairStep s t → PairReach fresh capacity t
