-- ===== src/Lockfree/Threads.antt =====
-- Threads that share one `atqueue` of vee/lockfree/queue.h: the atomic steps of `enqueue` and
-- `dequeue`, in any order and each seen at once by all threads.
pub mod Single
pub mod Moves
pub mod Locals
pub mod Order
pub mod Prefix
pub mod Lost
pub mod Alone
use vee.Common.{
  ℕ, zero, suc, ◌<◌, ◌≡◌, ◌≢◌, Bool, true, false, Option, none, some, List, [], ◌∷◌, ◌++◌, ◌==◌,
  if◌then◌else◌, get_elem?, set,
}
use vee.Lockfree.AtQueue.{AtQueue, atqueue, next_index, is_null}

-- Where a thread stands in `enqueue`, with its argument and its local `rear`.
pub data PutPc (A : Type 0) : Type 0 where
  resting : PutPc A  -- in no call
  calling : A → PutPc A  -- before `_rear.load()`
  loaded : A → ℕ → PutPc A  -- before the test of the pointer
  free : A → ℕ → PutPc A  -- before the exchange
  claimed : A → ℕ → PutPc A  -- before the store of the value
  stored : A → ℕ → PutPc A  -- before the store of the pointer

-- Where a thread stands in `dequeue`, with its local `front`.
pub data GetPc : Type 0 where
  waiting : GetPc  -- in no call
  asking : GetPc  -- before `_front.load()`
  looked : ℕ → GetPc  -- before the test of the pointer
  full : ℕ → GetPc  -- before the exchange
  won : ℕ → GetPc  -- before the read into `out`
  taken : ℕ → GetPc  -- before the store of the null pointer

-- The queue, and the threads. `sent` are the values whose `enqueue` has stored its pointer, and
-- `received` those that a `dequeue` has read, in the order of these steps.
pub record Threads (A : Type 0) : Type 0 where
  pub ring : AtQueue A
  pub put : ℕ → PutPc A
  pub get : ℕ → GetPc
  pub sent : List A
  pub received : List A

abbrev pub assign {ℓ} : {B : Type ℓ} → (ℕ → B) → ℕ → B → ℕ → B
assign f i b j = if i == j then b else f j

-- There are so many threads that call `enqueue`, and so many that call `dequeue`. `left` is what an
-- assignment from a cell leaves in it.
module _ {A : Type 0} (left : A → A) (producers consumers : ℕ) where
  pub data Step (s : Threads A) : Threads A → Type 0 where
    -- `enqueue`.
    call :
        (i : ℕ) (v : A)
        → i < producers
        → s.put i ≡ resting
        → Step s (record s { put = assign s.put i (calling v) })
    load :
        (i : ℕ) (v : A)
        → i < producers
        → s.put i ≡ calling v
        → Step s (record s { put = assign s.put i (loaded v s.ring.rear) })
    see_free :
        (i : ℕ) (v : A) (rear : ℕ)
        → i < producers
        → s.put i ≡ loaded v rear
        → is_null s.ring.ptrs rear ≡ some true
        → Step s (record s { put = assign s.put i (free v rear) })
    retry :
        (i : ℕ) (v : A) (rear : ℕ)
        → i < producers
        → s.put i ≡ loaded v rear
        → is_null s.ring.ptrs rear ≡ some false
        → Step s (record s { put = assign s.put i (calling v) })
    refuse :
        (i : ℕ) (v : A) (rear : ℕ)
        → i < producers
        → s.put i ≡ loaded v rear
        → is_null s.ring.ptrs rear ≡ some false
        → Step s (record s { put = assign s.put i resting })
    claim :
        (i : ℕ) (v : A) (rear : ℕ)
        → i < producers
        → s.put i ≡ free v rear
        → s.ring.rear ≡ rear
        → Step s (record s {
          ring = record s.ring { rear = next_index s.ring.capacity rear };
          put = assign s.put i (claimed v rear);
        })
    lose :
        (i : ℕ) (v : A) (rear : ℕ)
        → i < producers
        → s.put i ≡ free v rear
        → s.ring.rear ≢ rear
        → Step s (record s { put = assign s.put i (calling v) })
    store :
        (i : ℕ) (v : A) (rear : ℕ)
        → i < producers
        → s.put i ≡ claimed v rear
        → Step s (record s {
          ring = record s.ring { cont = set s.ring.cont rear v };
          put = assign s.put i (stored v rear);
        })
    publish :
        (i : ℕ) (v : A) (rear : ℕ)
        → i < producers
        → s.put i ≡ stored v rear
        → Step s (record s {
          ring = record s.ring { ptrs = set s.ring.ptrs rear (some rear) };
          put = assign s.put i resting;
          sent = s.sent ++ (v ∷ []);
        })
    -- `dequeue`.
    ask :
        (i : ℕ)
        → i < consumers
        → s.get i ≡ waiting
        → Step s (record s { get = assign s.get i asking })
    look :
        (i : ℕ)
        → i < consumers
        → s.get i ≡ asking
        → Step s (record s { get = assign s.get i (looked s.ring.front) })
    see_full :
        (i front : ℕ)
        → i < consumers
        → s.get i ≡ looked front
        → is_null s.ring.ptrs front ≡ some false
        → Step s (record s { get = assign s.get i (full front) })
    see_empty :
        (i front : ℕ)
        → i < consumers
        → s.get i ≡ looked front
        → is_null s.ring.ptrs front ≡ some true
        → Step s (record s { get = assign s.get i waiting })
    win :
        (i front : ℕ)
        → i < consumers
        → s.get i ≡ full front
        → s.ring.front ≡ front
        → Step s (record s {
          ring = record s.ring { front = next_index s.ring.capacity front };
          get = assign s.get i (won front);
        })
    miss :
        (i front : ℕ)
        → i < consumers
        → s.get i ≡ full front
        → s.ring.front ≢ front
        → Step s (record s { get = assign s.get i asking })
    take :
        (i front : ℕ) (x : A)
        → i < consumers
        → s.get i ≡ won front
        → get_elem? s.ring.cont front ≡ some x
        → Step s (record s {
          ring = record s.ring { cont = set s.ring.cont front (left x) };
          get = assign s.get i (taken front);
          received = s.received ++ (x ∷ []);
        })
    clear :
        (i front : ℕ)
        → i < consumers
        → s.get i ≡ taken front
        → Step s (record s {
          ring = record s.ring { ptrs = set s.ring.ptrs front none };
          get = assign s.get i waiting;
        })

  abbrev pub start : A → ℕ → Threads A
  start fresh capacity = record {
    ring = atqueue fresh capacity;
    put = λ i. resting;
    get = λ i. waiting;
    sent = [];
    received = [];
  }

  pub data Reach (fresh : A) (capacity : ℕ) : Threads A → Type 0 where
    here : Reach fresh capacity (start fresh capacity)
    next : {s t : Threads A} → Reach fresh capacity s → Step s t → Reach fresh capacity t
