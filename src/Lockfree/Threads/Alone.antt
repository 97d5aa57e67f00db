-- ===== src/Lockfree/Threads/Alone.antt =====
-- The steps of one call of vee/lockfree/queue.h in a row, and the functions `enqueue` and `dequeue`
-- of the whole call.
use vee.Common.{
  ℕ, ◌<◌, ◌≡◌, refl, arith, Bool, true, false, none, some, [], ◌∷◌, ◌++◌, get_elem?, set,
  if◌then◌else◌,
}
use vee.Lockfree.AtQueue.{AtQueue, is_null, next_index, enqueue, dequeue}
use vee.Lockfree.Threads.{
  PutPc, resting, calling, loaded, free, claimed, stored, GetPc, waiting, asking, looked, full, won,
  taken, Threads, assign, Step, call, load, see_free, refuse, claim, store, publish, ask, look,
  see_full, see_empty, win, take, clear, Reach, next,
}

assign_self : {B : Type 0} (f : ℕ → B) (i : ℕ) (b : B) → assign f i b i ≡ b
assign_self f i b = ground arith

module _ {A : Type 0} (left : A → A) (producers consumers : ℕ) where
  pub data Steps (s : Threads A) : Threads A → Type 0 where
    none_yet : Steps s s
    more : {t u : Threads A} → Steps s t → Step left producers consumers t u → Steps s u

  pub Reach-Steps :
      {fresh : A} {capacity : ℕ} {s t : Threads A}
      → Reach left producers consumers fresh capacity s
      → Steps s t
      → Reach left producers consumers fresh capacity t
  Reach-Steps r none_yet = r
  Reach-Steps r (more steps step) = next (Reach-Steps r steps) step

  module _ (s : Threads A) (i : ℕ) (v : A) (lt : i < producers) (rests : s.put i ≡ resting) where
    abbrev put_1 : ℕ → PutPc A
    put_1 = assign s.put i (calling v)

    abbrev put_2 : ℕ → PutPc A
    put_2 = assign put_1 i (loaded v s.ring.rear)

    to_loaded : Steps s (record s { put = put_2 })
    to_loaded =
        more (more none_yet (call i v lt rests)) (load i v lt (assign_self s.put i (calling v)))

    refused :
        is_null s.ring.ptrs s.ring.rear ≡ some false
        → Steps s (record s { put = assign put_2 i resting })
    refused shown = more to_loaded (refuse i v s.ring.rear lt (assign_self put_1 i _) shown)

    abbrev put_3 : ℕ → PutPc A
    put_3 = assign put_2 i (free v s.ring.rear)

    abbrev put_4 : ℕ → PutPc A
    put_4 = assign put_3 i (claimed v s.ring.rear)

    abbrev put_5 : ℕ → PutPc A
    put_5 = assign put_4 i (stored v s.ring.rear)

    abbrev claimed_ring : AtQueue A
    claimed_ring = record s.ring { rear = next_index s.ring.capacity s.ring.rear }

    abbrev stored_ring : AtQueue A
    stored_ring = record claimed_ring { cont = set s.ring.cont s.ring.rear v }

    abbrev sent_state : Threads A
    sent_state = record s {
      ring = record stored_ring { ptrs = set s.ring.ptrs s.ring.rear (some s.ring.rear) };
      put = assign put_5 i resting;
      sent = s.sent ++ (v ∷ []);
    }

    to_free : is_null s.ring.ptrs s.ring.rear ≡ some true → Steps s (record s { put = put_3 })
    to_free null = more to_loaded (see_free i v s.ring.rear lt (assign_self put_1 i _) null)

    accepted : is_null s.ring.ptrs s.ring.rear ≡ some true → Steps s sent_state
    accepted null =
        more
          (more (more (to_free null) (claim i v s.ring.rear lt (assign_self put_2 i _) refl))
            (store i v s.ring.rear lt (assign_self put_3 i _)))
          (publish i v s.ring.rear lt (assign_self put_4 i _))

    -- Where the pointer at the rear is inside the array and a thread is in no call, there are steps
    -- from here to a state in which it is in no call again, and which has the ring that the function
    -- `enqueue` leaves with no retries; the value counts as sent exactly where the function returns
    -- true, and what was received stays.
    pub enqueue-Steps :
        (null : Bool)
        → is_null s.ring.ptrs s.ring.rear ≡ some null
        → (t : Threads A) × Steps s t
          × (t.put i ≡ resting)
          × (enqueue 2 v 0 s.ring ≡ some (null, t.ring))
          × (t.sent ≡ (if null then s.sent ++ (v ∷ []) else s.sent))
          × (t.get ≡ s.get)
          × (t.received ≡ s.received)
    unfolding enqueue
    enqueue-Steps true null = (
      sent_state,
      accepted null,
      assign_self put_5 i resting,
      ground (arith, null),
      refl,
      refl,
      refl,
    )
    enqueue-Steps false shown = (
      record s { put = assign put_2 i resting },
      refused shown,
      assign_self put_2 i resting,
      ground (arith, shown),
      refl,
      refl,
      refl,
    )

  module _ (s : Threads A) (i : ℕ) (lt : i < consumers) (waits : s.get i ≡ waiting) where
    abbrev get_1 : ℕ → GetPc
    get_1 = assign s.get i asking

    abbrev get_2 : ℕ → GetPc
    get_2 = assign get_1 i (looked s.ring.front)

    abbrev get_3 : ℕ → GetPc
    get_3 = assign get_2 i (full s.ring.front)

    abbrev get_4 : ℕ → GetPc
    get_4 = assign get_3 i (won s.ring.front)

    abbrev get_5 : ℕ → GetPc
    get_5 = assign get_4 i (taken s.ring.front)

    abbrev received_state : A → Threads A
    received_state x = record s {
      ring = record s.ring {
        front = next_index s.ring.capacity s.ring.front;
        cont = set s.ring.cont s.ring.front (left x);
        ptrs = set s.ring.ptrs s.ring.front none;
      };
      get = assign get_5 i waiting;
      received = s.received ++ (x ∷ []);
    }

    to_looked : Steps s (record s { get = get_2 })
    to_looked = more (more none_yet (ask i lt waits)) (look i lt (assign_self s.get i asking))

    handed_out :
        (x : A)
        → is_null s.ring.ptrs s.ring.front ≡ some false
        → get_elem? s.ring.cont s.ring.front ≡ some x
        → Steps s (received_state x)
    handed_out x shown content =
        more
          (more
            (more (more to_looked (see_full i s.ring.front lt (assign_self get_1 i _) shown))
              (win i s.ring.front lt (assign_self get_2 i _) refl))
            (take i s.ring.front x lt (assign_self get_3 i _) content))
          (clear i s.ring.front lt (assign_self get_4 i _))

    -- The same of `dequeue`: of a value in the cell at the front whose pointer is not null,
    pub dequeue-Steps :
        (x : A)
        → is_null s.ring.ptrs s.ring.front ≡ some false
        → get_elem? s.ring.cont s.ring.front ≡ some x
        → (t : Threads A) × Steps s t
          × (t.get i ≡ waiting)
          × (dequeue left 1 s.ring ≡ some (true, some x, t.ring))
          × (t.received ≡ s.received ++ (x ∷ []))
    unfolding dequeue
    dequeue-Steps x shown content = (
      received_state x,
      handed_out x shown content,
      assign_self get_5 i waiting,
      ground (arith, shown, content),
      refl,
    )

    -- and of a null pointer.
    pub dequeue_empty-Steps :
        is_null s.ring.ptrs s.ring.front ≡ some true
        → (t : Threads A) × Steps s t
          × (t.get i ≡ waiting)
          × (dequeue left 1 s.ring ≡ some (false, none, t.ring))
          × (t.received ≡ s.received)
    unfolding dequeue
    dequeue_empty-Steps null = (
      record s { get = assign get_2 i waiting },
      more to_looked (see_empty i s.ring.front lt (assign_self get_1 i _) null),
      assign_self get_2 i waiting,
      ground (arith, null),
      refl,
    )
