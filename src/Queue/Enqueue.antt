-- ===== src/Queue/Enqueue.antt =====
-- `enqueue` of vee/queue.h on a ring that holds a list.
use vee.Common.{
  ℕ, ◌<◌, ◌≡◌, refl, ◌∙◌, sym, ap, ap₂, subst, Bool, true, false, Option, some, List, [], ◌∷◌, ◌++◌,
  arith, length, get_elem?, set, cell, cell-full, cell-next, cell-lt, length-set, length-append,
  ℕ_discrete, add_size,
}
use vee.Lock.{spin_lock}
use vee.Queue.{Queue, advance, enqueue}
use vee.Queue.Bounded
use vee.Queue.Bounded.{Op, put, get, Reply}
use vee.Queue.Holds.{Holds, advance-cell, advance-lt}
use vee.Common.{stored-append, stored-next}

module _ {A : Type 0} where
  -- A call that returns `r` and leaves a queue of the same kind with the elements `ys`.
  pub record Done {R : Type 0} (q : Queue A) (ys : List A) (call : Option (R × Queue A)) (r : R)
      : Type 0 where
    pub after : Queue A
    pub returns : call ≡ some (r, after)
    pub holds : Holds after ys
    pub same_capacity : after.capacity ≡ q.capacity
    pub same_flag : after.overwrite_flag ≡ q.overwrite_flag

  module _ (q : Queue A) (val : A) where
    abbrev blocks_after : List A
    blocks_after = set q.blocks q.rear val

    abbrev roomy : Queue A
    roomy = record q {
      blocks = blocks_after;
      blocklcks = set q.blocklcks q.rear spin_lock;
      idxlck = spin_lock;
      rear = advance q.capacity q.rear;
      size = add_size q.size 1;
    }

    abbrev overwritten : Queue A
    overwritten = record q {
      blocks = blocks_after;
      blocklcks = set q.blocklcks q.rear spin_lock;
      idxlck = spin_lock;
      rear = advance q.capacity q.rear;
      front = advance q.capacity q.front;
    }

    module _ (xs : List A) (v : Holds q xs) where
      enqueue-roomy : length xs < q.capacity → Holds roomy (xs ++ (val ∷ []))
      enqueue-roomy room = record {
        pos = v.pos;
        small = v.small;
        blocks_length = length-set q.blocks q.rear val ∙ v.blocks_length;
        locks_length = length-set q.blocklcks q.rear spin_lock ∙ v.locks_length;
        front_in = v.front_in;
        fits = omega (arith, length-append xs (val ∷ []));
        sized = omega (arith, length-append xs (val ∷ []), v.small, v.sized);
        rear_at =
            ap (advance q.capacity) v.rear_at
            ∙ advance-cell q.capacity q.front (length xs) v.pos v.small
            ∙ ap (cell q.capacity q.front) (omega (arith, length-append xs (val ∷ [])));
        stored = λ k lt.
            subst
              (λ r.
                get_elem? (set q.blocks r val) (cell q.capacity q.front k)
                ≡ get_elem? (xs ++ (val ∷ [])) k)
              (sym v.rear_at)
              (stored-append q.blocks q.capacity q.front xs val v.blocks_length v.front_in v.stored
                room k lt);
        open_idx = refl;
      }

    module _ (x : A) (xs : List A) (v : Holds q (x ∷ xs))
        (full : length (x ∷ xs) ≡ q.capacity) where
      rear-front : q.rear ≡ q.front
      rear-front =
          v.rear_at ∙ ap (cell q.capacity q.front) full ∙ cell-full q.capacity q.front v.front_in

      front-next : advance q.capacity q.front ≡ cell q.capacity q.front 1
      front-next = advance-lt q.capacity q.front v.front_in v.small

      -- The block that is overwritten is the last one of the new round.
      rear-last : q.rear ≡ cell q.capacity (cell q.capacity q.front 1) (length xs)
      rear-last =
          v.rear_at
          ∙ ap (cell q.capacity q.front) (omega arith)
          ∙ sym (cell-next q.capacity q.front (length xs))

      stored-overwritten :
          (k : ℕ)
          → k < length (xs ++ (val ∷ []))
          → get_elem? blocks_after (cell q.capacity (advance q.capacity q.front) k)
            ≡ get_elem? (xs ++ (val ∷ [])) k
      stored-overwritten k lt =
          subst (λ h. get_elem? blocks_after (cell q.capacity h k) ≡ get_elem? (xs ++ (val ∷ [])) k)
            (sym front-next)
            (subst
              (λ r.
                get_elem? (set q.blocks r val) (cell q.capacity (cell q.capacity q.front 1) k)
                ≡ get_elem? (xs ++ (val ∷ [])) k)
              (sym rear-last)
              (stored-append q.blocks q.capacity (cell q.capacity q.front 1) xs val v.blocks_length
                (cell-lt q.capacity q.front 1 v.pos)
                (stored-next q.blocks q.capacity q.front x xs v.stored) (omega arith) k lt))

      enqueue-overwritten : Holds overwritten (xs ++ (val ∷ []))
      enqueue-overwritten = record {
        pos = v.pos;
        small = v.small;
        blocks_length = length-set q.blocks q.rear val ∙ v.blocks_length;
        locks_length = length-set q.blocklcks q.rear spin_lock ∙ v.locks_length;
        front_in = omega (arith, front-next, cell-lt q.capacity q.front 1 v.pos);
        fits = omega (arith, length-append xs (val ∷ []));
        sized = omega (arith, length-append xs (val ∷ []), v.sized);
        rear_at =
            ap (advance q.capacity) (rear-last)
            ∙ advance-cell q.capacity (cell q.capacity q.front 1) (length xs) v.pos v.small
            ∙ ap₂ (cell q.capacity) (sym front-next) (omega (arith, length-append xs (val ∷ [])));
        stored = stored-overwritten;
        open_idx = refl;
      }

  pub unlocked-Holds :
      (q : Queue A) (xs : List A) → Holds q xs → Holds (record q { idxlck = spin_lock }) xs
  unlocked-Holds q xs v = record {
    pos = v.pos;
    small = v.small;
    blocks_length = v.blocks_length;
    locks_length = v.locks_length;
    front_in = v.front_in;
    fits = v.fits;
    sized = v.sized;
    rear_at = v.rear_at;
    stored = v.stored;
    open_idx = refl;
  }

  module _ (q : Queue A) (val : A) where
    enqueue-Done :
        (xs : List A)
        → Holds q xs
        → ¬ (length xs ≡ q.capacity)
        → Done q (xs ++ (val ∷ [])) (enqueue q val) true
    unfolding enqueue
    enqueue-Done xs v room = record {
      after = roomy q val;
      returns = ground (arith, v.open_idx, v.sized);
      holds = enqueue-roomy q val xs v (omega (arith, v.fits));
      same_capacity = refl;
      same_flag = refl;
    }

    enqueue_refused :
        (xs : List A)
        → Holds q xs
        → length xs ≡ q.capacity
        → q.overwrite_flag ≡ false
        → Done q xs (enqueue q val) false
    unfolding enqueue
    enqueue_refused xs v full keep = record {
      after = record q { idxlck = spin_lock };
      returns = ground (arith, v.open_idx, v.sized);
      holds = unlocked-Holds q xs v;
      same_capacity = refl;
      same_flag = refl;
    }

    enqueue_overwrites :
        (x : A) (xs : List A)
        → Holds q (x ∷ xs)
        → length (x ∷ xs) ≡ q.capacity
        → q.overwrite_flag ≡ true
        → Done q (xs ++ (val ∷ [])) (enqueue q val) true
    unfolding enqueue
    enqueue_overwrites x xs v full drop = record {
      after = overwritten q val;
      returns = ground (arith, v.open_idx, v.sized);
      holds = enqueue-overwritten q val x xs v full;
      same_capacity = refl;
      same_flag = refl;
    }

  enqueue-full :
      (q : Queue A) (val : A) (b : Bool) (xs : List A)
      → Holds q xs
      → length xs ≡ q.capacity
      → q.overwrite_flag ≡ b
      → let (done, ys) = Bounded.enqueue q.capacity b xs val in Done q ys (enqueue q val) done
  unfolding Bounded.enqueue
  enqueue-full q val b [] v full e = absurd (omega (arith, v.pos))
  enqueue-full q val true (x ∷ xs) v full e =
      subst {A = Bool × List A} (λ r. Done q r.1 (enqueue q val) r.0) (ground arith)
        (enqueue_overwrites q val x xs v full e)
  enqueue-full q val false (x ∷ xs) v full e =
      subst {A = Bool × List A} (λ r. Done q r.1 (enqueue q val) r.0) (ground arith)
        (enqueue_refused q val (x ∷ xs) v full e)

  -- On a queue that holds `xs`, `enqueue` returns what the bounded queue returns, and leaves the
  -- elements that it leaves: a full queue refuses, or drops its oldest element.
  pub enqueue_refines :
      (q : Queue A) (xs : List A) (val : A)
      → Holds q xs
      → let (done, ys) = Bounded.enqueue q.capacity q.overwrite_flag xs val in
        Done q ys (enqueue q val) done
  enqueue_refines q xs val v = elim (ℕ_discrete (length xs) q.capacity) [
    | yes full ↦ enqueue-full q val q.overwrite_flag xs v full refl
    | no room ↦
        subst (λ r. Done q r.1 (enqueue q val) r.0)
          (sym (Bounded.enqueue-room q.capacity q.overwrite_flag xs val room))
          (enqueue-Done q val xs v room)
  ]
