-- ===== src/Lockfree/AtQueue/Enqueue.antt =====
-- `atqueue::enqueue`, run alone on a ring that holds a list.
use vee.Common.{
  ℕ, zero, suc, ◌+◌, ◌≤◌, ◌<◌, ◌≡◌, refl, ◌∙◌, sym, ap, subst, Bool, true, false, Option, none,
  some, List, [], ◌∷◌, ◌++◌, ◌^◌, arith, length, get_elem?, set, cell, cell-lt, cell-ne, cell-full,
  length-set, length-append, get_elem?-set_self, get_elem?-set_ne, ℕ_discrete, dec_lt, cell-zero,
  add_size,
}
use vee.Common.{stored-append}
use vee.Lockfree.AtQueue.{AtQueue, next_index, enqueue_loop, enqueue, is_null}
use vee.Lockfree.AtQueue.Fifo
use vee.Lockfree.AtQueue.Holds.{Holds, next_index-cell}

module _ {A : Type 0} where
  -- A call that returns `r` and leaves a queue of the same capacity with the elements `ys`.
  pub record Done {R : Type 0} (q : AtQueue A) (ys : List A) (call : Option (R × AtQueue A)) (r : R)
      : Type 0 where
    pub after : AtQueue A
    pub returns : call ≡ some (r, after)
    pub holds : Holds after ys
    pub same_capacity : after.capacity ≡ q.capacity

  module _ (q : AtQueue A) (val : A) (xs : List A) (v : Holds q xs) where
    -- The cell behind the last one.
    abbrev pub last : ℕ
    last = cell q.capacity q.front (length xs)

    abbrev pub stored_after : AtQueue A
    stored_after = record q {
      rear = next_index q.capacity q.rear;
      cont = set q.cont q.rear val;
      ptrs = set q.ptrs q.rear (some q.rear);
    }

    module _ (room : length xs < q.capacity) where
      rear-null : is_null q.ptrs q.rear ≡ some true
      rear-null =
          ap (is_null q.ptrs) v.rear_at ∙ ground (arith, v.free (length xs) (omega arith) room)

      last_in : last < length q.ptrs
      last_in = omega (arith, v.ptrs_length, cell-lt q.capacity q.front (length xs) v.pos)

      abbrev ptrs_after : ℕ → List (Option ℕ)
      ptrs_after r = set q.ptrs r (some r)

      shown_after :
          (k : ℕ)
          → k < length (xs ++ (val ∷ []))
          → get_elem? (ptrs_after last) (cell q.capacity q.front k)
            ≡ some (some (cell q.capacity q.front k))
      shown_after k lt = elim (ℕ_discrete k (length xs)) [
        | yes e ↦ rw e (get_elem?-set_self q.ptrs last (some last) last_in)
        | no ne ↦
            get_elem?-set_ne q.ptrs last (cell q.capacity q.front k) (some last) (
              cell-ne q.capacity q.front (length xs) k v.front_in room
                (omega (arith, length-append xs (val ∷ []))) (λ e. ne (sym e)))
            ∙ v.shown k (omega (arith, length-append xs (val ∷ [])))
      ]

      free_after :
          (k : ℕ)
          → length (xs ++ (val ∷ [])) ≤ k
          → k < q.capacity
          → get_elem? (ptrs_after last) (cell q.capacity q.front k) ≡ some none
      free_after k le lt =
          get_elem?-set_ne q.ptrs last (cell q.capacity q.front k) (some last) (
            cell-ne q.capacity q.front (length xs) k v.front_in room lt
              (omega (arith, length-append xs (val ∷ []))))
          ∙ v.free k (omega (arith, length-append xs (val ∷ []))) lt

      pub stored_after-Holds : Holds stored_after (xs ++ (val ∷ []))
      stored_after-Holds = record {
        pos = v.pos;
        small = v.small;
        cont_length = length-set q.cont q.rear val ∙ v.cont_length;
        ptrs_length = length-set q.ptrs q.rear (some q.rear) ∙ v.ptrs_length;
        front_in = v.front_in;
        fits = omega (arith, length-append xs (val ∷ []));
        rear_at =
            ap (next_index q.capacity) v.rear_at
            ∙ next_index-cell q.capacity q.front (length xs) v.pos v.small
            ∙ ap (cell q.capacity q.front) (omega (arith, length-append xs (val ∷ [])));
        stored = λ k lt.
            subst
              (λ r.
                get_elem? (set q.cont r val) (cell q.capacity q.front k)
                ≡ get_elem? (xs ++ (val ∷ [])) k)
              (sym v.rear_at)
              (stored-append q.cont q.capacity q.front xs val v.cont_length v.front_in v.stored room
                k lt);
        shown = λ k lt.
            subst
              (λ r.
                get_elem? (ptrs_after r) (cell q.capacity q.front k)
                ≡ some (some (cell q.capacity q.front k)))
              (sym v.rear_at) (shown_after k lt);
        free = λ k le lt.
            subst (λ r. get_elem? (ptrs_after r) (cell q.capacity q.front k) ≡ some none)
              (sym v.rear_at) (free_after k le lt);
      }

      enqueue_loop-room :
          (fuel retries : ℕ) → enqueue_loop (suc fuel) val retries 0 q ≡ some (true, stored_after)
      unfolding enqueue_loop
      enqueue_loop-room fuel retries = ground (arith, rear-null)

    rear-full : length xs ≡ q.capacity → is_null q.ptrs q.rear ≡ some false
    rear-full full =
        ap (is_null q.ptrs) (
          v.rear_at
          ∙ ap (cell q.capacity q.front) full
          ∙ cell-full q.capacity q.front v.front_in
          ∙ sym (cell-zero q.capacity q.front v.front_in))
        ∙ ground (arith, v.shown 0 (omega (arith, v.pos)))

    -- A full queue is tried `retries + 1` times, and left as it is.
    enqueue_loop-full :
        length xs ≡ q.capacity
        → (fuel retries counter : ℕ) → retries < 2 ^ 63
        → counter ≤ retries + 1
        → retries + 1 < fuel + counter
        → enqueue_loop fuel val retries counter q ≡ some (false, q)
    unfolding enqueue_loop
    enqueue_loop-full full zero retries counter small le enough = absurd (omega arith)
    enqueue_loop-full full (suc fuel) retries counter small le enough =
        elim (dec_lt retries counter) [
          | yes over ↦ ground arith
          | no more ↦ ground (
            arith,
            rear-full full,
            enqueue_loop-full full fuel retries (add_size counter 1) small (omega arith)
                (omega arith),
          )
        ]

  enqueue_eq :
      (fuel : ℕ) (val : A) (retries : ℕ) (q : AtQueue A)
      → enqueue fuel val retries q ≡ enqueue_loop fuel val retries 0 q
  unfolding enqueue
  enqueue_eq fuel val retries q = refl

  -- Run alone on a queue that holds `xs`, `enqueue` with any number of retries below 2 ^ 63 returns
  -- within `retries + 2` rounds. It appends the value if there is room; otherwise it returns false
  -- and leaves the queue as it is.
  pub enqueue_fifo :
      (q : AtQueue A) (xs : List A) (val : A) (fuel retries : ℕ)
      → Holds q xs
      → retries < 2 ^ 63
      → retries + 1 < fuel
      → let (done, ys) = Fifo.enqueue q.capacity xs val in
        Done q ys (enqueue fuel val retries q) done
  enqueue_fifo q xs val zero retries v small enough = absurd (omega arith)
  enqueue_fifo q xs val (suc fuel) retries v small enough = elim (dec_lt (length xs) q.capacity) [
    | yes room ↦
        subst {A = Bool × List A} (λ r. Done q r.1 (enqueue (suc fuel) val retries q) r.0)
          (sym (Fifo.enqueue-room q.capacity xs val room)) (go_room room)
    | no full ↦
        subst {A = Bool × List A} (λ r. Done q r.1 (enqueue (suc fuel) val retries q) r.0)
          (sym (Fifo.enqueue-full q.capacity xs val full)) (go_full (omega (arith, v.fits)))
  ]
    where
      go_room :
          length xs < q.capacity → Done q (xs ++ (val ∷ [])) (enqueue (suc fuel) val retries q) true
      go_room room = record {
        after = stored_after q val xs v;
        returns =
            enqueue_eq (suc fuel) val retries q ∙ enqueue_loop-room q val xs v room fuel retries;
        holds = stored_after-Holds q val xs v room;
        same_capacity = refl;
      }

      go_full : length xs ≡ q.capacity → Done q xs (enqueue (suc fuel) val retries q) false
      go_full full = record {
        after = q;
        returns =
            enqueue_eq (suc fuel) val retries q
            ∙ enqueue_loop-full q val xs v full (suc fuel) retries 0 small (omega arith)
                (omega arith);
        holds = v;
        same_capacity = refl;
      }
