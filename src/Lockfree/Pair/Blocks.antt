-- ===== src/Lockfree/Pair/Blocks.antt =====
-- What the two threads on a `lockfree::queue` do to its blocks.
use vee.Common.{
  ℕ, ◌+◌, ◌≤◌, ◌<◌, ◌≡◌, ◌∙◌, sym, ap, some, List, [], ◌∷◌, ◌++◌, append_assoc, length-set,
  get_elem?, set, get_elem?-set_self, get_elem?-set_ne, arith, max_cells,
}
use mathlib.Core.Option.{some_inj}
use vee.Lockfree.Blocks.Numbers.{count, count-append, count-from, Points, Points-set}
use vee.Lockfree.Threads.{Threads}
use vee.Lockfree.Pair.{
  Sending, outside, asking, holding, passing, Getting, out_of_call, seeking, reading, freeing,
}
use vee.Lockfree.Pair.Paired.{held, lent, unread, Keeps, IsPaired, one_place, below}

-- The number that the first thread holds is not one that waits.
not_pending :
    (gt : Getting) (id : ℕ) (pending : List ℕ)
    → count id (lent gt) + count id pending ≡ 0
    → count id (unread gt ++ pending) ≡ 0
not_pending gt id pending absent = omega (arith, count-append id (unread gt) pending, less gt)
  where
    less : (gt : Getting) → count id (unread gt) ≤ count id (lent gt)
    less out_of_call = omega arith
    less seeking = omega arith
    less (reading b) = omega arith
    less (freeing b) = omega arith

count_self : (id : ℕ) → count id (id ∷ []) ≡ 1
count_self id = ground arith

module _ {A : Type 0} (cont : List A) where
  -- The elements of the blocks are those that wait, in order.
  first_waits :
      (id : ℕ) (pending : List ℕ) (elements : List A) (x : A)
      → Points cont (id ∷ pending) elements
      → get_elem? cont id ≡ some x
      → (xs : List A) × (elements ≡ x ∷ xs) × Points cont pending xs
  first_waits id pending [] x p content = absurd p
  first_waits id pending (y ∷ ys) x p content =
      (ys, ap (λ z. z ∷ ys) (some_inj.0 (sym p.0 ∙ content)), p.1)

  Keeps-set :
      (sn : Sending A) (id : ℕ) (y : A)
      → count id (held sn) ≡ 0
      → Keeps cont sn
      → Keeps (set cont id y) sn
  Keeps-set outside id y other k = k
  Keeps-set (asking v) id y other k = k
  Keeps-set (holding v j) id y other k = k
  Keeps-set (passing v j) id y other k = get_elem?-set_ne cont id j y (ground arith) ∙ k

module _ {A : Type 0} {n : ℕ} {cont : List A} {cont_queue out_queue : Threads ℕ}
    {sent received : List A} (pos : 0 < n) (small : n ≤ max_cells) where
  pub fill-IsPaired :
      {v : A} {id : ℕ} {gt : Getting}
      → IsPaired n cont cont_queue out_queue (holding v id) gt sent received
      → IsPaired n (set cont id v) cont_queue out_queue (passing v id) gt sent received
  fill-IsPaired {v} {id} {gt} o = record {
    reached_free = o.reached_free;
    reached_used = o.reached_used;
    freed = o.freed;
    pending = o.pending;
    elements = o.elements;
    taken = o.taken;
    got = o.got;
    given = o.given;
    waits = o.waits;
    order = o.order;
    points =
        Points-set cont (unread gt ++ o.pending) o.elements id v
          (not_pending gt id o.pending
            (omega (arith, one_place pos small o id, count-from id 0 n, count_self id)))
          o.points;
    keeps =
        get_elem?-set_self cont id v
          (omega (arith, below pos small o id (omega (arith, count_self id)), o.size));
    size = length-set cont id v ∙ o.size;
  }

  pub read-IsPaired :
      {sn : Sending A} {id : ℕ} (x y : A)
      → IsPaired n cont cont_queue out_queue sn (reading id) sent received
      → get_elem? cont id ≡ some x
      → IsPaired n (set cont id y) cont_queue out_queue sn (freeing id) sent (received ++ (x ∷ []))
  read-IsPaired {sn} {id} x y o content =
      let (xs, e, rest) = first_waits cont id o.pending o.elements x o.points content in
      record {
        reached_free = o.reached_free;
        reached_used = o.reached_used;
        freed = o.freed;
        pending = o.pending;
        elements = xs;
        taken = o.taken;
        got = o.got;
        given = o.given;
        waits = o.waits;
        order = o.order ∙ ap (λ r. received ++ r) e ∙ sym (append_assoc received (x ∷ []) xs);
        points =
            Points-set cont o.pending xs id y
              (omega (arith, one_place pos small o id, count-from id 0 n, count_self id)) rest;
        keeps =
            Keeps-set cont sn id y
              (omega (arith, one_place pos small o id, count-from id 0 n, count_self id)) o.keeps;
        size = length-set cont id y ∙ o.size;
      }
