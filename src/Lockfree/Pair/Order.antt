-- ===== src/Lockfree/Pair/Order.antt =====
-- What the steps of two threads in the rings of a `lockfree::queue` keep.
use vee.Common.{
  ℕ, ◌≤◌, ◌<◌, ◌≡◌, ◌∙◌, sym, ap, subst, List, [], ◌∷◌, ◌++◌, append_assoc, append-nil, max_cells,
  drop,
}
use vee.Lockfree.Blocks.{kept}
use vee.Lockfree.Blocks.Numbers.{from, Points, Points-append}
use vee.Lockfree.Threads.{Threads, Reach}
use vee.Lockfree.Threads.Prefix.{received_prefix}
use vee.Lockfree.Pair.{
  Sending, outside, asking, holding, passing, Getting, out_of_call, seeking, reading, freeing,
}
use vee.Lockfree.Pair.Paired.{held, lent, unread, Keeps, IsPaired}

-- What stands behind equal beginnings is equal.
pub append_cancel : {A : Type 0} (xs : List A) {ys zs : List A} → xs ++ ys ≡ xs ++ zs → ys ≡ zs
append_cancel [] e = e
append_cancel (x ∷ xs) e = append_cancel xs (ap (λ l. drop 1 l) e)

module _ {A : Type 0} {n : ℕ} {cont : List A} {cont_queue out_queue : Threads ℕ} {sn : Sending A}
    {gt : Getting} {sent received : List A}
    (o : IsPaired n cont cont_queue out_queue sn gt sent received) where
  -- A thread goes on, with the same numbers.
  pub sender-IsPaired :
      (sn' : Sending A)
      → held sn' ≡ held sn
      → Keeps cont sn'
      → IsPaired n cont cont_queue out_queue sn' gt sent received
  sender-IsPaired sn' e k = record {
    reached_free = o.reached_free;
    reached_used = o.reached_used;
    freed = o.freed;
    pending = o.pending;
    elements = o.elements;
    taken = o.taken ∙ ap (λ h. out_queue.sent ++ h) (sym e);
    got = o.got;
    given = o.given;
    waits = o.waits;
    order = o.order;
    points = o.points;
    keeps = k;
    size = o.size;
  }

  pub getter-IsPaired :
      (gt' : Getting)
      → lent gt' ≡ lent gt
      → unread gt' ≡ unread gt
      → IsPaired n cont cont_queue out_queue sn gt' sent received
  getter-IsPaired gt' e e' = record {
    reached_free = o.reached_free;
    reached_used = o.reached_used;
    freed = o.freed;
    pending = o.pending;
    elements = o.elements;
    taken = o.taken;
    got = o.got ∙ ap (λ h. o.freed ++ h) (sym e);
    given = o.given;
    waits = o.waits;
    order = o.order;
    points = subst (λ u. Points cont (u ++ o.pending) o.elements) (sym e') o.points;
    keeps = o.keeps;
    size = o.size;
  }

  -- A step in `_cont_queue` that reads and shows no number.
  pub inside_free-IsPaired :
      (t : Threads ℕ)
      → Reach kept 1 1 0 n t
      → t.received ≡ cont_queue.received
      → t.sent ≡ cont_queue.sent
      → IsPaired n cont t out_queue sn gt sent received
  inside_free-IsPaired t r same_received same_sent = record {
    reached_free = r;
    reached_used = o.reached_used;
    freed = o.freed;
    pending = o.pending;
    elements = o.elements;
    taken = same_received ∙ o.taken;
    got = o.got;
    given = same_sent ∙ o.given;
    waits = o.waits;
    order = o.order;
    points = o.points;
    keeps = o.keeps;
    size = o.size;
  }

  -- The same in `_out_queue`.
  pub inside_used-IsPaired :
      (t : Threads ℕ)
      → Reach kept 1 1 0 n t
      → t.received ≡ out_queue.received
      → t.sent ≡ out_queue.sent
      → IsPaired n cont cont_queue t sn gt sent received
  inside_used-IsPaired t r same_received same_sent = record {
    reached_free = o.reached_free;
    reached_used = r;
    freed = o.freed;
    pending = o.pending;
    elements = o.elements;
    taken = o.taken ∙ ap (λ s. s ++ held sn) (sym same_sent);
    got = same_received ∙ o.got;
    given = o.given;
    waits = same_sent ∙ o.waits ∙ ap (λ r. r ++ o.pending) (sym same_received);
    order = o.order;
    points = o.points;
    keeps = o.keeps;
    size = o.size;
  }

-- The read of a free number.
pub take_free-IsPaired :
    {A : Type 0} {n : ℕ} {cont : List A} {cont_queue out_queue : Threads ℕ} {v : A} {gt : Getting}
    {sent received : List A} (t : Threads ℕ) (id : ℕ)
    → IsPaired n cont cont_queue out_queue (asking v) gt sent received
    → Reach kept 1 1 0 n t
    → t.received ≡ cont_queue.received ++ (id ∷ [])
    → t.sent ≡ cont_queue.sent
    → IsPaired n cont t out_queue (holding v id) gt sent received
take_free-IsPaired {out_queue = out_queue} t id o r grown same_sent = record {
  reached_free = r;
  reached_used = o.reached_used;
  freed = o.freed;
  pending = o.pending;
  elements = o.elements;
  taken = grown ∙ ap (λ s. s ++ (id ∷ [])) (o.taken ∙ append-nil out_queue.sent);
  got = o.got;
  given = same_sent ∙ o.given;
  waits = o.waits;
  order = o.order;
  points = o.points;
  keeps = tt;
  size = o.size;
}

-- The store of the pointer in `_out_queue`.
pub publish-IsPaired :
    {A : Type 0} {n : ℕ} {cont : List A} {cont_queue out_queue : Threads ℕ} {v : A} {id : ℕ}
    {gt : Getting} {sent received : List A} (t : Threads ℕ)
    → IsPaired n cont cont_queue out_queue (passing v id) gt sent received
    → Reach kept 1 1 0 n t
    → t.received ≡ out_queue.received
    → t.sent ≡ out_queue.sent ++ (id ∷ [])
    → IsPaired n cont cont_queue t outside gt (sent ++ (v ∷ [])) received
publish-IsPaired {cont = cont} {out_queue = out_queue} {v} {id} {gt} {received = received} t o r
      same_received grown =
    record {
      reached_free = o.reached_free;
      reached_used = r;
      freed = o.freed;
      pending = o.pending ++ (id ∷ []);
      elements = o.elements ++ (v ∷ []);
      taken = o.taken ∙ sym grown ∙ sym (append-nil t.sent);
      got = same_received ∙ o.got;
      given = o.given;
      waits =
          grown
          ∙ ap (λ s. s ++ (id ∷ [])) o.waits
          ∙ append_assoc out_queue.received o.pending (id ∷ [])
          ∙ ap (λ r. r ++ (o.pending ++ (id ∷ []))) (sym same_received);
      order = ap (λ s. s ++ (v ∷ [])) o.order ∙ append_assoc received o.elements (v ∷ []);
      points =
          subst (λ b. Points cont b (o.elements ++ (v ∷ [])))
            (append_assoc (unread gt) o.pending (id ∷ []))
            (Points-append cont (unread gt ++ o.pending) o.elements id v o.keeps o.points);
      keeps = tt;
      size = o.size;
    }

-- The read of a used number, which is the first that waits.
pub take_used-IsPaired :
    {A : Type 0} {n : ℕ} {cont : List A} {cont_queue out_queue : Threads ℕ} {sn : Sending A}
    {sent received : List A} (t : Threads ℕ) (id : ℕ)
    → 0 < n
    → n ≤ max_cells
    → IsPaired n cont cont_queue out_queue sn seeking sent received
    → Reach kept 1 1 0 n t
    → t.received ≡ out_queue.received ++ (id ∷ [])
    → t.sent ≡ out_queue.sent
    → IsPaired n cont cont_queue t sn (reading id) sent received
take_used-IsPaired {n = n} {cont} {out_queue = out_queue} {sn} t id pos small o r grown same_sent =
    let (rest, split, bound) = received_prefix kept 0 n t pos small r in
    let first : o.pending ≡ id ∷ rest = append_cancel out_queue.received (
      sym o.waits
      ∙ sym same_sent
      ∙ split
      ∙ ap (λ r. r ++ rest) grown
      ∙ append_assoc out_queue.received (id ∷ []) rest) in
    record {
      reached_free = o.reached_free;
      reached_used = r;
      freed = o.freed;
      pending = rest;
      elements = o.elements;
      taken = o.taken ∙ ap (λ s. s ++ held sn) (sym same_sent);
      got = grown ∙ ap (λ s. s ++ (id ∷ [])) (o.got ∙ append-nil o.freed);
      given = o.given;
      waits = split;
      order = o.order;
      points = subst (λ b. Points cont b o.elements) first o.points;
      keeps = o.keeps;
      size = o.size;
    }

-- The store of the pointer in `_cont_queue`.
pub free_block-IsPaired :
    {A : Type 0} {n : ℕ} {cont : List A} {cont_queue out_queue : Threads ℕ} {sn : Sending A}
    {id : ℕ} {sent received : List A} (t : Threads ℕ)
    → IsPaired n cont cont_queue out_queue sn (freeing id) sent received
    → Reach kept 1 1 0 n t
    → t.received ≡ cont_queue.received
    → t.sent ≡ cont_queue.sent ++ (id ∷ [])
    → IsPaired n cont t out_queue sn out_of_call sent received
free_block-IsPaired {n = n} {id = id} t o r same_received grown = record {
  reached_free = r;
  reached_used = o.reached_used;
  freed = o.freed ++ (id ∷ []);
  pending = o.pending;
  elements = o.elements;
  taken = same_received ∙ o.taken;
  got = o.got ∙ sym (append-nil (o.freed ++ (id ∷ [])));
  given = grown ∙ ap (λ s. s ++ (id ∷ [])) o.given ∙ append_assoc (from 0 n) o.freed (id ∷ []);
  waits = o.waits;
  order = o.order;
  points = o.points;
  keeps = o.keeps;
  size = o.size;
}
