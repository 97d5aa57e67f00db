-- ===== src/Lockfree/Threads/Moves.antt =====
-- What the steps of one producer and one consumer do to the cells of the ring.
use vee.Common.{
  ℕ, zero, suc, ◌<◌, ◌≡◌, ◌∙◌, refl, sym, ap, subst, true, false, none, some, List, [], ◌∷◌, ◌++◌,
  length, get_elem?, set, set_same, cell, cell-zero, cell-full, cell-ne, arith, length-set,
  get_elem?-set_ne, get_elem?-set_self, ℕ_discrete,
}
use vee.Lockfree.AtQueue.{AtQueue, is_null, next_index}
use vee.Lockfree.AtQueue.Holds.{Holds, next_index-lt}
use vee.Lockfree.AtQueue.Enqueue.{stored_after-Holds}
use vee.Lockfree.AtQueue.Dequeue.{taken_after-Holds}
use vee.Lockfree.Threads.Single.{at_base}

module _ {A : Type 0} (q : AtQueue A) (base : ℕ) (ys : List A)
    (h : Holds (at_base q base ys) ys) where
  -- A null pointer behind the values shows a free cell.
  pub null-room :
      (r : ℕ)
      → r ≡ cell q.capacity base (length ys)
      → is_null q.ptrs r ≡ some true
      → length ys < q.capacity
  null-room r e null = elim (ℕ_discrete (length ys) q.capacity) [
    | no ne ↦ omega (arith, h.fits)
    | yes full ↦ absurd (ground (arith, shown, null))
  ]
    where
      at_start : length ys ≡ q.capacity → r ≡ cell q.capacity base 0
      at_start full =
          e
          ∙ ap (cell q.capacity base) full
          ∙ cell-full q.capacity base h.front_in
          ∙ sym (cell-zero q.capacity base h.front_in)

      shown : length ys ≡ q.capacity → is_null q.ptrs r ≡ some false
      shown full =
          ap (is_null q.ptrs) (at_start full) ∙ ground (arith, h.shown 0 (omega (arith, h.pos)))

  -- One that is not null, at the front, shows a value.
  pub not_null-some :
      (f : ℕ) → f ≡ cell q.capacity base 0 → is_null q.ptrs f ≡ some false → 0 < length ys
  not_null-some f e full = elim (ℕ_discrete (length ys) 0) [
    | no ne ↦ omega arith
    | yes z ↦ absurd (ground (arith, null z, full))
  ]
    where
      null : length ys ≡ 0 → is_null q.ptrs f ≡ some true
      null z = ap (is_null q.ptrs) e ∙ ground (arith, h.free 0 (omega arith) h.pos)

  -- A store into the cell behind the values.
  pub store-Holds :
      (v : A) (r : ℕ)
      → r ≡ cell q.capacity base (length ys)
      → length ys < q.capacity
      → Holds (at_base (record q { cont = set q.cont r v }) base ys) ys
  store-Holds v r e room = record {
    pos = h.pos;
    small = h.small;
    cont_length = length-set q.cont r v ∙ h.cont_length;
    ptrs_length = h.ptrs_length;
    front_in = h.front_in;
    fits = h.fits;
    rear_at = refl;
    stored = λ k lt.
        get_elem?-set_ne q.cont r (cell q.capacity base k) v (λ er.
          cell-ne q.capacity base (length ys) k h.front_in room (omega arith) (omega arith)
            (sym e ∙ er))
        ∙ h.stored k lt;
    shown = h.shown;
    free = h.free;
  }

  -- The pointer to it shows one value more.
  publish_here :
      (v : A)
      → length ys < q.capacity
      → get_elem? q.cont (cell q.capacity base (length ys)) ≡ some v
      → Holds
          (at_base
            (record q {
              ptrs =
                  set q.ptrs
                    (cell q.capacity base (length ys))
                    (some (cell q.capacity base (length ys)));
            })
            base
            (ys ++ (v ∷ [])))
          (ys ++ (v ∷ []))
  publish_here v room content =
      let w = stored_after-Holds (at_base q base ys) v ys h room in
      record {
        pos = w.pos;
        small = w.small;
        cont_length = h.cont_length;
        ptrs_length = w.ptrs_length;
        front_in = w.front_in;
        fits = w.fits;
        rear_at = refl;
        stored = λ k lt.
            ap (λ c. get_elem? c (cell q.capacity base k))
              (sym (set_same q.cont (cell q.capacity base (length ys)) v content))
            ∙ w.stored k lt;
        shown = w.shown;
        free = w.free;
      }

  pub publish-Holds :
      (v : A) (r : ℕ)
      → r ≡ cell q.capacity base (length ys)
      → length ys < q.capacity
      → get_elem? q.cont r ≡ some v
      → Holds
          (at_base (record q { ptrs = set q.ptrs r (some r) }) base (ys ++ (v ∷ [])))
          (ys ++ (v ∷ []))
  publish-Holds v r e room content =
      subst
        (λ r.
          Holds (at_base (record q { ptrs = set q.ptrs r (some r) }) base (ys ++ (v ∷ [])))
            (ys ++ (v ∷ [])))
        (sym e) (publish_here v room (subst (λ r. get_elem? q.cont r ≡ some v) e content))

module _ {A : Type 0} (q : AtQueue A) (base : ℕ) (x : A) (xs : List A)
    (h : Holds (at_base q base (x ∷ xs)) (x ∷ xs)) where
  pub first-stored : get_elem? q.cont base ≡ some x
  first-stored =
      ap (get_elem? q.cont) (sym (cell-zero q.capacity base h.front_in)) ∙ h.stored 0 (omega arith)

  take_stored :
      (y : A) (k : ℕ)
      → k < length (y ∷ xs)
      → get_elem? (set q.cont base y) (cell q.capacity base k) ≡ get_elem? (y ∷ xs) k
  take_stored y zero lt =
      ap (get_elem? (set q.cont base y)) (cell-zero q.capacity base h.front_in)
      ∙ get_elem?-set_self q.cont base y (omega (arith, h.cont_length, h.front_in))
  take_stored y (suc k) lt =
      get_elem?-set_ne q.cont base (cell q.capacity base (suc k)) y (λ e.
        cell-ne q.capacity base 0 (suc k) h.front_in h.pos (omega (arith, h.fits)) (omega arith)
          (cell-zero q.capacity base h.front_in ∙ e))
      ∙ h.stored (suc k) lt

  -- The consumer's read leaves something else in the first cell.
  pub take-Holds :
      (y : A) → Holds (at_base (record q { cont = set q.cont base y }) base (y ∷ xs)) (y ∷ xs)
  take-Holds y = record {
    pos = h.pos;
    small = h.small;
    cont_length = length-set q.cont base y ∙ h.cont_length;
    ptrs_length = h.ptrs_length;
    front_in = h.front_in;
    fits = h.fits;
    rear_at = refl;
    stored = take_stored y;
    shown = h.shown;
    free = h.free;
  }

  -- The null pointer frees that cell.
  clear_next :
      Holds (at_base (record q { ptrs = set q.ptrs base none }) (next_index q.capacity base) xs) xs
  clear_next =
      let w = taken_after-Holds (λ x. x) (at_base q base (x ∷ xs)) x xs h in
      record {
        pos = w.pos;
        small = w.small;
        cont_length = h.cont_length;
        ptrs_length = w.ptrs_length;
        front_in = w.front_in;
        fits = w.fits;
        rear_at = refl;
        stored = λ k lt.
            ap (λ c. get_elem? c (cell q.capacity (next_index q.capacity base) k))
              (sym (set_same q.cont base x first-stored))
            ∙ w.stored k lt;
        shown = w.shown;
        free = w.free;
      }

  pub clear-Holds :
      Holds (at_base (record q { ptrs = set q.ptrs base none }) (cell q.capacity base 1) xs) xs
  clear-Holds =
      subst (λ b. Holds (at_base (record q { ptrs = set q.ptrs base none }) b xs) xs)
        (next_index-lt q.capacity base h.front_in h.small) clear_next
