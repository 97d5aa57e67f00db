-- ===== src/Lockfree/Threads/Order.antt =====
-- One producer and one consumer on an `atqueue`: what each step keeps.
use vee.Common.{
  ℕ, suc, ◌+◌, ◌≡◌, ◌∙◌, refl, sym, ap, subst, true, false, none, some, List, [], ◌∷◌, ◌++◌,
  append_assoc, length, get_elem?, set, cell, cell-zero, cell-lt, cell-next, drop, arith,
  length-append, get_elem?-set_self,
}
use mathlib.Core.Option.{some_inj}
use vee.Lockfree.AtQueue.{AtQueue, is_null, next_index}
use vee.Lockfree.AtQueue.Holds.{Holds, next_index-cell, next_index-lt}
use vee.Lockfree.Threads.{
  PutPc, resting, loaded, free, claimed, stored, GetPc, waiting, looked, full, won, taken,
}
use vee.Lockfree.Threads.Single.{at_base, lag, lead, skip, Putting, Getting, IsOrdered}
use vee.Lockfree.Threads.Moves.{
  null-room, not_null-some, store-Holds, publish-Holds, first-stored, take-Holds, clear-Holds,
}
use vee.Lockfree.Threads.Locals.{
  drop-append_left, cons-length, Getting-more, skip-le, Putting-take, Putting-clear,
}

module _ {A : Type 0} {q : AtQueue A} {g : GetPc} {sent received : List A} where
  -- The producer's local steps.
  pub put-IsOrdered :
      {p : PutPc A} (p' : PutPc A) (o : IsOrdered q p g sent received)
      → lag p' ≡ lag p
      → Putting q.rear q.capacity q.cont o.base (length o.ys) p'
      → IsOrdered q p' g sent received
  put-IsOrdered {p} p' o e k = record {
    base = o.base;
    ys = o.ys;
    holds = o.holds;
    fits = omega (arith, o.fits, e);
    front_at = o.front_at;
    rear_at = o.rear_at ∙ ap (λ l. cell q.capacity o.base (length o.ys + l)) (sym e);
    kept = o.kept;
    putting = k;
    getting = o.getting;
  }

  rear-cell :
      {p : PutPc A} (o : IsOrdered q p g sent received)
      → lag p ≡ 0
      → q.rear ≡ cell q.capacity o.base (length o.ys)
  rear-cell o e = o.rear_at ∙ ap (cell q.capacity o.base) (omega arith)

  pub see_free-IsOrdered :
      {v : A} {r : ℕ}
      → IsOrdered q (loaded v r) g sent received
      → is_null q.ptrs r ≡ some true
      → IsOrdered q (free v r) g sent received
  see_free-IsOrdered {v} {r} o null =
      put-IsOrdered (free v r) o refl
        (o.putting, null-room q o.base o.ys o.holds r (o.putting ∙ rear-cell o refl) null)

  pub claim-IsOrdered :
      {v : A} {r : ℕ}
      → IsOrdered q (free v r) g sent received
      → IsOrdered (record q { rear = next_index q.capacity r }) (claimed v r) g sent received
  claim-IsOrdered {v} {r} o = record {
    base = o.base;
    ys = o.ys;
    holds = o.holds;
    fits = omega (arith, o.putting.1);
    front_at = o.front_at;
    rear_at =
        ap (next_index q.capacity) here
        ∙ next_index-cell q.capacity o.base (length o.ys) o.holds.pos o.holds.small;
    kept = o.kept;
    putting = here;
    getting = o.getting;
  }
    where
      here : r ≡ cell q.capacity o.base (length o.ys)
      here = o.putting.0 ∙ rear-cell o refl

  pub store-IsOrdered :
      {v : A} {r : ℕ}
      → IsOrdered q (claimed v r) g sent received
      → IsOrdered (record q { cont = set q.cont r v }) (stored v r) g sent received
  store-IsOrdered {v} {r} o = record {
    base = o.base;
    ys = o.ys;
    holds = store-Holds q o.base o.ys o.holds v r o.putting (omega (arith, o.fits));
    fits = o.fits;
    front_at = o.front_at;
    rear_at = o.rear_at;
    kept = o.kept;
    putting = (
      o.putting,
      get_elem?-set_self q.cont r v (
          omega (
            arith,
            o.putting,
            o.holds.cont_length,
            cell-lt q.capacity o.base (length o.ys) o.holds.pos,
          )),
    );
    getting = o.getting;
  }

  pub publish-IsOrdered :
      {v : A} {r : ℕ}
      → IsOrdered q (stored v r) g sent received
      → IsOrdered (record q { ptrs = set q.ptrs r (some r) }) resting g (sent ++ (v ∷ [])) received
  publish-IsOrdered {v} {r} o = record {
    base = o.base;
    ys = o.ys ++ (v ∷ []);
    holds = publish-Holds q o.base o.ys o.holds v r o.putting.0 (omega (arith, o.fits)) o.putting.1;
    fits = omega (arith, o.fits, grown);
    front_at = o.front_at;
    rear_at = o.rear_at ∙ ap (cell q.capacity o.base) (omega (arith, grown));
    kept =
        ap (λ xs. xs ++ (v ∷ [])) o.kept
        ∙ append_assoc received (drop (skip g) o.ys) (v ∷ [])
        ∙ ap (λ xs. received ++ xs)
            (sym (
              drop-append_left (skip g) o.ys (v ∷ [])
                (skip-le q.front o.base (length o.ys) g o.getting)));
    putting = tt;
    getting =
        Getting-more q.front o.base (length o.ys) (length (o.ys ++ (v ∷ []))) g
          (omega (arith, grown)) o.getting;
  }
    where
      grown : length (o.ys ++ (v ∷ [])) ≡ length o.ys + 1
      grown = length-append o.ys (v ∷ [])

module _ {A : Type 0} {q : AtQueue A} {p : PutPc A} {sent received : List A} where
  -- The consumer's local steps.
  pub get-IsOrdered :
      {g : GetPc} (g' : GetPc) (o : IsOrdered q p g sent received)
      → lead g' ≡ lead g
      → skip g' ≡ skip g
      → Getting q.front o.base (length o.ys) g'
      → IsOrdered q p g' sent received
  get-IsOrdered {g} g' o e e' k = record {
    base = o.base;
    ys = o.ys;
    holds = o.holds;
    fits = o.fits;
    front_at = o.front_at ∙ ap (cell q.capacity o.base) (sym e);
    rear_at = o.rear_at;
    kept = o.kept ∙ ap (λ n. received ++ drop n o.ys) (sym e');
    putting = o.putting;
    getting = k;
  }

  pub see_full-IsOrdered :
      {f : ℕ}
      → IsOrdered q p (looked f) sent received
      → is_null q.ptrs f ≡ some false
      → IsOrdered q p (full f) sent received
  see_full-IsOrdered {f} o shown =
      get-IsOrdered (full f) o refl refl
        (o.getting, not_null-some q o.base o.ys o.holds f (o.getting ∙ o.front_at) shown)

  pub win-IsOrdered :
      {f : ℕ}
      → IsOrdered q p (full f) sent received
      → IsOrdered (record q { front = next_index q.capacity f }) p (won f) sent received
  win-IsOrdered {f} o = record {
    base = o.base;
    ys = o.ys;
    holds = o.holds;
    fits = o.fits;
    front_at =
        ap (next_index q.capacity) here
        ∙ next_index-lt q.capacity o.base o.holds.front_in o.holds.small;
    rear_at = o.rear_at;
    kept = o.kept;
    putting = o.putting;
    getting = (here, o.getting.1);
  }
    where
      here : f ≡ o.base
      here = o.getting.0 ∙ o.front_at ∙ cell-zero q.capacity o.base o.holds.front_in

  -- The read into `out` of the cell in front.
  take_first :
      {f : ℕ} (y x x' : A) (xs : List A) (o : IsOrdered q p (won f) sent received)
      → o.ys ≡ y ∷ xs
      → get_elem? q.cont o.base ≡ some x
      → IsOrdered
          (record q { cont = set q.cont o.base x' })
          p
          (taken o.base)
          sent
          (received ++ (x ∷ []))
  take_first {f} y x x' xs o e content = record {
    base = o.base;
    ys = x' ∷ xs;
    holds = take-Holds q o.base y xs now x';
    fits = omega (arith, o.fits, size);
    front_at = o.front_at;
    rear_at = o.rear_at ∙ ap (λ n. cell q.capacity o.base (n + lag p)) size;
    kept =
        o.kept
        ∙ ap (λ ys. received ++ ys) e
        ∙ ap (λ y. received ++ (y ∷ xs)) first
        ∙ sym (append_assoc received (x ∷ []) xs);
    putting =
        Putting-take q.rear q.capacity q.cont o.base (length (x' ∷ xs)) x' p o.holds.front_in
          (omega arith) (omega (arith, o.fits, size))
          (subst (λ n. Putting q.rear q.capacity q.cont o.base n p) size o.putting);
    getting = (refl, omega arith);
  }
    where
      now : Holds (at_base q o.base (y ∷ xs)) (y ∷ xs)
      now = subst (λ ys. Holds (at_base q o.base ys) ys) e o.holds

      size : length o.ys ≡ suc (length xs)
      size = ap length e

      first : y ≡ x
      first = some_inj.0 (sym (first-stored q o.base y xs now) ∙ content)

  pub take-IsOrdered :
      {f : ℕ} (x x' : A)
      → IsOrdered q p (won f) sent received
      → get_elem? q.cont f ≡ some x
      → IsOrdered (record q { cont = set q.cont f x' }) p (taken f) sent (received ++ (x ∷ []))
  take-IsOrdered {f} x x' o content =
      let (y, xs, e) = cons-length o.ys o.getting.1 in
      subst
        (λ f.
          IsOrdered (record q { cont = set q.cont f x' }) p (taken f) sent (received ++ (x ∷ [])))
        (sym o.getting.0)
        (take_first y x x' xs o e (subst (λ f. get_elem? q.cont f ≡ some x) o.getting.0 content))

  -- The store of the null pointer.
  clear_first :
      {f : ℕ} (y : A) (xs : List A) (o : IsOrdered q p (taken f) sent received)
      → o.ys ≡ y ∷ xs
      → IsOrdered (record q { ptrs = set q.ptrs o.base none }) p waiting sent received
  clear_first {f} y xs o e = record {
    base = cell q.capacity o.base 1;
    ys = xs;
    holds = clear-Holds q o.base y xs (subst (λ ys. Holds (at_base q o.base ys) ys) e o.holds);
    fits = omega (arith, o.fits, size);
    front_at =
        o.front_at
        ∙ sym (
            cell-zero q.capacity (cell q.capacity o.base 1)
              (cell-lt q.capacity o.base 1 o.holds.pos));
    rear_at =
        o.rear_at
        ∙ ap (cell q.capacity o.base) (omega (arith, size))
        ∙ sym (cell-next q.capacity o.base (length xs + lag p));
    kept = o.kept ∙ ap (λ ys. received ++ drop 1 ys) e;
    putting =
        Putting-clear q.rear q.capacity q.cont o.base (length xs) p
          (subst (λ n. Putting q.rear q.capacity q.cont o.base n p) size o.putting);
    getting = tt;
  }
    where
      size : length o.ys ≡ suc (length xs)
      size = ap length e

  pub clear-IsOrdered :
      {f : ℕ}
      → IsOrdered q p (taken f) sent received
      → IsOrdered (record q { ptrs = set q.ptrs f none }) p waiting sent received
  clear-IsOrdered {f} o =
      let (y, xs, e) = cons-length o.ys o.getting.1 in
      subst (λ f. IsOrdered (record q { ptrs = set q.ptrs f none }) p waiting sent received)
        (sym o.getting.0) (clear_first y xs o e)
