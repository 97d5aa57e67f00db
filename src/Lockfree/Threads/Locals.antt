-- ===== src/Lockfree/Threads/Locals.antt =====
-- What the local states of the threads keep when the ring changes.
use vee.Common.{
  ℕ, zero, suc, ◌+◌, ◌≤◌, ◌<◌, ◌≡◌, ◌∙◌, refl, sym, ap, List, [], ◌∷◌, ◌++◌, length, set, cell,
  cell-zero, cell-ne, cell-next, drop, arith, get_elem?-set_ne,
}
use vee.Lockfree.Threads.{
  PutPc, resting, calling, loaded, free, claimed, stored, GetPc, waiting, asking, looked, full, won,
  taken,
}
use vee.Lockfree.Threads.Single.{lag, skip, Putting, Getting}

pub drop-append_left :
    {A : Type 0} (n : ℕ) (xs ys : List A) → n ≤ length xs → drop n (xs ++ ys) ≡ drop n xs ++ ys
drop-append_left zero xs ys le = refl
drop-append_left (suc n) [] ys le = absurd (omega arith)
drop-append_left (suc n) (x ∷ xs) ys le = drop-append_left n xs ys (omega arith)

pub cons-length :
    {A : Type 0} (ys : List A) → 0 < length ys → (x : A) × (xs : List A) × (ys ≡ x ∷ xs)
cons-length [] lt = absurd (omega arith)
cons-length (x ∷ xs) lt = (x, xs, refl)

pub Getting-more :
    (front base n n' : ℕ) (g : GetPc) → n ≤ n' → Getting front base n g → Getting front base n' g
Getting-more front base n n' waiting le k = k
Getting-more front base n n' asking le k = k
Getting-more front base n n' (looked f) le k = k
Getting-more front base n n' (full f) le (e, lt) = (e, omega arith)
Getting-more front base n n' (won f) le (e, lt) = (e, omega arith)
Getting-more front base n n' (taken f) le (e, lt) = (e, omega arith)

pub skip-le : (front base n : ℕ) (g : GetPc) → Getting front base n g → skip g ≤ n
skip-le front base n waiting k = omega arith
skip-le front base n asking k = omega arith
skip-le front base n (looked f) k = omega arith
skip-le front base n (full f) k = omega arith
skip-le front base n (won f) k = omega arith
skip-le front base n (taken f) (e, lt) = lt

pub skip-le_one : (g : GetPc) → skip g ≤ 1
skip-le_one waiting = omega arith
skip-le_one asking = omega arith
skip-le_one (looked f) = omega arith
skip-le_one (full f) = omega arith
skip-le_one (won f) = omega arith
skip-le_one (taken f) = omega arith

module _ {A : Type 0} where
  -- The first cell changes under a producer that works on another.
  pub Putting-take :
      (rear capacity : ℕ) (cont : List A) (base n : ℕ) (y : A) (p : PutPc A)
      → base < capacity
      → 0 < n
      → n + lag p ≤ capacity
      → Putting rear capacity cont base n p
      → Putting rear capacity (set cont base y) base n p
  Putting-take rear capacity cont base n y resting lt pos le k = k
  Putting-take rear capacity cont base n y (calling v) lt pos le k = k
  Putting-take rear capacity cont base n y (loaded v r) lt pos le k = k
  Putting-take rear capacity cont base n y (free v r) lt pos le k = k
  Putting-take rear capacity cont base n y (claimed v r) lt pos le k = k
  Putting-take rear capacity cont base n y (stored v r) lt pos le (e, content) = (
    e,
    get_elem?-set_ne cont base r y (λ eb.
          cell-ne capacity base 0 n lt (omega arith) (omega arith) (omega arith)
            (cell-zero capacity base lt ∙ eb ∙ e))
        ∙ content,
  )

  pub Putting-clear :
      (rear capacity : ℕ) (cont : List A) (base n : ℕ) (p : PutPc A)
      → Putting rear capacity cont base (suc n) p
      → Putting rear capacity cont (cell capacity base 1) n p
  Putting-clear rear capacity cont base n resting k = k
  Putting-clear rear capacity cont base n (calling v) k = k
  Putting-clear rear capacity cont base n (loaded v r) k = k
  Putting-clear rear capacity cont base n (free v r) (e, lt) = (e, omega arith)
  Putting-clear rear capacity cont base n (claimed v r) k = k ∙ back n
    where
      back : (n : ℕ) → cell capacity base (suc n) ≡ cell capacity (cell capacity base 1) n
      back n = ap (cell capacity base) (omega arith) ∙ sym (cell-next capacity base n)
  Putting-clear rear capacity cont base n (stored v r) (k, content) = (k ∙ back n, content)
    where
      back : (n : ℕ) → cell capacity base (suc n) ≡ cell capacity (cell capacity base 1) n
      back n = ap (cell capacity base) (omega arith) ∙ sym (cell-next capacity base n)
