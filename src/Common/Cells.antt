-- ===== src/Common/Cells.antt =====
-- A list stored in the cells of a ring, from the cell `h` on.
use Prim.Native.Nat.{ℕ, ◌+◌, ◌≤◌, ◌<◌}
use mathlib.Core.Path.{◌≡◌, sym, ap, ◌∙◌}
use mathlib.Core.Logic.{◌≢◌}
use mathlib.Core.Option.{some}
use mathlib.Core.List.{List, [], ◌∷◌, ◌++◌}
use native.Mathlib.Omega.{arith}
use native.Mathlib.Decide.{ℕ_discrete}
use vee.Common.Lists.{
  length, get_elem?, set, length-append, get_elem?-set_self, get_elem?-set_ne,
  get_elem?-append_left, get_elem?-append_last,
}
use vee.Common.Ring.{cell, cell-zero, cell-next, cell-lt, cell-ne}

module _ {ℓ} {A : Type ℓ} (blocks : List A) (n h : ℕ) (xs : List A) (v : A)
    (full : length blocks ≡ n) (inside : h < n)
    (stored : (k : ℕ) → k < length xs → get_elem? blocks (cell n h k) ≡ get_elem? xs k) where
  -- Writing the block behind the last one appends to the list.
  pub stored-append :
      length xs < n
      → (k : ℕ) → k < length (xs ++ (v ∷ []))
      → get_elem? (set blocks (cell n h (length xs)) v) (cell n h k) ≡ get_elem? (xs ++ (v ∷ [])) k
  stored-append room k lt = elim (ℕ_discrete k (length xs)) [
    | yes e ↦
        subst_cell e (
          get_elem?-set_self blocks (cell n h (length xs)) v
            (omega (arith, cell-lt n h (length xs))))
        ∙ sym (get_elem?-append_last xs v k e)
    | no ne ↦
        get_elem?-set_ne blocks (cell n h (length xs)) (cell n h k) v (
          cell-ne n h (length xs) k inside room (omega (arith, length-append xs (v ∷ [])))
            (λ e. ne (sym e)))
        ∙ stored k (omega (arith, length-append xs (v ∷ [])))
        ∙ sym (get_elem?-append_left xs (v ∷ []) k (omega (arith, length-append xs (v ∷ []))))
  ]
    where
      subst_cell :
          k ≡ length xs
          → get_elem? (set blocks (cell n h (length xs)) v) (cell n h (length xs)) ≡ some v
          → get_elem? (set blocks (cell n h (length xs)) v) (cell n h k) ≡ some v
      subst_cell e p = rw e p

suc_elem {ℓ} :
    {A : Type ℓ} (x : A) (xs : List A) (j : ℕ) → get_elem? (x ∷ xs) (j + 1) ≡ get_elem? xs j
suc_elem x xs j = ground arith

module _ {ℓ} {A : Type ℓ} (blocks : List A) (n h : ℕ) (x : A) (xs : List A)
    (stored : (k : ℕ)
      → k < length (x ∷ xs)
      → get_elem? blocks (cell n h k) ≡ get_elem? (x ∷ xs) k) where
  -- Going on to the next block drops the head of the list.
  pub stored-next :
      (k : ℕ) → k < length xs → get_elem? blocks (cell n (cell n h 1) k) ≡ get_elem? xs k
  stored-next k lt =
      ap (get_elem? blocks) (cell-next n h k) ∙ stored (k + 1) (omega arith) ∙ suc_elem x xs k

  -- So it does when the block that it leaves is changed.
  pub stored-drop :
      (w : A)
      → h < n
      → length (x ∷ xs) ≤ n
      → (k : ℕ) → k < length xs
      → get_elem? (set blocks h w) (cell n (cell n h 1) k) ≡ get_elem? xs k
  stored-drop w inside fits k lt =
      get_elem?-set_ne blocks h (cell n (cell n h 1) k) w apart ∙ stored-next k lt
    where
      apart : h ≢ cell n (cell n h 1) k
      apart e =
          cell-ne n h 0 (k + 1) inside (omega arith) (omega arith) (omega arith)
            (cell-zero n h inside ∙ e ∙ cell-next n h k)
