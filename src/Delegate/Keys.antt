-- ===== src/Delegate/Keys.antt =====
-- The laws of the tables of vee/delegate.h.
use vee.Common.{
  ℕ, suc, ◌+◌, ◌-◌, ◌≤◌, ◌<◌, ◌≡◌, ◌≢◌, refl, ◌∙◌, ap, none, some, [], ◌∷◌, ◌++◌, ◌==◌, ltb,
  if◌then◌else◌, arith, Bool-cases, inl, inr, dec_lt, ℕ_discrete,
}
use vee.Delegate.Entries.{Table, insert, lookup, erase, count, Below, IsSorted}

module _ {V : Type 0} where
  pub count-insert :
      (j k : ℕ) (v : V) (m : Table V)
      → count j (insert k v m) ≡ (if j == k then 1 else 0) + count j m
  count-insert j k v [] = refl
  count-insert j k v ((i, w) ∷ m) = ground (arith, count-insert j k v m)

  count-insert_self : (k : ℕ) (v : V) (m : Table V) → count k (insert k v m) ≡ 1 + count k m
  count-insert_self k v m = ground (arith, count-insert k k v m)

  pub count-erase_self : (k : ℕ) (m : Table V) → count k (erase k m) ≡ count k m - 1
  count-erase_self k [] = refl
  count-erase_self k ((i, w) ∷ m) = ground (arith, count-erase_self k m)

  pub count-erase_ne : (j k : ℕ) (m : Table V) → j ≢ k → count j (erase k m) ≡ count j m
  count-erase_ne j k [] ne = refl
  count-erase_ne j k ((i, w) ∷ m) ne = ground (arith, count-erase_ne j k m ne)

  pub count_of_none : (k : ℕ) (m : Table V) → lookup k m ≡ none → count k m ≡ 0
  count_of_none k [] e = refl
  count_of_none k ((i, w) ∷ m) e = ground (arith, count_of_none k m)

  pub count_of_some : (k : ℕ) (m : Table V) (v : V) → lookup k m ≡ some v → 0 < count k m
  count_of_some k [] v e = cc
  count_of_some k ((i, w) ∷ m) v e = ground (arith, count_of_some k m v)

  pub lookup-insert :
      (j k : ℕ) (v : V) (m : Table V)
      → lookup k m ≡ none
      → lookup j (insert k v m) ≡ (if j == k then some v else lookup j m)
  lookup-insert j k v [] e = refl
  lookup-insert j k v ((i, w) ∷ m) e = ground (arith, lookup-insert j k v m)

  -- Erasing a key that was inserted anew gives the table back.
  pub erase-insert : (k : ℕ) (v : V) (m : Table V) → lookup k m ≡ none → erase k (insert k v m) ≡ m
  erase-insert k v [] e = ground arith
  erase-insert k v ((i, w) ∷ m) e = ground (arith, erase-insert k v m)

  pub lookup-erase_ne : (j k : ℕ) (m : Table V) → j ≢ k → lookup j (erase k m) ≡ lookup j m
  lookup-erase_ne j k [] ne = refl
  lookup-erase_ne j k ((i, w) ∷ m) ne = ground (arith, lookup-erase_ne j k m ne)

  pub lookup-insert_self :
      (k : ℕ) (v : V) (m : Table V) → (w : V) × (lookup k (insert k v m) ≡ some w)
  lookup-insert_self k v [] = (v, ground arith)
  lookup-insert_self k v ((i, w) ∷ m) = elim (dec_lt k i) [
    | yes lt ↦ (v, ground arith)
    | no ge ↦ elim (ℕ_discrete k i) [
      | yes e ↦ (w, ground arith)
      | no ne ↦ let r = lookup-insert_self k v m in (r.0, ground (arith, r.1))
    ]
  ]

  pub count-erase-insert :
      (j k : ℕ) (v : V) (m : Table V) → count j (erase k (insert k v m)) ≡ count j m
  count-erase-insert j k v m = elim (ℕ_discrete j k) [
    | yes e ↦ rw e (omega (arith, count-erase_self k (insert k v m), count-insert_self k v m))
    | no ne ↦ count-erase_ne j k (insert k v m) ne ∙ ground (arith, count-insert j k v m)
  ]

  Below-trans : (i j : ℕ) (m : Table V) → i ≤ j → Below j m → Below i m
  Below-trans i j [] le b = tt
  Below-trans i j ((k, w) ∷ m) le b = (omega arith, Below-trans i j m le b.1)

  Below-insert : (i k : ℕ) (v : V) (m : Table V) → i ≤ k → Below i m → Below i (insert k v m)
  Below-insert i k v [] le b = (le, tt)
  Below-insert i k v ((j, w) ∷ m) le b = ground (arith, Below-insert i k v m le b.1)

  pub IsSorted-insert : (k : ℕ) (v : V) (m : Table V) → IsSorted m → IsSorted (insert k v m)
  IsSorted-insert k v [] s = (tt, tt)
  IsSorted-insert k v ((j, w) ∷ m) s = elim (Bool-cases (ltb k j)) [
    | inl lt ↦ rw lt ((ground arith, Below-trans k j m (ground arith) s.0), s)
    | inr ge ↦ rw ge (Below-insert j k v m (ground arith) s.0, IsSorted-insert k v m s.1)
  ]

  Below-erase : (i k : ℕ) (m : Table V) → Below i m → Below i (erase k m)
  Below-erase i k [] b = tt
  Below-erase i k ((j, w) ∷ m) b = elim (Bool-cases (k == j)) [
    | inl e ↦ rw e b.1
    | inr ne ↦ rw ne (b.0, Below-erase i k m b.1)
  ]

  pub IsSorted-erase : (k : ℕ) (m : Table V) → IsSorted m → IsSorted (erase k m)
  IsSorted-erase k [] s = tt
  IsSorted-erase k ((j, w) ∷ m) s = elim (Bool-cases (k == j)) [
    | inl e ↦ rw e s.1
    | inr ne ↦ rw ne (Below-erase j k m s.0, IsSorted-erase k m s.1)
  ]

  -- Where an entry is inserted: behind the keys up to its own, before the greater ones.
  pub record Split (k : ℕ) (v : V) (m : Table V) : Type 0 where
    pub before : Table V
    pub after : Table V
    pub whole : m ≡ before ++ after
    pub inserted : insert k v m ≡ before ++ ((k, v) ∷ after)
    pub up_to : (j : ℕ) → 0 < count j before → j ≤ k
    pub above : Below (suc k) after

  pub insert-Split : (k : ℕ) (v : V) (m : Table V) → IsSorted m → Split k v m
  insert-Split k v [] s = record {
    before = [];
    after = [];
    whole = refl;
    inserted = refl;
    up_to = λ j lt. elim lt [ ];
    above = tt;
  }
  insert-Split k v ((i, w) ∷ m) s = elim (dec_lt k i) [
    | yes lt ↦ record {
      before = [];
      after = (i, w) ∷ m;
      whole = refl;
      inserted = ground arith;
      up_to = λ j lt. elim lt [ ];
      above = (lt, Below-trans (suc k) i m lt s.0);
    }
    | no ge ↦
        let r = insert-Split k v m s.1 in
        record {
          before = (i, w) ∷ r.before;
          after = r.after;
          whole = ap (λ t. (i, w) ∷ t) r.whole;
          inserted = ground (arith, r.inserted);
          up_to = λ j lt. ground (arith, r.up_to j);
          above = r.above;
        }
  ]
