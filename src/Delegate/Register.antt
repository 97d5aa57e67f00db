-- ===== src/Delegate/Register.antt =====
-- Registering in a delegate: what each branch does, and what a merge keeps.
use vee.Common.{
  ℕ, ◌+◌, ◌≡◌, ◌∙◌, ap, none, some, [], ◌∷◌, arith, inl, inr, ◌⊎◌, Option-cases, ◌==◌,
  if◌then◌else◌,
}
use vee.Exception.Exl.{key_generation_failed_exception, key_already_exist_exception}
use vee.Delegate.Entries.{Table, insert, lookup, count}
use vee.Delegate.Keys.{count-insert, lookup-insert}
use vee.Delegate.{
  Callable, Delegate, register_callable, register_pair, insert_all, insert_new, insert_all_new,
  merge,
}
use vee.Delegate.Branches.{
  register_callable-key, register_callable-none, register_pair-new, register_pair-old,
  insert_new-new, insert_new-old,
}

module _ {A S : Type 0} where
  -- A key that is taken makes `operator+=` of a pair throw `key_already_exist_exception`, and the
  -- delegate stays as it is. A new key is found afterwards with the registered object, every other
  -- key as before, and the table of the plain functions is as before.
  pub register_pair_lem :
      (key : ℕ) (f : Callable A S) (d : Delegate A S)
      → ((old : Callable A S) × (lookup key d.usrcont ≡ some old)
          × (register_pair key f d ≡ (some key_already_exist_exception, d)))
        ⊎ ((lookup key d.usrcont ≡ none)
            × ((register_pair key f d).0 ≡ none)
            × ((j : ℕ)
                → lookup j (register_pair key f d).1.usrcont
                  ≡ (if j == key then some f else lookup j d.usrcont))
            × ((register_pair key f d).1.cont ≡ d.cont))
  register_pair_lem key f d = elim (Option-cases (lookup key d.usrcont)) [
    | inl e ↦
        let r = register_pair-new key f d e in
        inr (
          e,
          ap (λ t. t.0) r,
          (λ j. ap (λ t. lookup j t.1.usrcont) r ∙ lookup-insert j key f d.usrcont e),
          ap (λ t. t.1.cont) r,
        )
    | inr (old, e) ↦ inl (old, e, register_pair-old key f old d e)
  ]

  -- A plain function is registered once more, and nothing else changes; any other object makes
  -- `operator+=` throw `key_generation_failed_exception`, and the delegate stays as it is.
  pub register_callable_lem :
      (f : Callable A S) (d : Delegate A S)
      → ((f.target ≡ none) × (register_callable f d ≡ (some key_generation_failed_exception, d)))
        ⊎ ((key : ℕ) × (f.target ≡ some key)
            × ((register_callable f d).0 ≡ none)
            × ((j : ℕ)
                → count j (register_callable f d).1.cont
                  ≡ (if j == key then 1 else 0) + count j d.cont)
            × ((register_callable f d).1.usrcont ≡ d.usrcont))
  register_callable_lem f d = elim (Option-cases f.target) [
    | inl e ↦ inl (e, register_callable-none f d e)
    | inr (key, e) ↦
        let r = register_callable-key f d key e in
        inr (
          key,
          e,
          ap (λ t. t.0) r,
          (λ j. ap (λ t. count j t.1.cont) r ∙ count-insert j key f d.cont),
          ap (λ t. t.1.usrcont) r,
        )
  ]

  count-insert_all :
      (j : ℕ) (other m : Table (Callable A S))
      → count j (insert_all other m) ≡ count j other + count j m
  unfolding insert_all
  count-insert_all j [] m = omega arith
  count-insert_all j ((k, f) ∷ other) m =
      omega (arith, count-insert_all j other (insert k f m), count-insert j k f m)

  lookup-insert_new :
      (j k : ℕ) (f : Callable A S) (m : Table (Callable A S))
      → lookup j (insert_new k f m)
        ≡ (elim (lookup j m) [ some old ↦ some old | none ↦ if j == k then some f else none ])
  lookup-insert_new j k f m = elim (Option-cases (lookup k m)) [
    | inl e ↦ ground (arith, insert_new-new k f m e, lookup-insert j k f m e)
    | inr (old, e) ↦ ground (arith, insert_new-old k f old m e)
  ]

  lookup-insert_all_new :
      (j : ℕ) (other m : Table (Callable A S))
      → lookup j (insert_all_new other m)
        ≡ (elim (lookup j m) [ some old ↦ some old | none ↦ lookup j other ])
  unfolding insert_all_new
  lookup-insert_all_new j [] m = ground arith
  lookup-insert_all_new j ((k, f) ∷ other) m =
      ground (arith, lookup-insert_all_new j other (insert_new k f m), lookup-insert_new j k f m)

  -- `operator+=` of another delegate registers each of its plain functions as often as it has it,
  -- and each of its user keys that is new; a key that both have keeps the object it had.
  pub merge_lem :
      (d rhs : Delegate A S) (j : ℕ)
      → (count j (merge d rhs).cont ≡ count j rhs.cont + count j d.cont)
        × (lookup j (merge d rhs).usrcont
            ≡ (elim (lookup j d.usrcont) [ some old ↦ some old | none ↦ lookup j rhs.usrcont ]))
  unfolding merge
  merge_lem d rhs j =
      (count-insert_all j rhs.cont d.cont, lookup-insert_all_new j rhs.usrcont d.usrcont)
