-- ===== src/Delegate/Remove.antt =====
-- Removing from a delegate, and how it undoes a registration.
use vee.Common.{
  ℕ, ◌-◌, ◌<◌, ◌≡◌, ◌∙◌, ap, none, some, arith, inl, inr, ◌⊎◌, Option-cases, ℕ_discrete,
}
use vee.Exception.Exl.{key_generation_failed_exception, target_not_found_exception}
use vee.Delegate.Entries.{insert, lookup, count}
use vee.Delegate.Keys.{
  count-erase_self, count-erase_ne, erase-insert, lookup-insert, count_of_some, lookup-insert_self,
  count-erase-insert,
}
use vee.Delegate.{Callable, Delegate, register_callable, register_pair, remove_callable, remove_key}
use vee.Delegate.Branches.{
  register_callable-key, register_pair-new, remove_callable-none, remove_callable-absent,
  remove_callable-found, remove_key-found,
}

module _ {A S : Type 0} where
  -- Where a user key is new, registering it and removing it gives back the very same delegate.
  pub remove_key-register_pair :
      (key : ℕ) (f : Callable A S) (d : Delegate A S)
      → lookup key d.usrcont ≡ none
      → remove_key key (register_pair key f d).1 ≡ (none, d)
  remove_key-register_pair key f d e =
      ap (λ t. remove_key key t.1) (register_pair-new key f d e)
      ∙ remove_key-found key f (record d { usrcont = insert key f d.usrcont })
          (lookup-insert key key f d.usrcont e ∙ ground arith)
      ∙ ap (λ m. (none, record d { usrcont = m })) (erase-insert key f d.usrcont e)

  -- `operator-=` of a callable object throws where the object has no address, and where its address
  -- is not registered, and the delegate stays as it is. Else one entry of the address goes, and the
  -- other addresses and the user's keys stay.
  pub remove_callable_lem :
      (f : Callable A S) (d : Delegate A S)
      → ((f.target ≡ none) × (remove_callable f d ≡ (some key_generation_failed_exception, d)))
        ⊎ ((key : ℕ) × (f.target ≡ some key)
            × (((lookup key d.cont ≡ none)
                  × (remove_callable f d ≡ (some target_not_found_exception, d)))
                ⊎ ((0 < count key d.cont)
                    × ((remove_callable f d).0 ≡ none)
                    × (count key (remove_callable f d).1.cont ≡ count key d.cont - 1)
                    × ((j : ℕ)
                        → (j ≡ key) ⊎ (count j (remove_callable f d).1.cont ≡ count j d.cont))
                    × ((remove_callable f d).1.usrcont ≡ d.usrcont))))
  remove_callable_lem f d = elim (Option-cases f.target) [
    | inl e ↦ inl (e, remove_callable-none f d e)
    | inr (key, e) ↦ inr (
      key,
      e,
      (elim (Option-cases (lookup key d.cont)) [
        | inl n ↦ inl (n, remove_callable-absent f d key e n)
        | inr (old, n) ↦
            let r = remove_callable-found f old d key e n in
            inr (
              count_of_some key d.cont old n,
              ap (λ t. t.0) r,
              ap (λ t. count key t.1.cont) r ∙ count-erase_self key d.cont,
              (λ j. elim (ℕ_discrete j key) [
                | yes same ↦ inl same
                | no ne ↦ inr (ap (λ t. count j t.1.cont) r ∙ count-erase_ne j key d.cont ne)
              ]),
              ap (λ t. t.1.usrcont) r,
            )
      ]),
    )
  ]

  -- Registering a plain function and removing it leaves every address registered as often as
  -- before, and the user's keys as before; neither call throws.
  pub remove_callable-register_callable :
      (f : Callable A S) (key : ℕ) (d : Delegate A S)
      → f.target ≡ some key
      → let d' = (register_callable f d).1 in
        ((register_callable f d).0 ≡ none)
        × ((remove_callable f d').0 ≡ none)
        × ((j : ℕ) → count j (remove_callable f d').1.cont ≡ count j d.cont)
        × ((remove_callable f d').1.usrcont ≡ d.usrcont)
  remove_callable-register_callable f key d e =
      let r = register_callable-key f d key e in
      let (old, found) = lookup-insert_self key f d.cont in
      let t =
        ap (λ o. remove_callable f o.1) r
        ∙ remove_callable-found f old (record d { cont = insert key f d.cont }) key e found in
      (
        ap (λ o. o.0) r,
        ap (λ o. o.0) t,
        (λ j. ap (λ o. count j o.1.cont) t ∙ count-erase-insert j key f d.cont),
        ap (λ o. o.1.usrcont) t,
      )
