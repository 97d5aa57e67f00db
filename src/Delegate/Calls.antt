-- ===== src/Delegate/Calls.antt =====
-- The order in which a delegate calls what is registered in it.
use vee.Common.{ℕ, suc, ◌≤◌, ◌<◌, ◌≡◌, ◌∙◌, refl, ap, some, [], ◌∷◌, ◌++◌}
use vee.Delegate.Entries.{Table, count, Below}
use vee.Delegate.Keys.{Split, insert-Split}
use vee.Delegate.{Callable, Delegate, register_callable, invoke_all, invoke}
use vee.Delegate.Valid.{IsValid}
use vee.Delegate.Branches.{register_callable-key}

module _ {A S : Type 0} where
  invoke_all-append :
      (before after : Table (Callable A S)) (a : A × S)
      → invoke_all (before ++ after) a ≡ invoke_all after (invoke_all before a)
  unfolding invoke_all
  invoke_all-append [] after (args, s) = refl
  invoke_all-append ((k, f) ∷ before) after (args, s) =
      invoke_all-append before after (f.invoke args s)

  -- How a delegate with one function more is called.
  pub record Turn (f : Callable A S) (key : ℕ) (d : Delegate A S) (args : A) (s : S) : Type 0 where
    pub before : Table (Callable A S)
    pub after : Table (Callable A S)
    pub whole : d.cont ≡ before ++ after
    pub up_to : (j : ℕ) → 0 < count j before → j ≤ key
    pub above : Below (suc key) after
    pub call : invoke (register_callable f d).1 args s ≡ (
        let (args', s') = invoke_all before (args, s) in
        invoke_all d.usrcont (invoke_all after (f.invoke args' s')))

  -- After a plain function is registered in a valid delegate, a call of the delegate calls it once
  -- more: behind the functions of the addresses up to its own, before those of greater ones, and
  -- before the user's.
  pub register_callable-Turn :
      (f : Callable A S) (key : ℕ) (d : Delegate A S) (args : A) (s : S)
      → IsValid d
      → f.target ≡ some key
      → Turn f key d args s
  unfolding invoke
  register_callable-Turn f key d args s v e = record {
    before = r.before;
    after = r.after;
    whole = r.whole;
    up_to = r.up_to;
    above = r.above;
    call =
        ap (λ o. invoke o.1 args s) (register_callable-key f d key e)
        ∙ ap (λ m. invoke_all d.usrcont (invoke_all m (args, s))) r.inserted
        ∙ ap (invoke_all d.usrcont) (invoke_all-append r.before ((key, f) ∷ r.after) (args, s));
  }
    where
      r : Split key f d.cont
      r = insert-Split key f d.cont v.cont_sorted
