-- ===== src/Delegate/Branches.antt =====
-- Each operation of vee/delegate.h on each of its branches.
use vee.Common.{◌≡◌, none, some, arith, ℕ}
use vee.Exception.Exl.{
  key_generation_failed_exception, target_not_found_exception, key_already_exist_exception,
}
use vee.Delegate.Entries.{Table, insert, lookup, erase}
use vee.Delegate.{
  Callable, Delegate, register_callable, register_pair, insert_new, remove_callable, remove_key,
}

module _ {A S : Type 0} where
  pub register_callable-key :
      (f : Callable A S) (d : Delegate A S) (key : ℕ)
      → f.target ≡ some key
      → register_callable f d ≡ (none, record d { cont = insert key f d.cont })
  unfolding register_callable
  register_callable-key f d key e = ground (arith, e)

  pub register_callable-none :
      (f : Callable A S) (d : Delegate A S)
      → f.target ≡ none
      → register_callable f d ≡ (some key_generation_failed_exception, d)
  unfolding register_callable
  register_callable-none f d e = ground (arith, e)

  pub register_pair-new :
      (key : ℕ) (f : Callable A S) (d : Delegate A S)
      → lookup key d.usrcont ≡ none
      → register_pair key f d ≡ (none, record d { usrcont = insert key f d.usrcont })
  unfolding register_pair
  register_pair-new key f d e = ground (arith, e)

  pub register_pair-old :
      (key : ℕ) (f old : Callable A S) (d : Delegate A S)
      → lookup key d.usrcont ≡ some old
      → register_pair key f d ≡ (some key_already_exist_exception, d)
  unfolding register_pair
  register_pair-old key f old d e = ground (arith, e)

  pub insert_new-new :
      (key : ℕ) (f : Callable A S) (m : Table (Callable A S))
      → lookup key m ≡ none
      → insert_new key f m ≡ insert key f m
  unfolding insert_new
  insert_new-new key f m e = ground (arith, e)

  pub insert_new-old :
      (key : ℕ) (f old : Callable A S) (m : Table (Callable A S))
      → lookup key m ≡ some old
      → insert_new key f m ≡ m
  unfolding insert_new
  insert_new-old key f old m e = ground (arith, e)

  pub remove_callable-none :
      (f : Callable A S) (d : Delegate A S)
      → f.target ≡ none
      → remove_callable f d ≡ (some key_generation_failed_exception, d)
  unfolding remove_callable
  remove_callable-none f d e = ground (arith, e)

  pub remove_callable-absent :
      (f : Callable A S) (d : Delegate A S) (key : ℕ)
      → f.target ≡ some key
      → lookup key d.cont ≡ none
      → remove_callable f d ≡ (some target_not_found_exception, d)
  unfolding remove_callable
  remove_callable-absent f d key e n = ground (arith, e, n)

  pub remove_callable-found :
      (f old : Callable A S) (d : Delegate A S) (key : ℕ)
      → f.target ≡ some key
      → lookup key d.cont ≡ some old
      → remove_callable f d ≡ (none, record d { cont = erase key d.cont })
  unfolding remove_callable
  remove_callable-found f old d key e n = ground (arith, e, n)

  pub remove_key-absent :
      (key : ℕ) (d : Delegate A S)
      → lookup key d.usrcont ≡ none
      → remove_key key d ≡ (some target_not_found_exception, d)
  unfolding remove_key
  remove_key-absent key d e = ground (arith, e)

  pub remove_key-found :
      (key : ℕ) (old : Callable A S) (d : Delegate A S)
      → lookup key d.usrcont ≡ some old
      → remove_key key d ≡ (none, record d { usrcont = erase key d.usrcont })
  unfolding remove_key
  remove_key-found key old d e = ground (arith, e)
