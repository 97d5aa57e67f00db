-- ===== src/Delegate.antt =====
-- vee/delegate.h: a delegate calls the functions that are registered in it, those that it knows by
-- their addresses first and then those that the user gave a key. A call holds the delegate's lock
-- from its start to its end, so the calls are modelled one at a time.
pub mod Entries
pub mod Keys
pub mod Branches
pub mod Valid
pub mod Register
pub mod Remove
pub mod Calls
use vee.Common.{
  ℕ, zero, suc, Bool, true, false, ◌&&◌, Option, none, some, List, [], ◌∷◌, ◌==◌, ◌⊎◌, inl, inr,
}
use vee.Exception.Exl.{
  Exl, key_generation_failed_exception, target_not_found_exception, key_already_exist_exception,
}
use vee.Delegate.Entries.{Table, insert, lookup, erase, is_nil}

-- A callable object: the address of the function, if it is a plain function, and what a call does
-- with the arguments, which may be references, and with the rest of the world.
pub record Callable (A S : Type 0) : Type 0 where
  pub target : Option ℕ
  pub invoke : A → S → A × S

-- `_cont` and `_usrcont`. An `int32_t` key k is the number k + 2 ^ 31, which keeps the order.
pub record Delegate (A S : Type 0) : Type 0 where
  pub cont : Table (Callable A S)
  pub usrcont : Table (Callable A S)

-- A call that changes a delegate: what it throws, and the delegate afterwards.
abbrev pub Outcome : Type 0 → Type 0
Outcome D = Option Exl × D

-- What a client does with a delegate, other than calling it.
pub data Op (A S : Type 0) : Type 0 where
  add_pair : ℕ → Callable A S → Op A S
  add_callable : Callable A S → Op A S
  add_all : Delegate A S → Op A S
  drop_callable : Callable A S → Op A S
  drop_key : ℕ → Op A S
  clear_all : Op A S

module _ {A S : Type 0} where
  -- `gen_key`: the address of a plain function; any other object has no key.
  unfoldable pub gen_key : Callable A S → Exl ⊎ ℕ
  gen_key f = elim f.target [
    | none ↦ inl key_generation_failed_exception
    | some address ↦ inr address
  ]

  -- `compare_function` at a function type: both are plain functions, and one and the same.
  unfoldable pub compare_function : Callable A S → Callable A S → Bool
  compare_function lhs rhs = elim lhs.target [
    | none ↦ false
    | some left ↦ elim rhs.target [ none ↦ false | some right ↦ right == left ]
  ]

  abbrev pub empty_delegate : Delegate A S
  empty_delegate = record { cont = []; usrcont = [] }

  -- `_register` of a callable object.
  unfoldable pub register_callable : Callable A S → Delegate A S → Outcome (Delegate A S)
  unfolding gen_key
  register_callable f d = elim (gen_key f) [
    | inl e ↦ (some e, d)
    | inr key ↦ (none, record d { cont = insert key f d.cont })
  ]

  -- `_register` of a pair. `std::map::insert` leaves a key that is there alone.
  unfoldable pub register_pair : ℕ → Callable A S → Delegate A S → Outcome (Delegate A S)
  register_pair key f d = elim (lookup key d.usrcont) [
    | some old ↦ (some key_already_exist_exception, d)
    | none ↦ (none, record d { usrcont = insert key f d.usrcont })
  ]

  -- The constructors from a callable object, and from a key and a callable object.
  unfoldable pub delegate : Callable A S → Outcome (Delegate A S)
  unfolding register_callable
  delegate f = register_callable f empty_delegate

  unfoldable pub keyed_delegate : ℕ → Callable A S → Delegate A S
  keyed_delegate key f = record { cont = []; usrcont = insert key f [] }

  -- The copying constructor, and the assignment.
  unfoldable pub copy : Delegate A S → Delegate A S
  copy other = record { cont = other.cont; usrcont = other.usrcont }

  unfoldable pub assign : Delegate A S → Delegate A S → Delegate A S
  assign d other = record d { cont = other.cont; usrcont = other.usrcont }

  -- The two loops of `operator+=` over another delegate.
  unfoldable pub insert_all : Table (Callable A S) → Table (Callable A S) → Table (Callable A S)
  insert_all [] m = m
  insert_all ((key, f) ∷ other) m = insert_all other (insert key f m)

  -- `std::map::insert` of one pair.
  unfoldable pub insert_new : ℕ → Callable A S → Table (Callable A S) → Table (Callable A S)
  insert_new key f m = elim (lookup key m) [ some old ↦ m | none ↦ insert key f m ]

  unfoldable pub insert_all_new : Table (Callable A S) → Table (Callable A S) → Table (Callable A S)
  unfolding insert_new
  insert_all_new [] m = m
  insert_all_new ((key, f) ∷ other) m = insert_all_new other (insert_new key f m)

  unfoldable pub merge : Delegate A S → Delegate A S → Delegate A S
  unfolding insert_all insert_all_new
  merge d rhs = record d {
    cont = insert_all rhs.cont d.cont;
    usrcont = insert_all_new rhs.usrcont d.usrcont;
  }

  -- `operator-=` of a callable object. `std::multimap::find` gives the first entry of the key.
  unfoldable pub remove_callable : Callable A S → Delegate A S → Outcome (Delegate A S)
  unfolding gen_key
  remove_callable f d = elim (gen_key f) [
    | inl e ↦ (some e, d)
    | inr key ↦ elim (lookup key d.cont) [
      | none ↦ (some target_not_found_exception, d)
      | some target ↦ (none, record d { cont = erase key d.cont })
    ]
  ]

  -- `operator-=` of a key.
  unfoldable pub remove_key : ℕ → Delegate A S → Outcome (Delegate A S)
  remove_key key d = elim (lookup key d.usrcont) [
    | none ↦ (some target_not_found_exception, d)
    | some target ↦ (none, record d { usrcont = erase key d.usrcont })
  ]

  -- One loop of `operator()`: every entry is called with the arguments as the calls before left
  -- them.
  unfoldable pub invoke_all : Table (Callable A S) → A × S → A × S
  invoke_all [] (args, s) = (args, s)
  invoke_all ((key, f) ∷ m) (args, s) = invoke_all m (f.invoke args s)

  unfoldable pub invoke : Delegate A S → A → S → A × S
  unfolding invoke_all
  invoke d args s = invoke_all d.usrcont (invoke_all d.cont (args, s))

  unfoldable pub clear : Delegate A S → Delegate A S
  clear d = record d { cont = []; usrcont = [] }

  unfoldable pub empty : Delegate A S → Bool
  empty d = is_nil d.cont && is_nil d.usrcont

  unfoldable pub apply : Op A S → Delegate A S → Outcome (Delegate A S)
  apply (add_pair key f) d = register_pair key f d
  apply (add_callable f) d = register_callable f d
  apply (add_all other) d = (none, merge d other)
  apply (drop_callable f) d = remove_callable f d
  apply (drop_key key) d = remove_key key d
  apply clear_all d = (none, clear d)

  -- The operations in order, each error caught by the client.
  unfoldable pub apply_all : List (Op A S) → Delegate A S → Delegate A S
  apply_all [] d = d
  apply_all (op ∷ ops) d = apply_all ops (apply op d).1
