-- ===== src/Delegate/Entries.antt =====
-- `std::multimap` and `std::map`, as vee/delegate.h uses them: entries in the order of their keys,
-- those of one key in the order of their insertion.
use vee.Common.{
  ℕ, ◌+◌, ◌≤◌, Bool, true, false, Option, none, some, List, [], ◌∷◌, ◌==◌, ltb, if◌then◌else◌,
}

abbrev pub Table : Type 0 → Type 0
Table V = List (ℕ × V)

module _ {V : Type 0} where
  -- `std::multimap::insert`: behind the entries of the same key.
  abbrev pub insert : ℕ → V → Table V → Table V
  insert k v [] = (k, v) ∷ []
  insert k v ((j, w) ∷ m) = if ltb k j then (k, v) ∷ (j, w) ∷ m else (j, w) ∷ insert k v m

  -- `find`, and the value that it finds.
  abbrev pub lookup : ℕ → Table V → Option V
  lookup k [] = none
  lookup k ((j, w) ∷ m) = if k == j then some w else lookup k m

  -- `erase` of what `find` finds.
  abbrev pub erase : ℕ → Table V → Table V
  erase k [] = []
  erase k ((j, w) ∷ m) = if k == j then m else (j, w) ∷ erase k m

  abbrev pub is_nil : Table V → Bool
  is_nil [] = true
  is_nil (e ∷ m) = false

  -- How many entries a key has.
  abbrev pub count : ℕ → Table V → ℕ
  count k [] = 0
  count k ((j, w) ∷ m) = (if k == j then 1 else 0) + count k m

  abbrev pub Below : ℕ → Table V → Type 0
  Below k [] = Unit
  Below k ((j, w) ∷ m) = (k ≤ j) × Below k m

  abbrev pub IsSorted : Table V → Type 0
  IsSorted [] = Unit
  IsSorted ((j, w) ∷ m) = Below j m × IsSorted m
