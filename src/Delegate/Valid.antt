-- ===== src/Delegate/Valid.antt =====
-- The invariant of vee/delegate.h: both tables are in the order of their keys, and no user key has
-- two entries.
use vee.Common.{
  ℕ, ◌≤◌, ◌≡◌, sym, subst, Option, none, List, [], ◌∷◌, arith, inl, inr, Option-cases, ℕ_discrete,
}
use vee.Delegate.Entries.{Table, insert, lookup, erase, count, IsSorted}
use vee.Delegate.Keys.{
  count-insert, count-erase_self, count-erase_ne, count_of_none, IsSorted-insert, IsSorted-erase,
}
use vee.Delegate.{
  Callable, Delegate, Op, add_pair, add_callable, add_all, drop_callable, drop_key, clear_all,
  insert_all, insert_new, insert_all_new, merge, clear, apply, apply_all,
}
use vee.Exception.Exl.{Exl}
use vee.Delegate.Branches.{
  register_callable-key, register_callable-none, register_pair-new, register_pair-old,
  insert_new-new, insert_new-old, remove_callable-none, remove_callable-absent,
  remove_callable-found, remove_key-absent, remove_key-found,
}

module _ {V : Type 0} where
  abbrev pub IsMap : Table V → Type 0
  IsMap m = (k : ℕ) → count k m ≤ 1

  pub IsMap-insert :
      (k : ℕ) (v : V) (m : Table V) → lookup k m ≡ none → IsMap m → IsMap (insert k v m)
  IsMap-insert k v m e u j = ground (arith, count-insert j k v m, count_of_none k m e, u j)

  pub IsMap-erase : (k : ℕ) (m : Table V) → IsMap m → IsMap (erase k m)
  IsMap-erase k m u j = elim (ℕ_discrete j k) [
    | yes e ↦ rw e (omega (arith, count-erase_self k m, u k))
    | no ne ↦ omega (arith, count-erase_ne j k m ne, u j)
  ]

module _ {A S : Type 0} where
  pub record IsValid (d : Delegate A S) : Type 0 where
    pub cont_sorted : IsSorted d.cont
    pub usrcont_sorted : IsSorted d.usrcont
    pub usrcont_map : IsMap d.usrcont

  insert_all-IsSorted :
      (other m : Table (Callable A S)) → IsSorted m → IsSorted (insert_all other m)
  unfolding insert_all
  insert_all-IsSorted [] m s = s
  insert_all-IsSorted ((k, f) ∷ other) m s =
      insert_all-IsSorted other (insert k f m) (IsSorted-insert k f m s)

  abbrev Kept : Table (Callable A S) → Type 0
  Kept m = IsSorted m × IsMap m

  insert_new-keeps :
      (k : ℕ) (f : Callable A S) (m : Table (Callable A S))
      → IsSorted m
      → IsMap m
      → IsSorted (insert_new k f m) × IsMap (insert_new k f m)
  insert_new-keeps k f m s u = elim (Option-cases (lookup k m)) [
    | inl e ↦
        subst Kept (sym (insert_new-new k f m e)) (IsSorted-insert k f m s, IsMap-insert k f m e u)
    | inr (old, e) ↦ subst Kept (sym (insert_new-old k f old m e)) (s, u)
  ]

  insert_all_new-keeps :
      (other m : Table (Callable A S))
      → IsSorted m
      → IsMap m
      → IsSorted (insert_all_new other m) × IsMap (insert_all_new other m)
  unfolding insert_all_new
  insert_all_new-keeps [] m s u = (s, u)
  insert_all_new-keeps ((k, f) ∷ other) m s u =
      let p = insert_new-keeps k f m s u in insert_all_new-keeps other (insert_new k f m) p.0 p.1

  abbrev After : Option Exl × Delegate A S → Type 0
  After r = IsValid r.1

  cont-IsValid :
      (d : Delegate A S) (m : Table (Callable A S))
      → IsSorted m
      → IsValid d
      → IsValid (record d { cont = m })
  cont-IsValid d m s v = record {
    cont_sorted = s;
    usrcont_sorted = v.usrcont_sorted;
    usrcont_map = v.usrcont_map;
  }

  usrcont-IsValid :
      (d : Delegate A S) (m : Table (Callable A S))
      → Kept m
      → IsValid d
      → IsValid (record d { usrcont = m })
  usrcont-IsValid d m k v = record {
    cont_sorted = v.cont_sorted;
    usrcont_sorted = k.0;
    usrcont_map = k.1;
  }

  apply-IsValid : (op : Op A S) (d : Delegate A S) → IsValid d → IsValid (apply op d).1
  unfolding apply merge clear
  apply-IsValid (add_pair key f) d v = elim (Option-cases (lookup key d.usrcont)) [
    | inl e ↦ subst After (sym (register_pair-new key f d e)) (
        usrcont-IsValid d (insert key f d.usrcont)
          (
            IsSorted-insert key f d.usrcont v.usrcont_sorted,
            IsMap-insert key f d.usrcont e v.usrcont_map,
          )
          v)
    | inr (old, e) ↦ subst After (sym (register_pair-old key f old d e)) v
  ]
  apply-IsValid (add_callable f) d v = elim (Option-cases f.target) [
    | inl e ↦ subst After (sym (register_callable-none f d e)) v
    | inr (key, e) ↦
        subst After (sym (register_callable-key f d key e))
          (cont-IsValid d (insert key f d.cont) (IsSorted-insert key f d.cont v.cont_sorted) v)
  ]
  apply-IsValid (add_all other) d v =
      let k = insert_all_new-keeps other.usrcont d.usrcont v.usrcont_sorted v.usrcont_map in
      record {
        cont_sorted = insert_all-IsSorted other.cont d.cont v.cont_sorted;
        usrcont_sorted = k.0;
        usrcont_map = k.1;
      }
  apply-IsValid (drop_callable f) d v = elim (Option-cases f.target) [
    | inl e ↦ subst After (sym (remove_callable-none f d e)) v
    | inr (key, e) ↦ elim (Option-cases (lookup key d.cont)) [
      | inl n ↦ subst After (sym (remove_callable-absent f d key e n)) v
      | inr (old, n) ↦
          subst After (sym (remove_callable-found f old d key e n))
            (cont-IsValid d (erase key d.cont) (IsSorted-erase key d.cont v.cont_sorted) v)
    ]
  ]
  apply-IsValid (drop_key key) d v = elim (Option-cases (lookup key d.usrcont)) [
    | inl n ↦ subst After (sym (remove_key-absent key d n)) v
    | inr (old, n) ↦ subst After (sym (remove_key-found key old d n)) (
        usrcont-IsValid d (erase key d.usrcont)
          (IsSorted-erase key d.usrcont v.usrcont_sorted, IsMap-erase key d.usrcont v.usrcont_map)
          v)
  ]
  apply-IsValid clear_all d v = record {
    cont_sorted = tt;
    usrcont_sorted = tt;
    usrcont_map = λ k. omega arith;
  }

  -- Whatever operations a client makes on a valid delegate, errors included, it stays valid: the
  -- tables are in the order of their keys, and no user key has two entries.
  apply_all-IsValid :
      (ops : List (Op A S)) (d : Delegate A S) → IsValid d → IsValid (apply_all ops d)
  unfolding apply_all
  apply_all-IsValid [] d v = v
  apply_all-IsValid (op ∷ ops) d v = apply_all-IsValid ops (apply op d).1 (apply-IsValid op d v)
