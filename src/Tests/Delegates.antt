-- ===== src/Tests/Delegates.antt =====
-- Tests of vee/delegate.h, vee/exl.h and comm/ip.cpp.
use vee.Common.{ℕ, ◌⊎◌, ◌+◌, ◌==◌, if◌then◌else◌, ◌≡◌, refl, ◌≤◌, none, some, List, [], ◌∷◌, arith}
use vee.Delegate.{
  Callable, Delegate, register_callable, register_pair, remove_callable, merge, invoke,
}
use vee.Delegate.Entries.{count, lookup}
use vee.Delegate.Valid.{IsValid}
use vee.Delegate.Register.{register_pair_lem, merge_lem}
use vee.Exception.Exl.{key_already_exist_exception}
use vee.Delegate.Remove.{remove_callable-register_callable}
use vee.Delegate.Calls.{Turn, register_callable-Turn}

-- Functions that append their number to a log.
abbrev logger : ℕ → Callable ℕ (List ℕ)
logger k = record { target = some k; invoke = λ args log. (args, k ∷ log) }

abbrev both : Delegate ℕ (List ℕ)
both = record { cont = (4, logger 4) ∷ (6, logger 6) ∷ []; usrcont = (1, logger 1) ∷ [] }

one_key : (k : ℕ) → count {V = Callable ℕ (List ℕ)} k ((1, logger 1) ∷ []) ≤ 1
one_key k = ground arith

both-IsValid : IsValid both
both-IsValid = record {
  cont_sorted = ground arith;
  usrcont_sorted = ground arith;
  usrcont_map = one_key;
}

calls_in_order : (invoke (register_callable (logger 5) both).1 0 []).1 ≡ 1 ∷ 6 ∷ 5 ∷ 4 ∷ []
unfolding register_callable invoke
calls_in_order = refl

-- The key 1 is taken, with another function.
register_pair_lem_example :
    ((old : Callable ℕ (List ℕ)) × (lookup 1 both.usrcont ≡ some old)
      × (register_pair 1 (logger 2) both ≡ (some key_already_exist_exception, both)))
    ⊎ ((lookup 1 both.usrcont ≡ none)
        × ((register_pair 1 (logger 2) both).0 ≡ none)
        × ((j : ℕ)
            → lookup j (register_pair 1 (logger 2) both).1.usrcont
              ≡ (if j == 1 then some (logger 2) else lookup j both.usrcont))
        × ((register_pair 1 (logger 2) both).1.cont ≡ both.cont))
register_pair_lem_example = register_pair_lem 1 (logger 2) both

abbrev more : Delegate ℕ (List ℕ)
more = record { cont = (4, logger 4) ∷ []; usrcont = (1, logger 8) ∷ (2, logger 2) ∷ [] }

merge_lem_example :
    (count 4 (merge both more).cont ≡ count 4 more.cont + count 4 both.cont)
    × (lookup 4 (merge both more).usrcont
        ≡ (elim (lookup 4 both.usrcont) [ some old ↦ some old | none ↦ lookup 4 more.usrcont ]))
merge_lem_example = merge_lem both more 4

register_callable-Turn_example : Turn (logger 5) 5 both 0 []
register_callable-Turn_example = register_callable-Turn (logger 5) 5 both 0 [] both-IsValid refl

remove_callable-register_callable_example :
    let d' = (register_callable (logger 4) both).1 in
    ((register_callable (logger 4) both).0 ≡ none)
    × ((remove_callable (logger 4) d').0 ≡ none)
    × ((j : ℕ) → count j (remove_callable (logger 4) d').1.cont ≡ count j both.cont)
    × ((remove_callable (logger 4) d').1.usrcont ≡ both.usrcont)
remove_callable-register_callable_example = remove_callable-register_callable (logger 4) 4 both refl
