-- ===== src/Common/Decimal.antt =====
-- The decimal text of a number, as `_itoa_s` with base 10 and `std::to_string` write it.
use Prim.Native.Nat.{ℕ, zero, suc, ◌+◌, ◌*◌, ◌-◌, ◌/◌, ◌%◌, ◌<◌}
use mathlib.Core.Path.{◌≡◌, ◌∙◌, refl, ap}
use mathlib.Core.List.{List, [], ◌∷◌, ◌++◌}
use native.Mathlib.Omega.{arith}
use mathlib.Core.Bool.{true, false}
use native.Mathlib.Decide.{dec_lt}
use vee.Common.Tests.{ltb}

-- At most so many digits, the last ones.
abbrev pub digits : ℕ → ℕ → List ℕ
digits zero n = []
digits (suc fuel) n = elim (ltb n 10) [
  | true ↦ (48 + n) ∷ []
  | false ↦ digits fuel (n / 10) ++ ((48 + n % 10) ∷ [])
]

-- A number has no more digits than its value and one.
unfoldable pub decimal : ℕ → List ℕ
decimal n = digits (suc n) n

-- What a row of digits stands for, behind a value that was read before.
abbrev pub value_from : ℕ → List ℕ → ℕ
value_from v [] = v
value_from v (c ∷ cs) = value_from (v * 10 + (c - 48)) cs

value_from-append :
    (v : ℕ) (cs : List ℕ) (c : ℕ) → value_from v (cs ++ (c ∷ [])) ≡ value_from v cs * 10 + (c - 48)
value_from-append v [] c = refl
value_from-append v (d ∷ cs) c = value_from-append (v * 10 + (d - 48)) cs c

value_from-digits : (fuel n : ℕ) → n < fuel → value_from 0 (digits fuel n) ≡ n
value_from-digits zero n lt = absurd (omega arith)
value_from-digits (suc fuel) n lt = elim (dec_lt n 10) [
  | yes small ↦ ground arith
  | no big ↦
      let last : value_from 0 (digits fuel (n / 10) ++ ((48 + n % 10) ∷ [])) ≡ n =
        value_from-append 0 (digits fuel (n / 10)) (48 + n % 10)
        ∙ ap (λ v. v * 10 + (48 + n % 10 - 48)) (value_from-digits fuel (n / 10) (omega arith))
        ∙ omega arith in
      ground (arith, last)
]

-- Reading the decimal text of a number gives the number.
pub value_from-decimal : (n : ℕ) → value_from 0 (decimal n) ≡ n
unfolding decimal
value_from-decimal n = value_from-digits (suc n) n (omega arith)

pub decimal_digit : (d : ℕ) → d < 10 → decimal d ≡ (d + 48) ∷ []
unfolding decimal
decimal_digit d lt = ground arith
