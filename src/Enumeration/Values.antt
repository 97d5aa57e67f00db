-- ===== src/Enumeration/Values.antt =====
-- The constructors, conversions and comparisons of the class that `Enumeration` of
-- vee/enumeration.h declares. A value is an `int`, shifted by 2 ^ 31, which keeps the order.
use vee.Common.{ℕ, ◌+◌, ◌-◌, ◌^◌, ◌≤◌, ◌<◌, ◌≡◌, Bool, not, ◌==◌, ltb, leb, arith}
use vee.Enumeration.{to_uint32, to_uint64}

pub record Enumerated : Type 0 where
  pub value : ℕ

-- The constructors from an `int` and from a constant.
unfoldable pub enumerated : ℕ → Enumerated
enumerated value = record { value = value }

unfoldable pub enum_form : Enumerated → ℕ
enum_form e = e.value

-- `operator=`, and the constant that it gives.
unfoldable pub assign : Enumerated → ℕ → ℕ × Enumerated
assign e value = (value, record e { value = value })

-- `to_int32` and `to_int64`: the results are shifted by 2 ^ 31 and by 2 ^ 63.
unfoldable pub to_int32 : Enumerated → ℕ
to_int32 e = e.value

unfoldable pub to_int64 : Enumerated → ℕ
to_int64 e = e.value + (2 ^ 63 - 2 ^ 31)

-- The comparisons with a constant.
unfoldable pub eq : Enumerated → ℕ → Bool
eq e value = e.value == value

unfoldable pub ne : Enumerated → ℕ → Bool
ne e value = not (e.value == value)

unfoldable pub gt : Enumerated → ℕ → Bool
gt e value = ltb value e.value

unfoldable pub lt : Enumerated → ℕ → Bool
lt e value = ltb e.value value

unfoldable pub ge : Enumerated → ℕ → Bool
ge e value = leb value e.value

unfoldable pub le : Enumerated → ℕ → Bool
le e value = leb e.value value

-- The unsigned conversions of a constant that is negative, and of one that is not.
pub to_uint64-cases :
    (value : ℕ)
    → value < 2 ^ 32
    → (value < 2 ^ 31 → (2 ^ 64 - 2 ^ 31 ≤ to_uint64 value) × (2 ^ 31 ≤ to_uint32 value))
      × (2 ^ 31 ≤ value → (to_uint64 value ≡ value - 2 ^ 31) × (to_uint32 value ≡ value - 2 ^ 31))
unfolding to_uint64 to_uint32
to_uint64-cases value small = (λ neg. (omega arith, omega arith), λ pos. (omega arith, omega arith))
