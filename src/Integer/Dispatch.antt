-- ===== src/Integer/Dispatch.antt =====
-- `eqtype_helper` of vee/type/generic/unsigned_integral_comparator.h: how two operand types
-- compare.
use vee.Common.{ℕ, Bool, true, false, ltb, ◌==◌, if◌then◌else◌}

pub data SideType : Type 0 where
  eq_all_fundamental : SideType
  eq_lhs_fundamental : SideType
  eq_rhs_fundamental : SideType
  eq_not_fundamental : SideType

pub data SizeType : Type 0 where
  same_size_type : SizeType
  lhs_is_bigger : SizeType
  rhs_is_bigger : SizeType

-- The four specialisations of `eqside_type_helper`.
unfoldable pub eqside_type : Bool → Bool → SideType
eqside_type true true = eq_all_fundamental
eqside_type true false = eq_lhs_fundamental
eqside_type false true = eq_rhs_fundamental
eqside_type false false = eq_not_fundamental

unfoldable pub eqs_size : ℕ → ℕ → SizeType
eqs_size lhs rhs =
    if lhs == rhs then same_size_type else if ltb rhs lhs then lhs_is_bigger else rhs_is_bigger
