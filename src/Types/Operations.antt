-- ===== src/Types/Operations.antt =====
-- Arithmetic and concatenation in src/binary_operation_data_type_check.c. The child Comparisons has the
-- rest of that file, and Signs has src/unary_operation_data_type_check.c.
pub mod Signs
pub mod Comparisons
pub mod Arithmetic
pub mod Comparable
use ydbocto.Types.{
  nul_value, integer_literal, numeric_literal, string_literal, date_literal, time_literal,
  timestamp_literal, time_with_time_zone_literal, timestamp_with_time_zone_literal, table_asterisk,
  is_nul_value, is_string_type, is_date, is_time, is_timestamp_type, is_date_time_type, same,
}
use ydbocto.Types.Ambiguous.{passed, failed, feature_not_implemented, type_not_compatible}
use ydbocto.Types.{SqlValueType}
use ydbocto.Types.Ambiguous.{Checked}
use ydbocto.Prelude.{Bool, true, false, ◌&&◌, ◌||◌, if◌then◌else◌}

pub data BinaryOperation : Type 0 where
  addition subtraction division multiplication modulo concat : BinaryOperation
  binary_or binary_and binary_is binary_is_not : BinaryOperation
  regex_sensitive regex_insensitive regex_sensitive_like regex_insensitive_like : BinaryOperation
  regex_sensitive_similarto regex_insensitive_similarto : BinaryOperation
  binary_equals binary_not_equals binary_less_than binary_greater_than : BinaryOperation
  binary_less_than_or_equals binary_greater_than_or_equals binary_in binary_not_in : BinaryOperation
  any_equals any_not_equals any_less_than any_greater_than : BinaryOperation
  any_less_than_or_equals any_greater_than_or_equals : BinaryOperation
  all_equals all_not_equals all_less_than all_greater_than : BinaryOperation
  all_less_than_or_equals all_greater_than_or_equals : BinaryOperation
  date_time_addition date_time_subtraction : BinaryOperation

-- What a check leaves behind: the operation, `*type`, and the types of the operands.
pub record Binary : Type 0 where
  pub operation : BinaryOperation
  pub type : SqlValueType
  pub left : SqlValueType
  pub right : SqlValueType

-- One operand of an arithmetic operation: whether it is a date or a time, which only `+` and `-` take.
unfoldable pub arithmetic_operand : Bool → SqlValueType → Checked Bool
arithmetic_operand is_sum t =
    if same integer_literal t || same numeric_literal t || is_nul_value t
    then passed false
    else if is_date_time_type t
    then if is_sum then passed true else failed feature_not_implemented
    else failed type_not_compatible

-- `t` and `u` are the types of the operands as they were, `l` and `r` those behind CAST_AMBIGUOUS_TYPES.
unfoldable pub date_time_subtraction_check :
    SqlValueType → SqlValueType → SqlValueType → SqlValueType → Checked Binary
date_time_subtraction_check t u l r =
    let as_is : SqlValueType → Checked Binary =
      λ v. passed (record { operation = date_time_subtraction; type = v; left = l; right = r }) in
    let both : SqlValueType → SqlValueType → Checked Binary =
      λ v w. passed (record { operation = date_time_subtraction; type = v; left = w; right = w }) in
    if is_date t && is_date u
    then both integer_literal date_literal
    else if is_date t && same time_literal u
    then both timestamp_literal timestamp_literal
    else if is_date t && is_timestamp_type u
    then failed feature_not_implemented
    else if same timestamp_literal t && is_date u
    then failed feature_not_implemented
    else if is_date t && same integer_literal u
    then both date_literal date_literal
    else if is_date t && is_nul_value u
    then as_is integer_literal
    else if same time_literal t && same time_literal u
    then failed feature_not_implemented
    else if same time_with_time_zone_literal t && same time_literal u
    then both time_with_time_zone_literal time_with_time_zone_literal
    else if same timestamp_literal t && same time_literal u
    then both timestamp_literal timestamp_literal
    else if same timestamp_with_time_zone_literal t && same time_literal u
    then both timestamp_with_time_zone_literal timestamp_with_time_zone_literal
    else if same time_with_time_zone_literal t && is_nul_value u
    then as_is time_with_time_zone_literal
    else if same time_literal t && is_nul_value u
    then failed feature_not_implemented
    else if is_timestamp_type t && is_timestamp_type u
    then failed feature_not_implemented
    else if same timestamp_with_time_zone_literal t && is_nul_value u
    then as_is timestamp_with_time_zone_literal
    else if same timestamp_literal t && is_nul_value u
    then as_is timestamp_literal
    else failed type_not_compatible

-- One of two types is `v` and the other `w`.
abbrev pub are : SqlValueType → SqlValueType → SqlValueType → SqlValueType → Bool
are v w t u = same v t && same w u || same v u && same w t

unfoldable pub date_time_addition_check :
    SqlValueType → SqlValueType → SqlValueType → SqlValueType → Checked Binary
date_time_addition_check t u l r =
    let as_is : SqlValueType → Checked Binary =
      λ v. passed (record { operation = date_time_addition; type = v; left = l; right = r }) in
    let both : SqlValueType → SqlValueType → Checked Binary =
      λ v w. passed (record { operation = date_time_addition; type = v; left = w; right = w }) in
    if is_date t && is_time u || is_date u && is_time t
    then both
        (if same time_with_time_zone_literal t || same time_with_time_zone_literal u
          then timestamp_with_time_zone_literal
          else timestamp_literal)
        date_literal
    else if are date_literal integer_literal t u
    then both date_literal date_literal
    else if are time_with_time_zone_literal time_literal t u
    then both time_with_time_zone_literal time_with_time_zone_literal
    else if are time_literal timestamp_literal t u
    then both timestamp_literal timestamp_literal
    else if are time_literal timestamp_with_time_zone_literal t u
    then both timestamp_with_time_zone_literal timestamp_with_time_zone_literal
    else if are nul_value time_literal t u
    then as_is time_literal
    else if are nul_value timestamp_literal t u
    then as_is timestamp_literal
    else failed type_not_compatible

abbrev pub is_addition : BinaryOperation → Bool
is_addition addition = true
is_addition _ = false

abbrev pub is_subtraction : BinaryOperation → Bool
is_subtraction subtraction = true
is_subtraction _ = false

unfoldable pub arithmetic_check :
    BinaryOperation → SqlValueType → SqlValueType → SqlValueType → SqlValueType → Checked Binary
unfolding arithmetic_operand date_time_subtraction_check date_time_addition_check
arithmetic_check op t u l r =
    let is_sum = is_addition op || is_subtraction op in
    elim (arithmetic_operand is_sum l) [
      | failed e ↦ failed e
      | passed a ↦ elim (arithmetic_operand is_sum r) [
        | failed e ↦ failed e
        | passed b ↦
            if a || b
            then if is_subtraction op
              then date_time_subtraction_check t u l r
              else date_time_addition_check t u l r
            else passed (record { operation = op; type = l; left = l; right = r })
      ]
    ]

-- CONCAT; the cast of a BOOLEAN operand to a string is left to the plan.
unfoldable pub concat_check :
    SqlValueType → SqlValueType → SqlValueType → SqlValueType → Checked Binary
concat_check t u l r =
    let result : Checked Binary = passed (record {
      operation = concat;
      type = string_literal;
      left = string_literal;
      right = string_literal;
    }) in
    let from_null = is_nul_value t || is_nul_value u in
    if is_string_type l || is_string_type r
    then result
    else if same table_asterisk l && same table_asterisk r && from_null
    then result
    else if is_date_time_type l && is_date_time_type r && from_null
    then result
    else if is_date_time_type l && is_date_time_type r
    then failed feature_not_implemented
    else failed type_not_compatible
