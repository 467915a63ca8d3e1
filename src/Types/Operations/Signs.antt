-- ===== src/Types/Operations/Signs.antt =====
-- The type check of unary operations, src/unary_operation_data_type_check.c.
use ydbocto.Types.{
  SqlValueType, integer_literal, numeric_literal, boolean_value, parameter_value,
  boolean_or_string_literal, string_literal, table_asterisk, select_asterisk, calculated_value,
  coerce_type, column_reference, function_name, function_hash, delim_value, is_null_literal,
  invalid_value_type, unknown_value_type, is_nul_value, is_date_time_type, same,
}
use ydbocto.Types.Ambiguous.{
  Checked, passed, failed, type_not_compatible, invalid_input_syntax, invalid_boolean_syntax,
  not_operation_type_mismatch,
}
use ydbocto.Prelude.{Bool, true, false, ◌||◌, Option, none, some, if◌then◌else◌}
use ydbocto.Optimizer.Meaning.{is_literal}

pub data UnaryOperation : Type 0 where
  force_num negative unary_not unary_exists unary_not_exists : UnaryOperation

-- What a check leaves behind: `*type`, none where it is not set, and the type of the operand.
pub record Unary : Type 0 where
  pub type : Option SqlValueType
  pub child : SqlValueType

-- The types whose case is an assertion only.
abbrev pub is_internal : SqlValueType → Bool
is_internal t =
    same select_asterisk t
    || same calculated_value t
    || same parameter_value t
    || same coerce_type t
    || same column_reference t
    || same function_name t
    || same function_hash t
    || same delim_value t
    || same is_null_literal t
    || same invalid_value_type t
    || same unknown_value_type t

-- Unary plus and minus.
unfoldable pub sign_check : Bool → SqlValueType → Checked Unary
sign_check minus t =
    if same table_asterisk t
    then failed type_not_compatible
    else if same boolean_or_string_literal t
        || is_date_time_type t
        || same string_literal t
        || same boolean_value t
    then failed invalid_input_syntax
    else if is_nul_value t
    then if minus then failed type_not_compatible else passed (record { type = some t; child = t })
    else if same integer_literal t || same numeric_literal t
    then passed (record { type = some t; child = t })
    else passed (record { type = none; child = t })

-- NOT; whether the operand is a string literal decides over the message only.
unfoldable pub not_check : Bool → SqlValueType → Checked Unary
not_check is_literal t =
    if same string_literal t
    then failed (if is_literal then invalid_boolean_syntax else not_operation_type_mismatch)
    else if same boolean_or_string_literal t
    then passed (record { type = some boolean_value; child = boolean_value })
    else if same boolean_value t || is_nul_value t
    then passed (record { type = some t; child = t })
    else if same select_asterisk t
    then passed (record { type = none; child = t })
    else failed not_operation_type_mismatch

unfoldable pub unary_operation_data_type_check :
    UnaryOperation → Bool → SqlValueType → Checked Unary
unfolding sign_check not_check
unary_operation_data_type_check force_num is_literal t = sign_check false t
unary_operation_data_type_check negative is_literal t = sign_check true t
unary_operation_data_type_check unary_not is_literal t = not_check is_literal t
unary_operation_data_type_check unary_not_exists is_literal t =
    passed (record { type = none; child = t })
unary_operation_data_type_check unary_exists is_literal t =
    passed (record { type = some boolean_value; child = t })
