-- ===== src/Types/Same.antt =====
-- `ensure_same_type` of src/ensure_same_type.c: implicit conversions that give two expressions one type.
pub mod Least
pub mod Casts
use ydbocto.Types.{
  boolean_or_string_literal, string_literal, date_literal, time_literal, timestamp_literal,
  time_with_time_zone_literal, timestamp_with_time_zone_literal, same,
}
use ydbocto.Types.Ambiguous.{
  passed, failed, type_mismatch, map_type_to_parameter_value, cast_boolean_or_string,
}
use ydbocto.Types.{SqlValueType, is_timestamp_type, is_date_time_type}
use ydbocto.Types.Ambiguous.{Checked, cast_ambiguous_types}
use ydbocto.Prelude.{◌&&◌, Option, none, some, if◌then◌else◌}

-- The two types behind the check, and the casts that ADD_DATE_TIME_TIMESTAMP_CAST_STMT puts around the two
-- statements, by their target.
pub record SameType : Type 0 where
  pub left : SqlValueType
  pub right : SqlValueType
  pub left_cast : Option SqlValueType
  pub right_cast : Option SqlValueType
  pub noted : Option SqlValueType

-- FIX_TYPE_TO_STRING_LITERAL of a BOOLEAN_OR_STRING_LITERAL.
abbrev pub fixed : SqlValueType → SqlValueType
fixed t = if same boolean_or_string_literal t then string_literal else t

-- The types behind CAST_AMBIGUOUS_TYPES, where they differ.
unfoldable pub convert : SqlValueType → SqlValueType → Option SqlValueType → Checked SameType
convert t u noted =
    let to_right : Checked SameType =
      passed
        (record { left = u; right = u; left_cast = some u; right_cast = none; noted = noted }) in
    let to_left : Checked SameType =
      passed
        (record { left = t; right = t; left_cast = none; right_cast = some t; noted = noted }) in
    let left_again : Checked SameType =
      passed
        (record { left = t; right = t; left_cast = some t; right_cast = none; noted = noted }) in
    if same date_literal t && is_timestamp_type u
    then to_right
    else if is_timestamp_type t && same date_literal u
    then to_left
    else if same timestamp_with_time_zone_literal t && same timestamp_literal u
    then left_again
    else if same timestamp_literal t && same timestamp_with_time_zone_literal u
    then to_right
    else if same time_literal t && same time_with_time_zone_literal u
    then to_right
    else if same time_with_time_zone_literal t && same time_literal u
    then to_left
    else if same string_literal t && is_date_time_type u
    then to_right
    else if is_date_time_type t && same string_literal u
    then to_left
    else failed type_mismatch

unfoldable pub ensure_same_type : SqlValueType → SqlValueType → Checked SameType
unfolding cast_ambiguous_types map_type_to_parameter_value cast_boolean_or_string convert
ensure_same_type t u = elim (cast_ambiguous_types t u) [
  | failed e ↦ failed e
  | passed c ↦
      if same c.left c.right
      then passed (record {
        left = c.left;
        right = c.right;
        left_cast = none;
        right_cast = none;
        noted = c.noted;
      })
      else convert (fixed c.left) (fixed c.right) c.noted
]
