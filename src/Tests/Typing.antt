-- ===== src/Tests/Typing.antt =====
-- The type checks at concrete types.
use ydbocto.Types.{
  numeric_literal, is_nul_value, is_boolean_type, get_psql_type_from_sqlvaluetype, same,
}
use ydbocto.Types.Operations.Signs.{unary_not, negative, force_num, unary_operation_data_type_check}
use ydbocto.Types.{
  date_literal, timestamp_with_time_zone_literal, string_literal, time_literal,
  time_with_time_zone_literal, timestamp_literal, integer_literal, nul_value, type_oid_int4,
}
use ydbocto.Types.Ambiguous.{
  passed, ParseContext, map_type_to_parameter_value, cast_boolean_or_string, cast_ambiguous_types,
  int16_max, note_parameter,
}
use ydbocto.Types.Operations.{addition, binary_less_than}
use ydbocto.Prelude.{[], ◌≤◌, ◌≡◌, refl, ◌↔◌, true, false, ◌||◌, none, some, ◌∷◌, arith, length}
use ydbocto.Types.Same.{SameType, convert, ensure_same_type}
use ydbocto.Types.Same.Least.{is_least, types_of, ensure_same_type_iff}
use ydbocto.Types.Ambiguous.Growth.{note_parameter_lem, slot}
use ydbocto.Types.Operations.Comparable.{
  plain, can_compare, passes, binary_operation_data_type_check-can_compare,
  unary_operation_data_type_check-passes,
}
use ydbocto.Types.Operations.Comparisons.{binary_operation_data_type_check}
use ydbocto.Types.Operations.Arithmetic.{found, sum_type, binary_operation_data_type_check-sum_type}
use ydbocto.Types.Columns.{check_column_lists_for_type_match}
use ydbocto.Types.Columns.Unite.{
  is_matched, check_column_lists_for_type_match-can_unite_all, can_unite, can_unite_all, is_one_way,
  has_one_way,
}

ensure_same_type_iff_example :
    (types_of (ensure_same_type date_literal timestamp_with_time_zone_literal)
      ≡ some (timestamp_with_time_zone_literal, timestamp_with_time_zone_literal))
    ↔ (is_least date_literal timestamp_with_time_zone_literal timestamp_with_time_zone_literal
        ≡ true)
ensure_same_type_iff_example =
    ensure_same_type_iff date_literal timestamp_with_time_zone_literal
      timestamp_with_time_zone_literal refl refl

abbrev string_and_time : SameType
string_and_time = record {
  left = time_literal;
  right = time_literal;
  left_cast = some time_literal;
  right_cast = none;
  noted = none;
}

string_and_time-passed : ensure_same_type string_literal time_literal ≡ passed string_and_time
unfolding ensure_same_type convert cast_ambiguous_types map_type_to_parameter_value
    cast_boolean_or_string
string_and_time-passed = refl

-- A parameter of a type that Parse declared, and no other.
abbrev one_type : ParseContext
one_type = record { cur_param_num = 1; types = some type_oid_int4 ∷ [] }

note_parameter_lem_example :
    (after : ParseContext) × (note_parameter one_type date_literal ≡ some after)
    × (slot after.types 0 ≡ some (get_psql_type_from_sqlvaluetype date_literal))
    × (1 ≤ length after.types)
    × (length after.types ≤ int16_max)
note_parameter_lem_example =
    note_parameter_lem one_type date_literal 0 (omega arith) (omega arith) (omega arith)
      (omega arith)

binary_operation_data_type_check-sum_type_example :
    found (
      binary_operation_data_type_check addition
        (plain true false true false integer_literal)
        date_literal
        time_with_time_zone_literal)
    ≡ sum_type date_literal time_with_time_zone_literal
binary_operation_data_type_check-sum_type_example =
    binary_operation_data_type_check-sum_type (plain true false true false integer_literal)
      date_literal time_with_time_zone_literal refl refl

binary_operation_data_type_check-can_compare_example :
    passes (
      binary_operation_data_type_check binary_less_than
        (plain true false true false integer_literal)
        date_literal
        timestamp_literal)
    ≡ can_compare true date_literal timestamp_literal
binary_operation_data_type_check-can_compare_example =
    binary_operation_data_type_check-can_compare binary_less_than true false true false
      integer_literal date_literal timestamp_literal refl refl refl

unary_operation_data_type_check-passes_example :
    (passes (unary_operation_data_type_check unary_not false nul_value) ≡ is_boolean_type nul_value)
    × (passes (unary_operation_data_type_check negative false nul_value)
        ≡ (same integer_literal nul_value || same numeric_literal nul_value))
    × (passes (unary_operation_data_type_check force_num false nul_value) ≡ (
        same integer_literal nul_value || same numeric_literal nul_value || is_nul_value nul_value))
unary_operation_data_type_check-passes_example =
    unary_operation_data_type_check-passes false nul_value refl

check_column_lists_for_type_match-can_unite_all_example :
    is_matched (
      check_column_lists_for_type_match true false
        (integer_literal ∷ string_literal ∷ [])
        (numeric_literal ∷ date_literal ∷ []))
    ≡ true
unfolding can_unite_all can_unite has_one_way is_one_way
check_column_lists_for_type_match-can_unite_all_example =
    check_column_lists_for_type_match-can_unite_all false (integer_literal ∷ string_literal ∷ [])
      (numeric_literal ∷ date_literal ∷ []) refl
