-- ===== src/Types/Operations/Arithmetic.antt =====
-- Arithmetic on dates and times, and on numbers.
use mathlib.Core.Path.{subst}
use ydbocto.Types.{
  SqlValueType, is_date, is_time, is_timestamp_type, same, date_literal,
  time_with_time_zone_literal, time_literal, timestamp_with_time_zone_literal, timestamp_literal,
  unknown_value_type, is_date_time_type, parameter_value, nul_value,
}
use ydbocto.Types.Ambiguous.{
  passed, failed, Checked, map_type_to_parameter_value, cast_boolean_or_string,
  cast_ambiguous_types,
}
use ydbocto.Types.Operations.{
  Binary, BinaryOperation, arithmetic_operand, date_time_subtraction_check, are,
  date_time_addition_check, arithmetic_check, addition, multiplication,
}
use ydbocto.Prelude.{
  Bool, true, false, not, ◌&&◌, ◌||◌, Option, none, some, ◌≡◌, refl, sym, ◌⊎◌, inl, inr, arith,
  if◌then◌else◌,
}
use ydbocto.Types.Finite.{all_of, every, every-every-apply, same_option, same_option_eq}
use ydbocto.Types.Operations.Comparisons.{
  Operands, cast_pair, operation_check, binary_operation_data_type_check,
}

-- What a value of a type holds: a date, a time of day, a time zone.
abbrev pub has_date : SqlValueType → Bool
has_date t = is_date t || is_timestamp_type t

abbrev pub has_time : SqlValueType → Bool
has_time t = is_time t || is_timestamp_type t

abbrev pub has_zone : SqlValueType → Bool
has_zone t = same time_with_time_zone_literal t || same timestamp_with_time_zone_literal t

-- Two types with a date or a time can be added when one of them is TIME and the other is not, or
-- one is DATE and the other has a time but no date.
abbrev pub can_add : SqlValueType → SqlValueType → Bool
can_add t u =
    same time_literal t && not (same time_literal u)
    || same time_literal u && not (same time_literal t)
    || is_date t && is_time u
    || is_date u && is_time t

-- The type of what has the parts of both.
pub type_of : Bool → Bool → Bool → SqlValueType
type_of true false _ = date_literal
type_of false true false = time_literal
type_of false true true = time_with_time_zone_literal
type_of true true false = timestamp_literal
type_of true true true = timestamp_with_time_zone_literal
type_of false false _ = unknown_value_type

-- The type that a check finds.
unfoldable pub found : Checked Binary → Option SqlValueType
found (passed b) = some b.type
found (failed e) = none

-- The type of a sum by its parts.
unfoldable pub sum_type : SqlValueType → SqlValueType → Option SqlValueType
unfolding type_of
sum_type t u =
    if can_add t u
    then some
        (type_of (has_date t || has_date u) (has_time t || has_time u) (has_zone t || has_zone u))
    else none

addition_test : Operands → SqlValueType → SqlValueType → Bool
unfolding found same_option sum_type type_of binary_operation_data_type_check operation_check
    arithmetic_check arithmetic_operand date_time_addition_check date_time_subtraction_check
    cast_pair cast_ambiguous_types map_type_to_parameter_value cast_boolean_or_string
addition_test o t u =
    not (is_date_time_type t && is_date_time_type u)
    || same_option (found (binary_operation_data_type_check addition o t u)) (sum_type t u)

addition_tests : (o : Operands) → every (λ t. every (λ u. addition_test o t u)) ≡ true
unfolding every all_of addition_test found same_option sum_type type_of
    binary_operation_data_type_check operation_check arithmetic_check arithmetic_operand
    date_time_addition_check date_time_subtraction_check cast_pair cast_ambiguous_types
    map_type_to_parameter_value cast_boolean_or_string
addition_tests o = refl

-- The sum of two dates or times passes exactly when one of them is TIME and the other is not, or one is
-- DATE and the other has only a time; its type has the parts of both: a date, a time of day, a time
-- zone.
pub binary_operation_data_type_check-sum_type :
    (o : Operands) (t u : SqlValueType)
    → is_date_time_type t ≡ true
    → is_date_time_type u ≡ true
    → found (binary_operation_data_type_check addition o t u) ≡ sum_type t u
unfolding addition_test
binary_operation_data_type_check-sum_type o t u h k =
    let a = every-every-apply (addition_test o) t u (addition_tests o) in
    same_option_eq (found (binary_operation_data_type_check addition o t u)) (sum_type t u)
      (ground (arith, a, h, k))

commutes_test : BinaryOperation → Operands → SqlValueType → SqlValueType → Bool
unfolding found same_option binary_operation_data_type_check operation_check arithmetic_check
    arithmetic_operand date_time_addition_check date_time_subtraction_check cast_pair
    cast_ambiguous_types map_type_to_parameter_value cast_boolean_or_string
commutes_test op o t u =
    are parameter_value nul_value t u
    || same_option (found (binary_operation_data_type_check op o t u))
        (found (binary_operation_data_type_check op o u t))

commutes_tests :
    (op : BinaryOperation) (o : Operands)
    → (op ≡ addition) ⊎ (op ≡ multiplication)
    → every (λ t. every (λ u. commutes_test op o t u)) ≡ true
unfolding every all_of commutes_test found same_option binary_operation_data_type_check
    operation_check arithmetic_check arithmetic_operand date_time_addition_check
    date_time_subtraction_check cast_pair cast_ambiguous_types map_type_to_parameter_value
    cast_boolean_or_string
commutes_tests op o (inl e) =
    subst (λ x. every (λ t. every (λ u. commutes_test x o t u)) ≡ true) (sym e) refl
commutes_tests op o (inr e) =
    subst (λ x. every (λ t. every (λ u. commutes_test x o t u)) ≡ true) (sym e) refl

-- A sum or a product passes with its operands in either order or in none, and with the same type, unless
-- one is a parameter and the other NULL.
binary_operation_data_type_check_comm :
    (op : BinaryOperation) (o : Operands) (t u : SqlValueType)
    → (op ≡ addition) ⊎ (op ≡ multiplication)
    → are parameter_value nul_value t u ≡ false
    → found (binary_operation_data_type_check op o t u)
      ≡ found (binary_operation_data_type_check op o u t)
unfolding commutes_test
binary_operation_data_type_check_comm op o t u h k =
    let a = every-every-apply (commutes_test op o) t u (commutes_tests op o h) in
    same_option_eq (found (binary_operation_data_type_check op o t u))
      (found (binary_operation_data_type_check op o u t)) (ground (arith, a, k))
