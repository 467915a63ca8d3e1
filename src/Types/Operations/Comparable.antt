-- ===== src/Types/Operations/Comparable.antt =====
-- Which types can be compared, and what the unary operations take.
use ydbocto.Types.{
  unknown_value_type, SqlValueType, is_nul_value, is_boolean_type, is_time, is_date_time_type, same,
}
use ydbocto.Types.{
  boolean_value, integer_literal, numeric_literal, boolean_or_string_literal, string_literal,
  parameter_value, table_asterisk,
}
use ydbocto.Types.Ambiguous.{
  passed, failed, Checked, map_type_to_parameter_value, cast_boolean_or_string,
  cast_ambiguous_types,
}
use ydbocto.Types.Operations.{
  binary_equals, binary_not_equals, binary_less_than, binary_greater_than,
  binary_less_than_or_equals, binary_greater_than_or_equals, BinaryOperation, are,
}
use ydbocto.Types.Operations.Signs.{
  force_num, negative, unary_not, is_internal, sign_check, not_check,
  unary_operation_data_type_check,
}
use ydbocto.Types.Operations.Comparisons.{
  binary_operation_data_type_check, Operands, cast_pair, compared_types, is_comparable,
  date_time_comparison, comparison_check, operation_check, alias_type,
}
use ydbocto.Prelude.{
  ◌≡◌, refl, Bool, true, false, not, ◌&&◌, ◌||◌, none, arith, if◌then◌else◌, Option, some,
}
use ydbocto.Types.Finite.{all_of, every, every-every-apply}

-- An operand that is a column or not; the column is none of a set operation.
abbrev pub alias_of : Bool → Option (Option SqlValueType)
alias_of true = some none
alias_of false = none

-- The operands of a comparison, each a column or not, that are no columns of a set operation and no list.
abbrev pub plain : Bool → Bool → Bool → Bool → SqlValueType → Operands
plain is_left is_right tables_match is_plain v = record {
  left_alias = alias_of is_left;
  right_alias = alias_of is_right;
  items = none;
  tables_match = tables_match;
  is_plain = is_plain;
  date_time_return_type = v;
}

-- Two values can be compared when one is NULL, when their types are the same, or both are numbers, or
-- both are dates or times and neither or both only a time, or one is BOOLEAN or a string and the other a
-- literal that can be either. Rows of tables have to match.
unfoldable pub can_compare : Bool → SqlValueType → SqlValueType → Bool
can_compare tables_match t u =
    let is_row = same table_asterisk t || same table_asterisk u in
    let has_null = is_nul_value t || is_nul_value u in
    if is_row && (has_null || same t u)
    then tables_match
    else has_null
      || same t u
      || are integer_literal numeric_literal t u
      || are boolean_or_string_literal boolean_value t u
      || are boolean_or_string_literal string_literal t u
      || is_date_time_type t
        && is_date_time_type u
        && (is_time t && is_time u || not (is_time t) && not (is_time u))

abbrev pub is_relation : BinaryOperation → Bool
is_relation binary_equals = true
is_relation binary_not_equals = true
is_relation binary_less_than = true
is_relation binary_greater_than = true
is_relation binary_less_than_or_equals = true
is_relation binary_greater_than_or_equals = true
is_relation _ = false

abbrev pub passes {ℓ} : {A : Type ℓ} → Checked A → Bool
passes (passed a) = true
passes (failed e) = false

abbrev pub iff : Bool → Bool → Bool
iff true b = b
iff false b = not b

iff_eq : (a b : Bool) → iff a b ≡ true → a ≡ b
iff_eq a b h = ground (arith, h)

-- For operands that are columns or not.
abbrev iff_all : (Bool → Bool → Bool) → Bool → Bool
iff_all f b =
    iff (f false false) b && iff (f false true) b && iff (f true false) b && iff (f true true) b

iff_all_eq : (f : Bool → Bool → Bool) (a b c : Bool) → iff_all f c ≡ true → f a b ≡ c
iff_all_eq f false false c h = iff_eq (f false false) c (ground (arith, h))
iff_all_eq f false true c h = iff_eq (f false true) c (ground (arith, h))
iff_all_eq f true false c h = iff_eq (f true false) c (ground (arith, h))
iff_all_eq f true true c h = iff_eq (f true true) c (ground (arith, h))

compare_test : BinaryOperation → Bool → Bool → SqlValueType → SqlValueType → SqlValueType → Bool
unfolding can_compare binary_operation_data_type_check operation_check comparison_check alias_type
    compared_types date_time_comparison is_comparable cast_pair cast_ambiguous_types
    map_type_to_parameter_value cast_boolean_or_string
compare_test op m p v t u =
    same parameter_value t
    || same parameter_value u
    || iff_all (λ a b. passes (binary_operation_data_type_check op (plain a b m p v) t u))
        (can_compare m t u)

compare_tests :
    (op : BinaryOperation) (m p : Bool) (v : SqlValueType)
    → is_relation op ≡ true
    → every (λ t. every (λ u. compare_test op m p v t u)) ≡ true
unfolding every all_of compare_test can_compare binary_operation_data_type_check operation_check
    comparison_check alias_type compared_types date_time_comparison is_comparable cast_pair
    cast_ambiguous_types map_type_to_parameter_value cast_boolean_or_string
compare_tests binary_equals true p v h = refl
compare_tests binary_equals false p v h = refl
compare_tests binary_not_equals true p v h = refl
compare_tests binary_not_equals false p v h = refl
compare_tests binary_less_than true p v h = refl
compare_tests binary_less_than false p v h = refl
compare_tests binary_greater_than true p v h = refl
compare_tests binary_greater_than false p v h = refl
compare_tests binary_less_than_or_equals true p v h = refl
compare_tests binary_less_than_or_equals false p v h = refl
compare_tests binary_greater_than_or_equals true p v h = refl
compare_tests binary_greater_than_or_equals false p v h = refl
compare_tests _ m p v h = ground (arith, h)

-- Of two operands, columns of tables among them, that are no parameters, no columns of a set operation and no list, each of the operators =, <>, <, >, <= and >= takes
-- exactly those that can be compared.
pub binary_operation_data_type_check-can_compare :
    (op : BinaryOperation) (a b m p : Bool) (v t u : SqlValueType)
    → is_relation op ≡ true
    → same parameter_value t ≡ false
    → same parameter_value u ≡ false
    → passes (binary_operation_data_type_check op (plain a b m p v) t u) ≡ can_compare m t u
unfolding compare_test
binary_operation_data_type_check-can_compare op a b m p v t u r h k =
    let e = every-every-apply (compare_test op m p v) t u (compare_tests op m p v r) in
    iff_all_eq (λ x y. passes (binary_operation_data_type_check op (plain x y m p v) t u)) a b
      (can_compare m t u) (ground (arith, e, h, k))

-- NOT takes the types of a truth value, minus those of a number, and plus those of a number or NULL;
-- provided that the type is none of those that the switch rules out by an assertion.
pub unary_operation_data_type_check-passes :
    (is_literal : Bool) (t : SqlValueType)
    → is_internal t ≡ false
    → (passes (unary_operation_data_type_check unary_not is_literal t) ≡ is_boolean_type t)
      × (passes (unary_operation_data_type_check negative is_literal t)
          ≡ (same integer_literal t || same numeric_literal t))
      × (passes (unary_operation_data_type_check force_num is_literal t)
          ≡ (same integer_literal t || same numeric_literal t || is_nul_value t))
unfolding unary_operation_data_type_check not_check sign_check
unary_operation_data_type_check-passes b unknown_value_type h = ground (arith, h)
unary_operation_data_type_check-passes b _ h = ground (arith, h)
