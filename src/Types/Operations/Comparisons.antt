-- ===== src/Types/Operations/Comparisons.antt =====
-- Comparisons, and the whole of `binary_operation_data_type_check`, src/binary_operation_data_type_check.c.
use ydbocto.Types.{
  boolean_value, table_asterisk, SqlValueType, is_nul_value, is_boolean_type, is_string_type,
  is_time, is_date_time_type, same,
}
use ydbocto.Types.Ambiguous.{
  passed, failed, type_not_compatible, type_mismatch, table_asterisk_scalar_comparison, Checked,
  map_type_to_parameter_value, cast_boolean_or_string, cast_ambiguous_types,
}
use ydbocto.Types.Operations.{
  addition, subtraction, division, multiplication, modulo, concat, binary_or, binary_and, binary_is,
  binary_is_not, regex_sensitive_like, regex_sensitive_similarto, binary_equals, binary_in,
  binary_not_in, date_time_addition, date_time_subtraction, regex_sensitive, regex_insensitive,
  regex_insensitive_like, regex_insensitive_similarto, BinaryOperation, Binary, arithmetic_check,
  concat_check,
}
use ydbocto.Prelude.{
  [], Bool, true, false, not, ◌&&◌, ◌||◌, Option, none, some, List, ◌∷◌, if◌then◌else◌,
}

-- What the check reads of the two statements. An operand that is a column alias is `some`, with the type
-- that `get_set_operation_column_alias_type` finds where the alias is of a set operation and no
-- `t1.*`. `items` are the right operand where it is a list of columns, each with that type where it is such
-- an alias. `tables_match` is that `validate_table_asterisk_binary_operation` finds no error, and `is_plain`
-- that `regex_has_no_special_characters` is 1.
pub record Operands : Type 0 where
  pub left_alias : Option (Option SqlValueType)
  pub right_alias : Option (Option SqlValueType)
  pub items : Option (List (Option SqlValueType))
  pub tables_match : Bool
  pub is_plain : Bool
  pub date_time_return_type : SqlValueType

-- The type of an operand, replaced where it is the column of a set operation.
unfoldable pub alias_type : Option (Option SqlValueType) → SqlValueType → SqlValueType
alias_type (some (some v)) t = v
alias_type _ t = t

abbrev pub is_alias : Option (Option SqlValueType) → Bool
is_alias none = false
is_alias (some a) = true

-- The types of the two operands, before the last tests.
pub record Pair : Type 0 where
  pub left : SqlValueType
  pub right : SqlValueType

unfoldable pub cast_pair : SqlValueType → SqlValueType → Checked Pair
unfolding cast_ambiguous_types map_type_to_parameter_value cast_boolean_or_string
cast_pair t u = elim (cast_ambiguous_types t u) [
  | passed c ↦ passed (record { left = c.left; right = c.right })
  | failed e ↦ failed e
]

-- The loop over the list of IN, up to the first item of another type.
unfoldable pub in_items : SqlValueType → SqlValueType → List (Option SqlValueType) → Checked Pair
unfolding cast_pair
in_items t u [] = passed (record { left = t; right = u })
in_items t u (none ∷ is) = in_items t u is
in_items t u (some v ∷ is) = let rest = in_items t v is in if same t v then rest else cast_pair t v

abbrev pub is_in : BinaryOperation → Bool
is_in binary_in = true
is_in binary_not_in = true
is_in _ = false

-- The types to be compared; `l` and `r` are not both TABLE_ASTERISK.
unfoldable pub compared_types :
    BinaryOperation → Operands → SqlValueType → SqlValueType → Checked Pair
unfolding alias_type in_items cast_pair
compared_types op o l r =
    if is_in op
    then if same table_asterisk l
      then failed type_mismatch
      else (let t = alias_type o.left_alias l in
          elim o.items [
            | none ↦ passed (record { left = t; right = r })
            | some is ↦ in_items t r is
          ])
    else if is_alias o.left_alias || is_alias o.right_alias
    then if is_alias o.left_alias
        && is_alias o.right_alias
        && (same table_asterisk l || same table_asterisk r)
      then failed table_asterisk_scalar_comparison
      else cast_pair (alias_type o.left_alias l) (alias_type o.right_alias r)
    else passed (record { left = l; right = r })

-- Whether two dates or times may be compared, past the test that neither or both are times. Of IS and
-- IS NOT the right operand has to be NULL; `u` is its type as it was.
unfoldable pub is_comparable : BinaryOperation → SqlValueType → Bool
is_comparable binary_is u = is_nul_value u
is_comparable binary_is_not u = is_nul_value u
is_comparable _ u = true

unfoldable pub date_time_comparison : BinaryOperation → SqlValueType → Pair → Pair
unfolding is_comparable
date_time_comparison op u p =
    if is_date_time_type p.left && is_date_time_type p.right
    then if is_time p.left && not (is_time p.right) || is_time p.right && not (is_time p.left)
      then p
      else if is_comparable op u
      then record { left = p.right; right = p.right }
      else p
    else p

unfoldable pub comparison_check :
    BinaryOperation → Operands → SqlValueType → SqlValueType → SqlValueType → Checked Binary
unfolding compared_types date_time_comparison
comparison_check op o u l r =
    let boolean : Pair → Checked Binary = λ p.
      passed (record { operation = op; type = boolean_value; left = p.left; right = p.right }) in
    if same table_asterisk l && same table_asterisk r
    then if o.tables_match then boolean (record { left = l; right = r }) else failed type_mismatch
    else elim (compared_types op o l r) [
      | failed e ↦ failed e
      | passed p ↦ boolean (date_time_comparison op u p)
    ]

-- Both operands have to pass a test.
unfoldable pub both_check :
    (SqlValueType → Bool) → BinaryOperation → SqlValueType → SqlValueType → Checked Binary
both_check test op l r =
    if test l && test r
    then passed (record { operation = op; type = boolean_value; left = l; right = r })
    else failed type_not_compatible

-- LIKE and SIMILAR TO with a pattern of plain characters are the operator `=`.
abbrev pub without_pattern : Bool → BinaryOperation → BinaryOperation
without_pattern true regex_sensitive_like = binary_equals
without_pattern true regex_sensitive_similarto = binary_equals
without_pattern _ op = op

-- The switch over the operations.
unfoldable pub operation_check :
    BinaryOperation
    → Operands
    → SqlValueType
    → SqlValueType
    → SqlValueType
    → SqlValueType
    → Checked Binary
unfolding arithmetic_check concat_check both_check comparison_check
operation_check addition o t u l r = arithmetic_check addition t u l r
operation_check subtraction o t u l r = arithmetic_check subtraction t u l r
operation_check division o t u l r = arithmetic_check division t u l r
operation_check multiplication o t u l r = arithmetic_check multiplication t u l r
operation_check modulo o t u l r = arithmetic_check modulo t u l r
operation_check concat o t u l r = concat_check t u l r
operation_check binary_or o t u l r = both_check is_boolean_type binary_or l r
operation_check binary_and o t u l r = both_check is_boolean_type binary_and l r
operation_check regex_sensitive o t u l r = both_check is_string_type regex_sensitive l r
operation_check regex_insensitive o t u l r = both_check is_string_type regex_insensitive l r
operation_check regex_insensitive_like o t u l r =
    both_check is_string_type regex_insensitive_like l r
operation_check regex_insensitive_similarto o t u l r =
    both_check is_string_type regex_insensitive_similarto l r
operation_check regex_sensitive_like o t u l r =
    both_check is_string_type (without_pattern o.is_plain regex_sensitive_like) l r
operation_check regex_sensitive_similarto o t u l r =
    both_check is_string_type (without_pattern o.is_plain regex_sensitive_similarto) l r
operation_check date_time_addition o t u l r =
    let v = o.date_time_return_type in
    passed (record { operation = date_time_addition; type = v; left = v; right = v })
operation_check date_time_subtraction o t u l r =
    let v = o.date_time_return_type in
    passed (record { operation = date_time_subtraction; type = v; left = v; right = v })
operation_check op o t u l r = comparison_check op o u l r

unfoldable pub binary_operation_data_type_check :
    BinaryOperation → Operands → SqlValueType → SqlValueType → Checked Binary
unfolding cast_pair operation_check
binary_operation_data_type_check op o t u = elim (cast_pair t u) [
  | failed e ↦ failed e
  | passed c ↦ elim (operation_check op o t u c.left c.right) [
    | failed e ↦ failed e
    | passed b ↦ if same b.left b.right then passed b else failed type_mismatch
  ]
]
