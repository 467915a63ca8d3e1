-- ===== src/Types/Columns.antt =====
-- `check_column_lists_for_type_match` of src/check_column_lists_for_type_match.c: the types of two lists of columns, of
-- the operands of a set operation, or of the source and the target of an INSERT.
pub mod Unite
use ydbocto.Types.{
  nul_value, integer_literal, numeric_literal, boolean_value, boolean_or_string_literal,
  string_literal, date_literal, time_literal, timestamp_literal, time_with_time_zone_literal,
  timestamp_with_time_zone_literal, SqlValueType, is_nul_value, is_boolean_type, is_string_type,
  is_date, is_time, is_timestamp_type, is_date_time_type, same,
}
use ydbocto.Prelude.{
  Bool, true, false, not, ◌&&◌, ◌||◌, Option, none, some, List, [], ◌∷◌, if◌then◌else◌,
}

-- What one round of the loop does with a pair of columns: their new types, the cast put around the left one, and
-- `fixed_type`.
pub record Column : Type 0 where
  pub mismatch : Bool
  pub left : SqlValueType
  pub right : SqlValueType
  pub left_cast : Option SqlValueType
  pub is_fixed : Bool

abbrev pub has_date_part : SqlValueType → Bool
has_date_part t = is_timestamp_type t || is_date t

-- The types stay.
abbrev pub kept : Bool → SqlValueType → SqlValueType → Column
kept bad l r = record { mismatch = bad; left = l; right = r; left_cast = none; is_fixed = false }

-- A BOOLEAN_OR_STRING_LITERAL got a type.
abbrev pub settled : Bool → SqlValueType → SqlValueType → Column
settled bad l r = record { mismatch = bad; left = l; right = r; left_cast = none; is_fixed = true }

-- The switch over the type of the left column; none is the FATAL error of its `default`.
pub column_check : Bool → SqlValueType → SqlValueType → Option Column
column_check is_set boolean_value r = some (
    if same boolean_or_string_literal r
    then settled false boolean_value boolean_value
    else kept (not (is_boolean_type r)) boolean_value r)
column_check is_set integer_literal r = some (
    if same boolean_or_string_literal r
    then settled true integer_literal boolean_value
    else kept (not (is_nul_value r || same integer_literal r || same numeric_literal r))
        integer_literal r)
column_check is_set numeric_literal r = some (
    if same boolean_or_string_literal r
    then settled true numeric_literal boolean_value
    else kept (not (is_nul_value r || same integer_literal r || same numeric_literal r))
        numeric_literal r)
column_check is_set string_literal r = some (
    if same boolean_or_string_literal r
    then settled false string_literal string_literal
    else if is_date_time_type r
    then if is_set
      then record { mismatch = false; left = r; right = r; left_cast = some r; is_fixed = false }
      else kept false string_literal r
    else kept (not (is_string_type r)) string_literal r)
column_check is_set boolean_or_string_literal r = some (
    if same boolean_value r
    then settled false boolean_value r
    else if same string_literal r
    then settled false string_literal r
    else kept (not (same boolean_or_string_literal r || is_nul_value r)) boolean_or_string_literal
        r)
column_check is_set nul_value r = some (kept false nul_value r)
column_check is_set date_literal r = some (kept (not (has_date_part r)) date_literal r)
column_check is_set time_literal r = some (kept (not (is_time r)) time_literal r)
column_check is_set time_with_time_zone_literal r =
    some (kept (not (is_time r)) time_with_time_zone_literal r)
column_check is_set timestamp_literal r =
    some (kept (not (has_date_part r || not is_set && same time_literal r)) timestamp_literal r)
column_check is_set timestamp_with_time_zone_literal r = some (
    kept (not (has_date_part r || not is_set && same time_literal r))
      timestamp_with_time_zone_literal r)
column_check is_set _ r = none

-- The state behind the loop: whether a mismatch was found, `fixed_type`, the types of the columns of a set operation, and
-- the columns of either list that the other has no partner for.
pub record Walk : Type 0 where
  pub mismatch : Bool
  pub is_fixed : Bool
  pub types : List SqlValueType
  pub left_rest : List SqlValueType
  pub right_rest : List SqlValueType

-- Behind the first mismatch, which is `bad`, the types are not checked any more.
pub columns_loop : Bool → Bool → List SqlValueType → List SqlValueType → Option Walk
unfolding column_check
columns_loop is_set bad [] rs =
    some (record { mismatch = bad; is_fixed = false; types = []; left_rest = []; right_rest = rs })
columns_loop is_set bad (l ∷ ls) [] =
    some
      (record { mismatch = bad; is_fixed = false; types = []; left_rest = l ∷ ls; right_rest = [] })
columns_loop is_set bad (l ∷ ls) (r ∷ rs) =
    elim (if bad then some (kept true l r) else column_check is_set l r) [
      | none ↦ none
      | some c ↦ elim (columns_loop is_set c.mismatch ls rs) [
        | none ↦ none
        | some w ↦ some (record w {
          is_fixed = c.is_fixed || w.is_fixed;
          types = (if is_nul_value l then c.right else c.left) ∷ w.types;
        })
      ]
    ]

pub data ColumnsError : Type 0 where
  no_columns numcols_mismatch insert_too_many_expressions columns_type_mismatch : ColumnsError

pub data Columns : Type 0 where
  matched : Walk → Columns
  mismatched : ColumnsError → Columns
  fatal : Columns

abbrev pub is_empty : List SqlValueType → Bool
is_empty [] = true
is_empty (t ∷ ts) = false

-- The tests behind the loop; an INSERT may leave columns of its target out, and one with a list of columns was
-- checked before.
pub walked : Bool → Bool → Walk → Columns
walked is_set has_columns w =
    if is_set && not (is_empty w.left_rest && is_empty w.right_rest)
    then mismatched numcols_mismatch
    else if not is_set && not has_columns && not (is_empty w.left_rest)
    then mismatched insert_too_many_expressions
    else if w.mismatch
    then mismatched columns_type_mismatch
    else matched w

-- The right types of an INSERT with a list of columns are those of the columns' values.
pub check_column_lists_for_type_match :
    Bool → Bool → List SqlValueType → List SqlValueType → Columns
unfolding columns_loop walked
check_column_lists_for_type_match is_set has_columns ls rs =
    if is_empty ls || is_empty rs
    then mismatched no_columns
    else elim (columns_loop is_set false ls rs) [
      | none ↦ fatal
      | some w ↦ walked is_set has_columns w
    ]
