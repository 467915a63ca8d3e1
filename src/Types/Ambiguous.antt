-- ===== src/Types/Ambiguous.antt =====
-- The macros CAST_AMBIGUOUS_TYPES and MAP_TYPE_TO_PARAMETER_VALUE of src/octo_type_check.h, and what the second
-- writes into the array of parameter types.
pub mod Growth
use ydbocto.Types.{
  parameter_value, integer_literal, numeric_literal, boolean_or_string_literal, boolean_value,
  string_literal, same,
}
use ydbocto.Types.{
  SqlValueType, PsqlTypeOid, is_nul_value, is_date_time_type, get_psql_type_from_sqlvaluetype,
}
use ydbocto.Prelude.{
  [], ℕ, zero, suc, ◌-◌, ◌*◌, ◌&&◌, ◌||◌, Option, none, some, List, ◌∷◌, ◌++◌, ltb, leb, ◌==◌,
  if◌then◌else◌, length, ◌≡◌, refl, ◌⊎◌, inl, inr,
}

-- The errors of the type checks, by their message.
pub data TypeError : Type 0 where
  feature_not_implemented type_mismatch type_not_compatible : TypeError
  invalid_input_syntax invalid_boolean_syntax not_operation_type_mismatch : TypeError
  table_asterisk_scalar_comparison : TypeError

-- `result`: 0, with what the check leaves behind, or 1 with the first error.
pub data Checked {ℓ} (A : Type ℓ) : Type ℓ where
  passed : A → Checked A
  failed : TypeError → Checked A

pub Checked-cases {ℓ} :
    {A : Type ℓ} (c : Checked A) → ((a : A) × (c ≡ passed a)) ⊎ ((e : TypeError) × (c ≡ failed e))
Checked-cases (passed a) = inl (a, refl)
Checked-cases (failed e) = inr (e, refl)

-- The two types behind the macro, and the type that it notes for the current parameter.
pub record Cast : Type 0 where
  pub left : SqlValueType
  pub right : SqlValueType
  pub noted : Option SqlValueType

-- The new `TYPE_1`.
unfoldable pub map_type_to_parameter_value : SqlValueType → SqlValueType → Checked SqlValueType
map_type_to_parameter_value t u =
    if same parameter_value u && same parameter_value t
    then failed feature_not_implemented
    else if is_date_time_type t && same parameter_value u
        || same parameter_value t && is_date_time_type u
    then failed type_mismatch
    else passed u

-- The new type of a BOOLEAN_OR_STRING_LITERAL against another type.
unfoldable pub cast_boolean_or_string : SqlValueType → SqlValueType
cast_boolean_or_string boolean_value = boolean_value
cast_boolean_or_string string_literal = string_literal
cast_boolean_or_string _ = boolean_or_string_literal

unfoldable pub cast_ambiguous_types : SqlValueType → SqlValueType → Checked Cast
unfolding map_type_to_parameter_value cast_boolean_or_string
cast_ambiguous_types t u =
    if same parameter_value t || is_nul_value t
    then elim (map_type_to_parameter_value t u) [
      | passed v ↦ passed (record { left = v; right = u; noted = some u })
      | failed e ↦ failed e
    ]
    else if same parameter_value u || is_nul_value u
    then elim (map_type_to_parameter_value u t) [
      | passed v ↦ passed (record { left = t; right = v; noted = some t })
      | failed e ↦ failed e
    ]
    else if same integer_literal t && same numeric_literal u
    then passed (record { left = u; right = u; noted = none })
    else if same integer_literal u && same numeric_literal t
    then passed (record { left = t; right = t; noted = none })
    else if same boolean_or_string_literal t
    then passed (record { left = cast_boolean_or_string u; right = u; noted = none })
    else if same boolean_or_string_literal u
    then passed (record { left = t; right = cast_boolean_or_string t; noted = none })
    else passed (record { left = t; right = u; noted = none })

-- `cur_param_num`, `types` and `types_size` of `ParseContext`; a type that is not known yet is 0, here none.
pub record ParseContext : Type 0 where
  pub cur_param_num : ℕ
  pub types : List (Option PsqlTypeOid)

abbrev pub int16_max : ℕ
int16_max = 32767

-- `memset` of new entries with 0.
pub unset : ℕ → List (Option PsqlTypeOid)
unset zero = []
unset (suc n) = none ∷ unset n

-- DOUBLE_ARRAY_ALLOCATION, with its limit INT16_MAX.
pub double_array_allocation : List (Option PsqlTypeOid) → List (Option PsqlTypeOid)
unfolding unset
double_array_allocation types =
    let size = length types in
    let new_size = if ltb int16_max (size * 2) then int16_max else size * 2 in
    types ++ unset (new_size - size)

-- EXPAND_ARRAY_ALLOCATION
pub expand_array_allocation : ℕ → List (Option PsqlTypeOid) → List (Option PsqlTypeOid)
unfolding unset
expand_array_allocation new_size types = types ++ unset (new_size - length types)

pub grown : ℕ → List (Option PsqlTypeOid) → List (Option PsqlTypeOid)
unfolding double_array_allocation expand_array_allocation
grown num types =
    if leb (length types) num
    then double_array_allocation
        (if ltb (2 * length types) num then expand_array_allocation num types else types)
    else types

-- `types[i] = t`: none where `i` is behind the array.
pub set_type : ℕ → PsqlTypeOid → List (Option PsqlTypeOid) → Option (List (Option PsqlTypeOid))
set_type i t [] = none
set_type zero t (x ∷ xs) = some (some t ∷ xs)
set_type (suc i) t (x ∷ xs) = elim (set_type i t xs) [ none ↦ none | some ys ↦ some (x ∷ ys) ]

-- The note of a parameter's type; there is nothing to note where no parameter was seen.
pub note_parameter : ParseContext → SqlValueType → Option ParseContext
unfolding grown set_type
note_parameter context t =
    if context.cur_param_num == 0
    then some context
    else elim (set_type (context.cur_param_num - 1) (get_psql_type_from_sqlvaluetype t)
        (grown context.cur_param_num context.types)) [
          | none ↦ none
          | some types ↦ some (record context { types = types })
        ]
