-- ===== src/Types/Conversions.antt =====
-- Round trips of the conversions between types.
use ydbocto.Types.{
  boolean_value, integer_literal, numeric_literal, string_literal, unknown_value_type,
  unknown_data_type, SqlValueType, is_date_time_type, SqlDataType, get_psql_type_from_sqlvaluetype,
  get_sqlvaluetype_from_psql_type, get_sqlvaluetype_from_sqldatatype, same,
}
use ydbocto.Types.{get_sqldatatype_from_sqlvaluetype}
use ydbocto.Prelude.{◌≡◌, refl, Bool, true, ◌||◌, arith, if◌then◌else◌}

-- The type of every column comes back from the type of its values.
get_sqldatatype_from_sqlvaluetype-get_sqlvaluetype_from_sqldatatype :
    (d : SqlDataType) → get_sqldatatype_from_sqlvaluetype (get_sqlvaluetype_from_sqldatatype d) ≡ d
unfolding get_sqldatatype_from_sqlvaluetype get_sqlvaluetype_from_sqldatatype
get_sqldatatype_from_sqlvaluetype-get_sqlvaluetype_from_sqldatatype unknown_data_type = refl
get_sqldatatype_from_sqlvaluetype-get_sqlvaluetype_from_sqldatatype _ = refl

-- The types of values that a column can have, but for BOOLEAN.
abbrev pub is_column_type : SqlValueType → Bool
is_column_type t =
    same integer_literal t || same numeric_literal t || same string_literal t || is_date_time_type t

-- A type that a column can have comes back from its type on the wire, unless it is BOOLEAN; BOOLEAN comes back as
-- the unknown type.
get_sqlvaluetype_from_psql_type-get_psql_type_from_sqlvaluetype :
    (t : SqlValueType)
    → is_column_type t || same boolean_value t ≡ true
    → get_sqlvaluetype_from_psql_type (get_psql_type_from_sqlvaluetype t)
      ≡ (if same boolean_value t then unknown_value_type else t)
unfolding get_sqlvaluetype_from_psql_type get_psql_type_from_sqlvaluetype
get_sqlvaluetype_from_psql_type-get_psql_type_from_sqlvaluetype unknown_value_type h = refl
get_sqlvaluetype_from_psql_type-get_psql_type_from_sqlvaluetype _ h = ground (arith, h)
