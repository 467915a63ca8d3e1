-- ===== src/Types.antt =====
-- The types of values: `SqlValueType` of src/octo_types.h with the tests of src/octo.h, and its
-- conversions from and to `SqlDataType` and `PSQL_TypeOid`.
pub mod Finite
pub mod Conversions
pub mod Ambiguous
pub mod Same
pub mod Operations
pub mod Columns
use ydbocto.Prelude.{ℕ, Bool, ◌||◌, ◌==◌}

-- `SqlValueType`. The names of types that also stand for a result say so.
pub data SqlValueType : Type 0 where
  unknown_value_type boolean_value numeric_literal integer_literal string_literal : SqlValueType
  column_reference calculated_value function_name function_hash parameter_value nul_value :
      SqlValueType
  coerce_type delim_value is_null_literal table_asterisk boolean_or_string_literal : SqlValueType
  select_asterisk date_literal time_literal time_with_time_zone_literal : SqlValueType
  timestamp_literal timestamp_with_time_zone_literal invalid_value_type : SqlValueType

-- The number of an enumerator, by which C compares.
abbrev pub code : SqlValueType → ℕ
code unknown_value_type = 0
code boolean_value = 1
code numeric_literal = 2
code integer_literal = 3
code string_literal = 4
code column_reference = 5
code calculated_value = 6
code function_name = 7
code function_hash = 8
code parameter_value = 9
code nul_value = 10
code coerce_type = 11
code delim_value = 12
code is_null_literal = 13
code table_asterisk = 14
code boolean_or_string_literal = 15
code select_asterisk = 16
code date_literal = 17
code time_literal = 18
code time_with_time_zone_literal = 19
code timestamp_literal = 20
code timestamp_with_time_zone_literal = 21
code invalid_value_type = 22

abbrev pub same : SqlValueType → SqlValueType → Bool
same a b = code a == code b

abbrev pub is_nul_value : SqlValueType → Bool
is_nul_value t = same nul_value t

abbrev pub is_boolean_type : SqlValueType → Bool
is_boolean_type t = same boolean_value t || same boolean_or_string_literal t || is_nul_value t

abbrev pub is_string_type : SqlValueType → Bool
is_string_type t = same string_literal t || same boolean_or_string_literal t || is_nul_value t

abbrev pub is_date : SqlValueType → Bool
is_date t = same date_literal t

abbrev pub is_time : SqlValueType → Bool
is_time t = same time_literal t || same time_with_time_zone_literal t

abbrev pub is_timestamp_type : SqlValueType → Bool
is_timestamp_type t = same timestamp_literal t || same timestamp_with_time_zone_literal t

abbrev pub is_date_time_type : SqlValueType → Bool
is_date_time_type t = is_date t || is_time t || is_timestamp_type t

-- `SqlDataType`, the type of a column.
pub data SqlDataType : Type 0 where
  unknown_data_type boolean_type integer_type numeric_type string_type nul_type : SqlDataType
  date_type time_type time_with_time_zone_type timestamp_type : SqlDataType
  timestamp_with_time_zone_type : SqlDataType

-- `PSQL_TypeOid`, the type of a parameter or a column on the wire.
pub data PsqlTypeOid : Type 0 where
  type_oid_bool type_oid_int8 type_oid_int2 type_oid_int4 type_oid_unknown type_oid_varchar
        type_oid_numeric type_oid_date :
      PsqlTypeOid
  type_oid_time type_oid_timetz type_oid_timestamp type_oid_timestamptz : PsqlTypeOid

-- The conversions are those of a build without assertions.
unfoldable pub get_psql_type_from_sqlvaluetype : SqlValueType → PsqlTypeOid
get_psql_type_from_sqlvaluetype boolean_value = type_oid_bool
get_psql_type_from_sqlvaluetype integer_literal = type_oid_int4
get_psql_type_from_sqlvaluetype numeric_literal = type_oid_numeric
get_psql_type_from_sqlvaluetype boolean_or_string_literal = type_oid_varchar
get_psql_type_from_sqlvaluetype string_literal = type_oid_varchar
get_psql_type_from_sqlvaluetype parameter_value = type_oid_unknown
get_psql_type_from_sqlvaluetype nul_value = type_oid_unknown
get_psql_type_from_sqlvaluetype date_literal = type_oid_date
get_psql_type_from_sqlvaluetype time_literal = type_oid_time
get_psql_type_from_sqlvaluetype time_with_time_zone_literal = type_oid_timetz
get_psql_type_from_sqlvaluetype timestamp_literal = type_oid_timestamp
get_psql_type_from_sqlvaluetype timestamp_with_time_zone_literal = type_oid_timestamptz
get_psql_type_from_sqlvaluetype _ = type_oid_unknown

pub get_sqlvaluetype_from_psql_type : PsqlTypeOid → SqlValueType
get_sqlvaluetype_from_psql_type type_oid_int2 = integer_literal
get_sqlvaluetype_from_psql_type type_oid_int4 = integer_literal
get_sqlvaluetype_from_psql_type type_oid_int8 = integer_literal
get_sqlvaluetype_from_psql_type type_oid_numeric = numeric_literal
get_sqlvaluetype_from_psql_type type_oid_varchar = string_literal
get_sqlvaluetype_from_psql_type type_oid_date = date_literal
get_sqlvaluetype_from_psql_type type_oid_time = time_literal
get_sqlvaluetype_from_psql_type type_oid_timetz = time_with_time_zone_literal
get_sqlvaluetype_from_psql_type type_oid_timestamp = timestamp_literal
get_sqlvaluetype_from_psql_type type_oid_timestamptz = timestamp_with_time_zone_literal
get_sqlvaluetype_from_psql_type _ = unknown_value_type

pub get_sqldatatype_from_sqlvaluetype : SqlValueType → SqlDataType
get_sqldatatype_from_sqlvaluetype boolean_value = boolean_type
get_sqldatatype_from_sqlvaluetype integer_literal = integer_type
get_sqldatatype_from_sqlvaluetype numeric_literal = numeric_type
get_sqldatatype_from_sqlvaluetype boolean_or_string_literal = string_type
get_sqldatatype_from_sqlvaluetype string_literal = string_type
get_sqldatatype_from_sqlvaluetype nul_value = nul_type
get_sqldatatype_from_sqlvaluetype date_literal = date_type
get_sqldatatype_from_sqlvaluetype time_literal = time_type
get_sqldatatype_from_sqlvaluetype time_with_time_zone_literal = time_with_time_zone_type
get_sqldatatype_from_sqlvaluetype timestamp_literal = timestamp_type
get_sqldatatype_from_sqlvaluetype timestamp_with_time_zone_literal = timestamp_with_time_zone_type
get_sqldatatype_from_sqlvaluetype _ = unknown_data_type

-- `is_unknown_type_okay` decides over an assertion only.
pub get_sqlvaluetype_from_sqldatatype : SqlDataType → SqlValueType
get_sqlvaluetype_from_sqldatatype boolean_type = boolean_value
get_sqlvaluetype_from_sqldatatype integer_type = integer_literal
get_sqlvaluetype_from_sqldatatype numeric_type = numeric_literal
get_sqlvaluetype_from_sqldatatype string_type = string_literal
get_sqlvaluetype_from_sqldatatype nul_type = nul_value
get_sqlvaluetype_from_sqldatatype date_type = date_literal
get_sqlvaluetype_from_sqldatatype time_type = time_literal
get_sqlvaluetype_from_sqldatatype time_with_time_zone_type = time_with_time_zone_literal
get_sqlvaluetype_from_sqldatatype timestamp_type = timestamp_literal
get_sqlvaluetype_from_sqldatatype timestamp_with_time_zone_type = timestamp_with_time_zone_literal
get_sqlvaluetype_from_sqldatatype unknown_data_type = unknown_value_type
