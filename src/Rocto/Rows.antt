-- ===== src/Rocto/Rows.antt =====
-- Rows and their descriptions: src/rocto/make_data_row.c, make_row_description.c and read_row_description.c, with
-- `get_type_size_from_psql_type` of src/emit_sql_statement.c.
pub mod DataRows
pub mod Descriptions
use ydbocto.Prelude.{
  ℕ, zero, suc, ◌+◌, ◌-◌, ◌^◌, not, ◌||◌, Option, none, some, List, [], ◌∷◌, ◌++◌, map, ltb, leb,
  ◌==◌, if◌then◌else◌, length,
}
use ydbocto.Rocto.Message.{◌>>=◌, ◌>>◌, Result, ok, stray, err, libcall}
use ydbocto.Rocto.Make.{Outgoing}
use ydbocto.Rocto.Bytes.{Bytes, take_string, read16, read32, put16, put32}
use ydbocto.Text.Patterns.{written}

-- `PSQL_TypeOid`
abbrev pub oid_int4 : ℕ
oid_int4 = 23

-- The fixed sizes of `PSQL_TypeSize`; none for a negative one, which means a variable size.
unfoldable pub get_type_size_from_psql_type : ℕ → Option ℕ
get_type_size_from_psql_type oid =
    if oid == 23
    then some 4
    else if oid == 16
    then some 1
    else if oid == 1082
    then some 4
    else if oid == 1083
    then some 8
    else if oid == 1266
    then some 12
    else if oid == 1114
    then some 8
    else if oid == 1184
    then some 8
    else none

-- A column's value, or none for NULL (length -1), its format code and its type.
pub record DataRowParm : Type 0 where
  pub value : Option Bytes
  pub format : ℕ
  pub column_type : ℕ

abbrev pub value_length : Option Bytes → ℕ
value_length none = 0
value_length (some v) = length v

-- The first pass: the bytes to allocate for a column, its length field included.
unfoldable pub parm_size : DataRowParm → ℕ
parm_size p =
    if p.format == 0
    then value_length p.value + 4
    else elim (get_type_size_from_psql_type p.column_type) [
      | none ↦ value_length p.value + 4
      | some n ↦ n + 4
    ]

-- The bytes of all columns, before they are cut to the `int32_t` that C adds them up in.
unfoldable pub row_size : List DataRowParm → ℕ
unfolding parm_size
row_size [] = 0
row_size (p ∷ ps) = parm_size p + row_size ps

-- `COPY_TEXT_PARM`; the length of NULL is -1.
abbrev pub copy_text_parm : Option Bytes → Bytes
copy_text_parm none = put32 (2 ^ 32 - 1)
copy_text_parm (some v) = put32 (length v) ++ v

-- `strtol` is the C library's, on a text that has an `int32_t` for its value, as a bit pattern;
-- none for other texts.
module _ (strtol : Bytes → Option ℕ) where
  -- The second pass for one column. The text of an integer is first copied, with a NUL, into a
  -- buffer of twelve bytes.
  pub copy_parm : DataRowParm → Result Bytes
  copy_parm p =
      if p.format == 0 || not (p.column_type == oid_int4)
      then ok (copy_text_parm p.value)
      else elim p.value [
        | none ↦ ok (put32 (2 ^ 32 - 1))
        | some v ↦
            if ltb (length v) 12
            then elim (strtol v) [ none ↦ err libcall | some n ↦ ok (put32 4 ++ put32 n) ]
            else stray
      ]

  -- `room` is what is left of the allocated block. A column that is written behind it is `stray`.
  pub copy_parms : ℕ → List DataRowParm → Result Bytes
  unfolding copy_parm
  copy_parms room [] = ok []
  copy_parms room (p ∷ ps) = do
    b ← copy_parm p
    if ltb room (length b) then stray else do rest ← copy_parms (room - length b) ps; ok (b ++ rest)

  -- `length` is an `int32_t`; a row for which it overflows has a block that is too small, and is `stray`.
  pub make_data_row : List DataRowParm → Result Outgoing
  unfolding copy_parms row_size
  make_data_row ps = do
    let length_field = row_size ps + 4 + 2
    written ← if leb (2 ^ 31) length_field then stray else copy_parms (row_size ps) ps
    ok (record { type = b'D'; length_field = length_field; bytes = put16 (length ps) ++ written })

pub record RowDescriptionParm : Type 0 where
  pub name : Bytes
  pub table_id : ℕ
  pub column_id : ℕ
  pub data_type : ℕ
  pub data_type_size : ℕ
  pub type_modifier : ℕ
  pub format_code : ℕ

-- `sizeof(RowDescriptionParm) - sizeof(char *)`
abbrev pub fixed_size : ℕ
fixed_size = 4 + 2 + 4 + 2 + 4 + 2

pub description_size : List RowDescriptionParm → ℕ
description_size [] = 0
description_size (p ∷ ps) = (length p.name + 1) + fixed_size + description_size ps

-- `tolower` is the C library's.
module _ (tolower : ℕ → ℕ) where
  pub put_descriptions : List RowDescriptionParm → Bytes → Bytes
  put_descriptions [] rest = rest
  put_descriptions (p ∷ ps) rest =
      map tolower p.name
      ++ 0
        ∷ (put32 p.table_id
            ++ (put16 p.column_id
                ++ (put32 p.data_type
                    ++ (put16 p.data_type_size
                        ++ (put32 p.type_modifier
                            ++ (put16 p.format_code ++ put_descriptions ps rest))))))

  pub make_row_description : List RowDescriptionParm → Outgoing
  unfolding description_size put_descriptions
  make_row_description ps = record {
    type = b'T';
    length_field = description_size ps + 4 + 2;
    bytes = put16 (length ps) ++ put_descriptions ps [];
  }

abbrev pub number_or {ℓ} : {A : Type ℓ} → Option A → Result A
number_or none = stray
number_or (some a) = ok a

-- The reader has no test of its own: what it reads behind the message is `stray`.
pub read_descriptions : ℕ → Bytes → Result (List RowDescriptionParm)
read_descriptions zero b = ok []
read_descriptions (suc n) b = do
  (name, r1) ← number_or (take_string b)
  (table_id, r2) ← number_or (read32 r1)
  (column_id, r3) ← number_or (read16 r2)
  (data_type, r4) ← number_or (read32 r3)
  (data_type_size, r5) ← number_or (read16 r4)
  (type_modifier, r6) ← number_or (read32 r5)
  (format_code, r7) ← number_or (read16 r6)
  ps ← read_descriptions n r7
  ok (
      record {
        name = name;
        table_id = table_id;
        column_id = column_id;
        data_type = data_type;
        data_type_size = data_type_size;
        type_modifier = type_modifier;
        format_code = format_code;
      }
      ∷ ps)

pub read_row_description : Bytes → Result (List RowDescriptionParm)
unfolding read_descriptions
read_row_description b = do
  (num_parms, rest) ← number_or (read16 b)
  read_descriptions num_parms rest
