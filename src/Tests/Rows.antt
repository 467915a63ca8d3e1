-- ===== src/Tests/Rows.antt =====
-- Columns for src/rocto/make_data_row.c and make_row_description.c.
use ydbocto.Rocto.Message.{ok}
use ydbocto.Prelude.{ℕ, Option, none, some, ◌-◌, ◌^◌, ◌≡◌, refl, [], ◌∷◌, arith, ◌+◌, ◌<◌}
use ydbocto.Rocto.Bytes.{Bytes, codes}
use ydbocto.Rocto.Rows.{
  DataRowParm, make_data_row, RowDescriptionParm, make_row_description, read_row_description,
  parm_size, row_size,
}
use ydbocto.Rocto.Make.{Outgoing}
use ydbocto.Rocto.Rows.DataRows.{decode_row, Cells, make_data_row-Cells, text}
use ydbocto.Rocto.Rows.Descriptions.{IsDescription, read_row_description-make_row_description}
use ydbocto.Rocto.Make.Framing.{IsFramed}

abbrev named : DataRowParm
named = record { value = some (codes "Ada"); format = 0; column_type = 1043 }

abbrev unknown : DataRowParm
unknown = record { value = none; format = 0; column_type = 1043 }

abbrev long_date : DataRowParm
long_date = record { value = some (codes "2024-01-31"); format = 1; column_type = 1082 }

-- A stand-in for the C library's.
abbrev no_number : Bytes → Option ℕ
no_number b = none

abbrev same_case : ℕ → ℕ
same_case c = c

row_size-small : row_size (named ∷ unknown ∷ []) + 6 < 2 ^ 31
unfolding row_size parm_size
row_size-small = ground arith

make_data_row-Cells_example :
    (o : Outgoing) × (make_data_row no_number (named ∷ unknown ∷ []) ≡ ok o)
    × IsFramed o
    × (decode_row o.bytes ≡ some (some (codes "Ada") ∷ none ∷ []))
make_data_row-Cells_example =
    make_data_row-Cells no_number (Cells.cons (text refl) (Cells.cons (text refl) Cells.nil))
      (ground arith) row_size-small

abbrev column : RowDescriptionParm
column = record {
  name = codes "id";
  table_id = 0;
  column_id = 0;
  data_type = 23;
  data_type_size = 4;
  type_modifier = 2 ^ 32 - 1;
  format_code = 0;
}

column-IsDescription : IsDescription column
column-IsDescription = record {
  name_string = ground arith;
  fits32 = ground arith;
  fits16 = ground arith;
}

read_row_description-make_row_description_example :
    read_row_description (make_row_description same_case (column ∷ [])).bytes ≡ ok (column ∷ [])
read_row_description-make_row_description_example =
    read_row_description-make_row_description same_case (λ c h. h) (column ∷ [])
      (column-IsDescription, tt) (ground arith)
