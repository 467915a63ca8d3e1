-- ===== src/Rocto/Rows/DataRows.antt =====
-- DataRow: what a client reads out of a row, and the columns for which the two passes disagree.
use mathlib.Core.Option
use ydbocto.Prelude.{
  ℕ, ◌<◌, ◌≡◌, ◌≢◌, Option, none, some, arith, length, zero, suc, ◌+◌, ◌-◌, ◌^◌, refl, List, [],
  ◌∷◌, ◌++◌, append_assoc, ◌==◌, if◌then◌else◌, take, drop, All, length-append, take-append,
  drop-append,
}
use ydbocto.Rocto.Bytes.{Bytes, put32, read16, read32, put16, read16-put16, read32-put32}
use ydbocto.Rocto.Rows.{
  oid_int4, get_type_size_from_psql_type, DataRowParm, parm_size, copy_text_parm, copy_parm, ok,
  value_length, row_size, copy_parms, make_data_row, stray,
}
use ydbocto.Rocto.Make.{Outgoing}
use ydbocto.Rocto.Make.Framing.{IsFramed}

get_type_size-int4 : get_type_size_from_psql_type oid_int4 ≡ some 4
unfolding get_type_size_from_psql_type
get_type_size-int4 = refl

length-copy_text_parm : (v : Option Bytes) → length (copy_text_parm v) ≡ value_length v + 4
length-copy_text_parm none = refl
length-copy_text_parm (some v) = omega arith

-- Cells on the wire, and a client's reading of them: the length -1 means NULL.
abbrev pub put_cells : List (Option Bytes) → Bytes
put_cells [] = []
put_cells (c ∷ cs) = copy_text_parm c ++ put_cells cs

pub decode_cells : ℕ → Bytes → Option (List (Option Bytes))
decode_cells zero b = some []
decode_cells (suc k) b = elim (read32 b) [
  | none ↦ none
  | some (n, rest) ↦
      let null = decode_cells k rest in
      let value = decode_cells k (drop n rest) in
      if n == 2 ^ 32 - 1
      then Option.map (λ cs. none ∷ cs) null
      else Option.map (λ cs. some (take n rest) ∷ cs) value
]

pub decode_row : Bytes → Option (List (Option Bytes))
unfolding decode_cells
decode_row b = elim (read16 b) [ none ↦ none | some (k, rest) ↦ decode_cells k rest ]

abbrev pub FitsCell : Option Bytes → Type 0
FitsCell none = Unit
FitsCell (some v) = length v < 2 ^ 31

-- Cells that fit together fit one by one.
put_cells-FitsCell :
    (cells : List (Option Bytes)) → length (put_cells cells) < 2 ^ 31 → All FitsCell cells
put_cells-FitsCell [] h = tt
put_cells-FitsCell (none ∷ cs) h =
    (tt, put_cells-FitsCell cs (omega (arith, length-append (copy_text_parm none) (put_cells cs))))
put_cells-FitsCell (some v ∷ cs) h =
    let n = length-append (copy_text_parm (some v)) (put_cells cs) in
    let m = length-copy_text_parm (some v) in
    (omega (arith, n, m), put_cells-FitsCell cs (omega (arith, n)))

decode_cells-put_cells :
    (cells : List (Option Bytes))
    → All FitsCell cells
    → decode_cells (length cells) (put_cells cells) ≡ some cells
unfolding decode_cells
decode_cells-put_cells [] h = refl
decode_cells-put_cells (none ∷ cs) h =
    ground (arith, read32-put32 (2 ^ 32 - 1) (put_cells cs), decode_cells-put_cells cs h.1)
decode_cells-put_cells (some v ∷ cs) h = ground (
  arith,
  read32-put32 (length v) (v ++ put_cells cs),
  append_assoc (put32 (length v)) v (put_cells cs),
  take-append v (put_cells cs),
  drop-append v (put_cells cs),
  decode_cells-put_cells cs h.1,
)

module _ (strtol : Bytes → Option ℕ) where
  -- The cell that a client has to get for a column: its text, or the integer in network order.
  pub data Cell (p : DataRowParm) : Option Bytes → Type 0 where
    text : p.format ≡ 0 → Cell p p.value
    variable : p.format ≢ 0 → get_type_size_from_psql_type p.column_type ≡ none → Cell p p.value
    int4 :
        {v : Bytes} (n : ℕ)
        → p.format ≢ 0
        → p.column_type ≡ oid_int4
        → p.value ≡ some v
        → length v < 12
        → strtol v ≡ some n
        → Cell p (some (put32 n))

  copy_parm-Cell :
      {p : DataRowParm} {cell : Option Bytes}
      → Cell p cell
      → (copy_parm strtol p ≡ ok (copy_text_parm cell))
        × (length (copy_text_parm cell) ≡ parm_size p)
  unfolding copy_parm parm_size
  copy_parm-Cell {p} (text f) = (ground arith, ground (arith, length-copy_text_parm p.value))
  copy_parm-Cell {p} (variable f s) =
      (ground (arith, s, get_type_size-int4), ground (arith, s, length-copy_text_parm p.value))
  copy_parm-Cell {p} (int4 n f t v l e) = (ground arith, ground (arith, get_type_size-int4))

  pub data Cells : List DataRowParm → List (Option Bytes) → Type 0 where
    nil : Cells [] []
    cons :
        {p : DataRowParm} {cell : Option Bytes} {ps : List DataRowParm}
        {cells : List (Option Bytes)}
        → Cell p cell
        → Cells ps cells
        → Cells (p ∷ ps) (cell ∷ cells)

  copy_parms-Cells :
      {ps : List DataRowParm} {cells : List (Option Bytes)}
      → Cells ps cells
      → (copy_parms strtol (row_size ps) ps ≡ ok (put_cells cells))
        × (length (put_cells cells) ≡ row_size ps)
        × (length ps ≡ length cells)
  unfolding copy_parms row_size
  copy_parms-Cells nil = (refl, refl, refl)
  copy_parms-Cells (cons {p} {cell} {ps} {cells} c cs) =
      let (e, l) = copy_parm-Cell c in
      let (es, ls, n) = copy_parms-Cells cs in
      let left : parm_size p + row_size ps - length (copy_text_parm cell) ≡ row_size ps =
        omega arith in
      (
        ground (arith, e, l, es, left),
        omega (arith, length-append (copy_text_parm cell) (put_cells cells)),
        omega arith,
      )

  -- A row of text columns, columns of variable size and integers in range, with less than 2^15 columns and a length
  -- field below 2^31, is sent with the length field that frames it, and a client reads each column's value out of
  -- it, NULL included.
  pub make_data_row-Cells :
      {ps : List DataRowParm} {cells : List (Option Bytes)}
      → Cells ps cells
      → length ps < 2 ^ 15
      → row_size ps + 6 < 2 ^ 31
      → (o : Outgoing) × (make_data_row strtol ps ≡ ok o)
        × IsFramed o
        × (decode_row o.bytes ≡ some cells)
  unfolding make_data_row decode_row
  make_data_row-Cells {ps} {cells} c l b =
      let (e, s, n) = copy_parms-Cells c in
      let h = put_cells-FitsCell cells (omega (arith, s)) in
      (
        record {
          type = b'D';
          length_field = row_size ps + 4 + 2;
          bytes = put16 (length ps) ++ put_cells cells;
        },
        ground (arith, e),
        omega arith,
        ground
            (arith, read16-put16 (length ps) (put_cells cells), n, decode_cells-put_cells cells h),
      )

  -- A NULL integer in binary format is sent with a length field that counts four bytes too many.
  make_data_row-null_int4 :
      (p : DataRowParm)
      → p.format ≢ 0
      → p.column_type ≡ oid_int4
      → p.value ≡ none
      → (o : Outgoing) × (make_data_row strtol (p ∷ []) ≡ ok o)
        × (o.length_field ≡ length o.bytes + 8)
  unfolding make_data_row copy_parm parm_size
  make_data_row-null_int4 p f t v = (
    record { type = b'D'; length_field = 4 + 4 + 4 + 2; bytes = put16 1 ++ put32 (2 ^ 32 - 1) },
    ground (arith, get_type_size-int4),
    refl,
  )

  -- A value of another type with a fixed size, in binary format, is written behind the allocated
  -- block when its text is longer than that size.
  make_data_row-overflow :
      (p : DataRowParm) (v : Bytes) (n : ℕ)
      → p.format ≢ 0
      → p.column_type ≢ oid_int4
      → get_type_size_from_psql_type p.column_type ≡ some n
      → p.value ≡ some v
      → n < length v
      → make_data_row strtol (p ∷ []) ≡ stray
  unfolding make_data_row copy_parm parm_size
  make_data_row-overflow p v n f t s e l = ground (arith, s)
