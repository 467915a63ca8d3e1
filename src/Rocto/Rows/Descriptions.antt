-- ===== src/Rocto/Rows/Descriptions.antt =====
-- RowDescription: the writer and the reader agree.
use ydbocto.Prelude.{
  ℕ, ◌+◌, ◌^◌, ◌<◌, ◌≡◌, refl, List, [], ◌∷◌, ◌++◌, map, arith, length, All, length-append,
  length-map,
}
use ydbocto.Rocto.Bytes.{Bytes, NoNul, take_string-append, put16, put32, read16-put16, read32-put32}
use ydbocto.Rocto.Rows.{
  RowDescriptionParm, description_size, put_descriptions, make_row_description, read_descriptions,
  read_row_description, ok,
}
use ydbocto.Rocto.Make.Framing.{IsFramed}

-- The fields of a description fit their places.
pub record IsDescription (p : RowDescriptionParm) : Type 0 where
  pub name_string : NoNul p.name
  pub fits32 : (p.table_id < 2 ^ 32) × (p.data_type < 2 ^ 32) × (p.type_modifier < 2 ^ 32)
  pub fits16 : (p.column_id < 2 ^ 16) × (p.data_type_size < 2 ^ 16) × (p.format_code < 2 ^ 16)

module _ (tolower : ℕ → ℕ) where
  abbrev pub lowered : RowDescriptionParm → RowDescriptionParm
  lowered p = record p { name = map tolower p.name }

  length-put_descriptions :
      (ps : List RowDescriptionParm) (rest : Bytes)
      → length (put_descriptions tolower ps rest) ≡ description_size ps + length rest
  unfolding put_descriptions description_size
  length-put_descriptions [] rest = omega arith
  length-put_descriptions (p ∷ ps) rest = omega (
    arith,
    length-append (map tolower p.name) (0 ∷ fields),
    length-map tolower p.name,
    length-put_descriptions ps rest,
  )
    where
      fields : Bytes
      fields =
          put32 p.table_id
          ++ (put16 p.column_id
              ++ (put32 p.data_type
                  ++ (put16 p.data_type_size
                      ++ (put32 p.type_modifier
                          ++ (put16 p.format_code ++ put_descriptions tolower ps rest)))))

  -- The length that the first pass counts is the length of what the second pass writes.
  make_row_description-IsFramed :
      (ps : List RowDescriptionParm) → IsFramed (make_row_description tolower ps)
  unfolding make_row_description
  make_row_description-IsFramed ps = omega (arith, length-put_descriptions ps [])

  module _ (tolower_pos : (c : ℕ) → 0 < c → 0 < tolower c) where
    NoNul-map : (s : Bytes) → NoNul s → NoNul (map tolower s)
    NoNul-map [] h = tt
    NoNul-map (c ∷ s) h = (tolower_pos c h.0, NoNul-map s h.1)

    read_descriptions-put_descriptions :
        (ps : List RowDescriptionParm)
        → All IsDescription ps
        → read_descriptions (length ps) (put_descriptions tolower ps []) ≡ ok (map lowered ps)
    unfolding read_descriptions put_descriptions
    read_descriptions-put_descriptions [] h = refl
    read_descriptions-put_descriptions (p ∷ ps) h =
        let r6 = put16 p.format_code ++ put_descriptions tolower ps [] in
        let r5 = put32 p.type_modifier ++ r6 in
        let r4 = put16 p.data_type_size ++ r5 in
        let r3 = put32 p.data_type ++ r4 in
        let r2 = put16 p.column_id ++ r3 in
        ground (
          arith,
          take_string-append (map tolower p.name) (put32 p.table_id ++ r2)
              (NoNul-map p.name h.0.name_string),
          read32-put32 p.table_id r2 h.0.fits32.0,
          read16-put16 p.column_id r3 h.0.fits16.0,
          read32-put32 p.data_type r4 h.0.fits32.1,
          read16-put16 p.data_type_size r5 h.0.fits16.1,
          read32-put32 p.type_modifier r6 h.0.fits32.2,
          read16-put16 p.format_code (put_descriptions tolower ps []) h.0.fits16.2,
          read_descriptions-put_descriptions ps h.1,
        )

    -- The reader gets back the descriptions that the writer was given, in order, with their names
    -- in lower case.
    pub read_row_description-make_row_description :
        (ps : List RowDescriptionParm)
        → All IsDescription ps
        → length ps < 2 ^ 15
        → read_row_description (make_row_description tolower ps).bytes ≡ ok (map lowered ps)
    unfolding read_row_description make_row_description
    read_row_description-make_row_description ps h l = ground (
      arith,
      read16-put16 (length ps) (put_descriptions tolower ps []),
      read_descriptions-put_descriptions ps h,
    )
