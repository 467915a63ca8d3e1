-- ===== src/Tests/Reading.antt =====
-- Messages for the readers of src/rocto/read_query.c and its siblings.
use ydbocto.Prelude.{◌≡◌, refl, [], ◌∷◌, arith}
use ydbocto.Rocto.Message.{ok}
use ydbocto.Rocto.Read.{Parse, read_parse}
use ydbocto.Rocto.Bytes.{Bytes, codes, IsBytes, NoNul}
use ydbocto.Rocto.Read.Encode.{parse_message, IsParse}
use ydbocto.Rocto.Read.Sound.{read_parse_iff}

abbrev text : Bytes
text = codes "SELECT 1;"

text-NoNul : NoNul text
text-NoNul = ground arith

abbrev two_types : Parse
two_types = record { dest = codes "s"; query = text; parm_data_types = 23 ∷ 25 ∷ [] }

two_types-IsParse : IsParse two_types
two_types-IsParse = record {
  dest_string = ground arith;
  query_string = text-NoNul;
  few_types = ground arith;
  types_fit = ground arith;
}

parse-IsBytes : IsBytes (parse_message two_types).bytes
parse-IsBytes = ground arith

read_parse_iff_example : read_parse (parse_message two_types) ≡ ok two_types
read_parse_iff_example =
    (read_parse_iff (parse_message two_types) two_types parse-IsBytes).1 (refl, two_types-IsParse)
