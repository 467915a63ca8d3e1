-- ===== src/Tests/Sending.antt =====
-- Messages that src/rocto/make_*.c builds.

use ydbocto.Prelude.{ℕ, ◌≡◌, some, [], ◌∷◌, ◌++◌, arith, Option, zero, suc, none, List, get_elem?}
use ydbocto.Rocto.Make.{Outgoing, ErrorResponseArg, make_error_response, severity_str, error}
use ydbocto.Rocto.Bytes.{codes}
use ydbocto.Rocto.Make.Framing.{wire, read_frame, read_frame-wire}
use ydbocto.Rocto.Make.Answers.{decode_fields, decode_fields-make_error_response}

abbrev detail : ErrorResponseArg
detail = record { type = b'D'; value = codes "line 1" }

abbrev seven_rows : Outgoing
seven_rows = record { type = b'C'; length_field = 13; bytes = codes "SELECT 7" ++ 0 ∷ [] }

abbrev stored_types : List ℕ
stored_types = 23 ∷ 25 ∷ []

abbrev type_of : ℕ → Option ℕ
type_of zero = none
type_of (suc k) = get_elem? stored_types k

read_frame-wire_example :
    read_frame (wire seven_rows ++ 5 ∷ []) ≡ some (b'C', seven_rows.bytes, 5 ∷ [])
read_frame-wire_example = read_frame-wire seven_rows (5 ∷ []) (ground arith) (ground arith)

decode_fields-make_error_response_example :
    decode_fields 5
      (make_error_response error (codes "42601") (codes "syntax error") (detail ∷ [])).bytes
    ≡ some (
        record { type = b'S'; value = severity_str error }
        ∷ record { type = b'C'; value = codes "42601" }
        ∷ record { type = b'M'; value = codes "syntax error" }
        ∷ detail
        ∷ [])
decode_fields-make_error_response_example =
    decode_fields-make_error_response error (codes "42601") (codes "syntax error") (detail ∷ [])
      (ground arith) (ground arith) (ground arith)
