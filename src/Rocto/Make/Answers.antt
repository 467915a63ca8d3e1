-- ===== src/Rocto/Make/Answers.antt =====
-- What a client reads out of the messages.
use ydbocto.Prelude.{
  ℕ, zero, suc, ◌+◌, ◌≤◌, ◌<◌, ◌≡◌, refl, ap, Option, none, some, List, [], ◌∷◌, ◌++◌, arith, ◌==◌,
  if◌then◌else◌, length, take, All, length-append,
}
use ydbocto.Rocto.Make.{
  StatementType, Severity, severity_str, ErrorResponseArg, put_args, make_error_response,
  make_command_complete, select, error, insert, delete_from, update,
}
use ydbocto.Rocto.Bytes.{Bytes, codes, NoNul, take_string, take_string-append}

pub take_all : (n : ℕ) (b : Bytes) → length b ≤ n → take n b ≡ b
take_all zero [] h = refl
take_all zero (c ∷ b) h = absurd (omega arith)
take_all (suc n) [] h = refl
take_all (suc n) (c ∷ b) h = ap (◌∷◌ c) (take_all n b (omega arith))

-- The words in front of a row count.
abbrev pub counted : StatementType → Option Bytes
counted select = some (codes "SELECT ")
counted insert = some (codes "INSERT 0 ")
counted delete_from = some (codes "DELETE ")
counted update = some (codes "UPDATE ")
counted _ = none

-- The tag of a statement with a row count is never cut: the count's decimal digits have at most
-- eleven characters, and the buffer holds them behind the longest words.
make_command_complete-counted :
    (print_int : ℕ → Bytes) (t : StatementType) (n : ℕ) (words : Bytes)
    → counted t ≡ some words
    → length (print_int n) ≤ 11
    → make_command_complete print_int t n
      ≡ some (record {
        type = b'C';
        length_field = 4 + (length words + length (print_int n) + 1);
        bytes = (words ++ print_int n) ++ 0 ∷ [];
      })
unfolding make_command_complete
make_command_complete-counted print_int select n words e l = ground (
  arith,
  take_all 36 (codes "SELECT " ++ print_int n),
  length-append (codes "SELECT ") (print_int n),
)
make_command_complete-counted print_int insert n words e l = ground (
  arith,
  take_all 36 (codes "INSERT 0 " ++ print_int n),
  length-append (codes "INSERT 0 ") (print_int n),
)
make_command_complete-counted print_int delete_from n words e l = ground (
  arith,
  take_all 36 (codes "DELETE " ++ print_int n),
  length-append (codes "DELETE ") (print_int n),
)
make_command_complete-counted print_int update n words e l = ground (
  arith,
  take_all 36 (codes "UPDATE " ++ print_int n),
  length-append (codes "UPDATE ") (print_int n),
)
make_command_complete-counted print_int _ n words e l = ground arith

-- A client's reading of an ErrorResponse: fields of a type and a string, up to a zero type.
pub decode_fields : ℕ → Bytes → Option (List ErrorResponseArg)
decode_fields zero b = none
decode_fields (suc fuel) [] = none
decode_fields (suc fuel) (t ∷ b) = if t == 0 then some [] else elim (take_string b) [
  | none ↦ none
  | some (s, rest) ↦ elim (decode_fields fuel rest) [
    | none ↦ none
    | some fs ↦ some (record { type = t; value = s } ∷ fs)
  ]
]

abbrev pub IsArg : ErrorResponseArg → Type 0
IsArg a = (0 < a.type) × NoNul a.value

decode_fields-put_args :
    (args : List ErrorResponseArg) (fuel : ℕ)
    → All IsArg args
    → length args < fuel
    → decode_fields fuel (put_args args (0 ∷ [])) ≡ some args
unfolding decode_fields put_args
decode_fields-put_args args zero h l = absurd (omega arith)
decode_fields-put_args [] (suc fuel) h l = refl
decode_fields-put_args (a ∷ args) (suc fuel) h l = ground (
  arith,
  take_string-append a.value (put_args args (0 ∷ [])) h.0.1,
  decode_fields-put_args args fuel h.1,
)

severity_str-NoNul : (s : Severity) → NoNul (severity_str s)
unfolding severity_str
severity_str-NoNul error = omega arith
severity_str-NoNul _ = omega arith

-- A client reads the severity, the code, the message and the arguments out of an ErrorResponse,
-- in this order and nothing else.
pub decode_fields-make_error_response :
    (severity : Severity) (code message : Bytes) (args : List ErrorResponseArg)
    → NoNul code
    → NoNul message
    → All IsArg args
    → decode_fields (length args + 4) (make_error_response severity code message args).bytes
      ≡ some (
          record { type = b'S'; value = severity_str severity }
          ∷ record { type = b'C'; value = code }
          ∷ record { type = b'M'; value = message }
          ∷ args)
unfolding make_error_response
decode_fields-make_error_response severity code message args hc hm ha =
    decode_fields-put_args
      (record { type = b'S'; value = severity_str severity }
        ∷ record { type = b'C'; value = code }
        ∷ record { type = b'M'; value = message }
        ∷ args)
      (length args + 4)
      ((omega arith, severity_str-NoNul severity), ((omega arith, hc), ((omega arith, hm), ha)))
      (omega arith)
