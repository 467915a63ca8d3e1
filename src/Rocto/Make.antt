-- ===== src/Rocto/Make.antt =====
-- The messages that ROcto sends, but for rows: src/rocto/make_*.c. A message that C allocates is its type, the
-- value of its length field, and the bytes that are written behind that field.
pub mod Framing
pub mod Tags
pub mod Answers
use ydbocto.Prelude.{
  ℕ, zero, suc, ◌+◌, ◌-◌, ◌*◌, ◌%◌, Option, none, some, List, [], ◌∷◌, ◌++◌, leb, if◌then◌else◌,
  length, take, ltb,
}
use ydbocto.Rocto.Startup.{Parm}
use ydbocto.Rocto.Bytes.{Bytes, codes, put16, put32}
use ydbocto.Rocto.Message.{◌>>=◌, ◌>>◌, Result, guard, string_or, ok, db_lookup, libcall, stray}

pub record Outgoing : Type 0 where
  pub type : ℕ
  pub length_field : ℕ
  pub bytes : Bytes

pub make_authentication_ok : Outgoing
make_authentication_ok = record { type = b'R'; length_field = 8; bytes = put32 0 }

-- The salt is what the `getrandom` call delivers; where the call fails there is no message.
pub make_authentication_md5_password : Option Bytes → Option Outgoing
make_authentication_md5_password none = none
make_authentication_md5_password (some salt) =
    some (record { type = b'R'; length_field = 4 + 4 + 4; bytes = put32 5 ++ take 4 salt })

pub make_backend_key_data : ℕ → ℕ → Outgoing
make_backend_key_data secret_key pid = record {
  type = b'K';
  length_field = 4 + 4 + 4;
  bytes = put32 pid ++ put32 secret_key;
}

pub make_bind_complete : Outgoing
make_bind_complete = record { type = b'2'; length_field = 4; bytes = [] }

pub make_close_complete : Outgoing
make_close_complete = record { type = b'3'; length_field = 4; bytes = [] }

pub make_empty_query_response : Outgoing
make_empty_query_response = record { type = b'I'; length_field = 4; bytes = [] }

pub make_no_data : Outgoing
make_no_data = record { type = b'n'; length_field = 4; bytes = [] }

pub make_parse_complete : Outgoing
make_parse_complete = record { type = b'1'; length_field = 4; bytes = [] }

pub make_portal_suspended : Outgoing
make_portal_suspended = record { type = b's'; length_field = 4; bytes = [] }

-- `PSQL_TransactionStatus`
pub data TransactionStatus : Type 0 where
  idle transaction failed : TransactionStatus

pub status_byte : TransactionStatus → ℕ
status_byte idle = b'I'
status_byte transaction = b'T'
status_byte failed = b'E'

pub make_ready_for_query : TransactionStatus → Outgoing
unfolding status_byte
make_ready_for_query status = record {
  type = b'Z';
  length_field = 4 + 1;
  bytes = status_byte status ∷ [];
}

-- A NULL parameter makes no message.
pub make_parameter_status : Option Parm → Option Outgoing
make_parameter_status none = none
make_parameter_status (some p) = some (record {
  type = b'S';
  length_field = 4 + (length p.name + 1) + (length p.value + 1);
  bytes = p.name ++ 0 ∷ (p.value ++ 0 ∷ []);
})

-- The statements that have a command tag (`SqlStatementType`), and all others.
pub data StatementType : Type 0 where
  select insert delete_from update set show : StatementType
  drop_table drop_view create_table create_view drop_function create_function : StatementType
  truncate_table other : StatementType

-- `MAX_TAG_LEN`
abbrev pub max_tag_len : ℕ
max_tag_len = 10 + (1 + 12) + (1 + 12) + 1

-- `snprintf(buffer, size, …)`: the text without what does not fit in front of the NUL.
abbrev pub snprintf : ℕ → Bytes → Bytes
snprintf size text = take (size - 1) text

-- `PSQL_ErrorSeverity`
pub data Severity : Type 0 where
  error fatal panic warning notice debug info log unknown_severity : Severity

pub severity_str : Severity → Bytes
severity_str error = codes "ERROR"
severity_str fatal = codes "FATAL"
severity_str panic = codes "PANIC"
severity_str warning = codes "WARNING"
severity_str notice = codes "NOTICE"
severity_str debug = codes "DEBUG"
severity_str info = codes "INFO"
severity_str log = codes "LOG"
severity_str unknown_severity = codes "UNKNOWN"

pub response_type : Severity → ℕ
response_type log = b'N'
response_type info = b'N'
response_type debug = b'N'
response_type notice = b'N'
response_type warning = b'N'
response_type _ = b'E'

pub record ErrorResponseArg : Type 0 where
  pub type : ℕ
  pub value : Bytes

-- The first pass, which counts.
pub args_length : List ErrorResponseArg → ℕ
args_length [] = 0
args_length (a ∷ args) = 1 + (length a.value + 1) + args_length args

-- The second pass, which copies.
pub put_args : List ErrorResponseArg → Bytes → Bytes
put_args [] rest = rest
put_args (a ∷ args) rest = a.type ∷ (a.value ++ 0 ∷ put_args args rest)

-- `code` is the text of the SQLSTATE.
pub make_error_response : Severity → Bytes → Bytes → List ErrorResponseArg → Outgoing
unfolding severity_str response_type args_length put_args
make_error_response severity code message args =
    let new_length =
      args_length args
      + (length (severity_str severity) + 2)
      + (length code + 2)
      + (length message + 2)
      + 1 in
    record {
      type = response_type severity;
      length_field = new_length + 4;
      bytes =
          b'S'
          ∷ (severity_str severity
              ++ 0 ∷ b'C' ∷ (code ++ 0 ∷ b'M' ∷ (message ++ 0 ∷ put_args args (0 ∷ []))));
    }

-- `print_int` is the "%d" of `snprintf`.
module _ (print_int : ℕ → Bytes) where
  command_tag : StatementType → ℕ → Option Bytes
  command_tag select n = some (snprintf max_tag_len (codes "SELECT " ++ print_int n))
  command_tag insert n = some (snprintf max_tag_len (codes "INSERT 0 " ++ print_int n))
  command_tag delete_from n = some (snprintf max_tag_len (codes "DELETE " ++ print_int n))
  command_tag update n = some (snprintf max_tag_len (codes "UPDATE " ++ print_int n))
  command_tag set n = some (snprintf max_tag_len (codes "SET"))
  command_tag show n = some (snprintf max_tag_len (codes "SHOW"))
  command_tag drop_table n = some (snprintf max_tag_len (codes "DROP TABLE"))
  command_tag drop_view n = some (snprintf max_tag_len (codes "DROP VIEW"))
  command_tag create_table n = some (snprintf max_tag_len (codes "CREATE TABLE"))
  command_tag create_view n = some (snprintf max_tag_len (codes "CREATE VIEW"))
  command_tag drop_function n = some (snprintf max_tag_len (codes "DROP FUNCTION"))
  command_tag create_function n = some (snprintf max_tag_len (codes "CREATE FUNCTION"))
  command_tag truncate_table n = some (snprintf max_tag_len (codes "TRUNCATE TABLE"))
  command_tag other n = none

  pub make_command_complete : StatementType → ℕ → Option Outgoing
  unfolding command_tag
  make_command_complete cmd_type row_count = elim (command_tag cmd_type row_count) [
    | none ↦ none
    | some tag ↦
        some (record { type = b'C'; length_field = 4 + (length tag + 1); bytes = tag ++ 0 ∷ [] })
  ]

-- `make_parameter_description` over the database: the number of parameters that it holds for the
-- statement, and the type of each; none where a node is missing.
read_parm_types : (ℕ → Option ℕ) → ℕ → ℕ → Result (List ℕ)
read_parm_types get zero i = ok []
read_parm_types get (suc n) i = do
  t ← string_or (get (i + 1)) db_lookup
  guard (leb t 2147483647) libcall
  ts ← read_parm_types get n (i + 1)
  ok (t ∷ ts)

put_parm_types : List ℕ → Bytes
put_parm_types [] = []
put_parm_types (t ∷ ts) = put32 t ++ put_parm_types ts

-- The number is cut to an `int16_t`: its range test is a disjunction that always holds. A negative
-- one fails the `assert`.
pub make_parameter_description : Option ℕ → (ℕ → Option ℕ) → Result Outgoing
unfolding read_parm_types put_parm_types
make_parameter_description stored get = do
  test_type ← string_or stored db_lookup
  let num_parms = test_type % 65536
  if ltb 32767 num_parms then stray else do
    ts ← read_parm_types get num_parms 0
    ok (record {
      type = b't';
      length_field = 4 + 2 + 4 * num_parms;
      bytes = put16 num_parms ++ put_parm_types ts;
    })
