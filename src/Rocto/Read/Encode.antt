-- ===== src/Rocto/Read/Encode.antt =====
-- What a client sends: the layouts of the PostgreSQL protocol, written independently of the readers.
use ydbocto.Prelude.{ℕ, List, [], ◌∷◌, ◌++◌, length, All, ◌<◌, ◌^◌}
use ydbocto.Rocto.Bytes.{Bytes, NoNul, put16, put32}
use ydbocto.Rocto.Message.{
  BaseMessage, psql_query, psql_password_message, psql_parse, psql_describe, psql_close,
  psql_execute,
}
use ydbocto.Rocto.Read.{Parse, Target, Execute}

-- A string with its NUL, in front of what follows.
abbrev pub cstring : Bytes → Bytes → Bytes
cstring s rest = s ++ 0 ∷ rest

abbrev pub put_types : List ℕ → Bytes
put_types [] = []
put_types (t ∷ ts) = put32 t ++ put_types ts

abbrev pub query_message : Bytes → BaseMessage
query_message s = record { type = psql_query; bytes = cstring s [] }

abbrev pub password_message : Bytes → BaseMessage
password_message s = record { type = psql_password_message; bytes = cstring s [] }

abbrev pub parse_message : Parse → BaseMessage
parse_message p = record {
  type = psql_parse;
  bytes =
      cstring p.dest
        (cstring p.query (put16 (length p.parm_data_types) ++ put_types p.parm_data_types));
}

-- What a Parse message can carry.
pub record IsParse (p : Parse) : Type 0 where
  pub dest_string : NoNul p.dest
  pub query_string : NoNul p.query
  pub few_types : length p.parm_data_types < 2 ^ 15
  pub types_fit : All (λ t. t < 2 ^ 32) p.parm_data_types

abbrev pub describe_message : Target → BaseMessage
describe_message t = record { type = psql_describe; bytes = t.item ∷ cstring t.name [] }

abbrev pub close_message : Target → BaseMessage
close_message t = record { type = psql_close; bytes = t.item ∷ cstring t.name [] }

abbrev pub execute_message : Execute → BaseMessage
execute_message e = record {
  type = psql_execute;
  bytes = cstring e.source (put32 e.rows_to_return);
}
