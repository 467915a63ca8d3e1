-- ===== src/Rocto/Read.antt =====
-- The readers of frontend messages: src/rocto/read_query.c, read_password_message.c, read_parse.c, read_describe.c,
-- read_close.c, read_execute.c, read_sync.c and read_flush.c.
pub mod Encode
pub mod RoundTrip
pub mod Targets
pub mod Sound
use ydbocto.Prelude.{
  ℕ, zero, suc, ◌+◌, ◌*◌, Bool, true, false, not, ◌||◌, List, [], ◌∷◌, ◌++◌, none, some, length,
  drop, leb, ◌==◌,
}
use ydbocto.Rocto.Bytes.{Bytes, take_string, read32}
use ydbocto.Rocto.Message.{
  BaseMessage, message_length, Result, ok, err, stray, ◌>>=◌, ◌>>◌, guard, string_or, peek16,
  is_int16, slack, psql_query, psql_password_message, psql_parse, psql_describe, psql_close,
  psql_execute, psql_sync, psql_flush, Field, query, password, destination, num_parm_data_types,
  parm_data_types, name, source, rows_to_return, length_field, invalid_message_type, missing_data,
  missing_null, trailing_chars, invalid_number, too_many_values, invalid_item_value,
  invalid_int_value,
}

abbrev pub is_nil : Bytes → Bool
is_nil [] = true
is_nil (_ ∷ _) = false

-- The one string of a Query or PasswordMessage, and the tests behind the loop.
only_string : Field → Bytes → Result Bytes
only_string field [] = err (missing_data field)
only_string field (c ∷ r) = do
  (s, rest) ← string_or (take_string (c ∷ r)) (missing_null field)
  guard (is_nil rest) trailing_chars
  ok s

-- The query text.
pub read_query : BaseMessage → Result Bytes
unfolding only_string
read_query m = do guard (m.type == psql_query) invalid_message_type; only_string query m.bytes

-- The password.
pub read_password_message : BaseMessage → Result Bytes
unfolding only_string
read_password_message m = do
  guard (m.type == psql_password_message) invalid_message_type
  only_string password m.bytes

pub record Parse : Type 0 where
  pub dest : Bytes
  pub query : Bytes
  pub parm_data_types : List ℕ

-- `for (i = 0; i < n; i++) types[i] = ntohl(types[i])` over the copied bytes.
pub read_types : ℕ → Bytes → Result (List ℕ)
read_types zero r = ok []
read_types (suc n) r = elim (read32 r) [
  | none ↦ stray
  | some (t, rest) ↦ do ts ← read_types n rest; ok (t ∷ ts)
]

pub read_parse : BaseMessage → Result Parse
read_parse m = do
  guard (m.type == psql_parse) invalid_message_type
  (dest, r1) ← string_or (take_string m.bytes) (missing_null destination)
  guard (not (is_nil r1)) (missing_data destination)
  (text, r2) ← string_or (take_string r1) (missing_null query)
  guard (not (is_nil r2)) (missing_data num_parm_data_types)
  n ← peek16 4 r2
  guard (is_int16 n) (invalid_number parm_data_types)
  guard (leb (length r2) (2 + 4 * n)) (too_many_values parm_data_types)
  guard (leb (2 + 4 * n) (length r2)) (missing_data parm_data_types)
  types ← read_types n (drop 2 r2)
  ok (record { dest = dest; query = text; parm_data_types = types })

-- What a Describe or Close message names: its item, 'S' or 'P', and the name behind it.
pub record Target : Type 0 where
  pub item : ℕ
  pub name : Bytes

abbrev pub is_item : ℕ → Bool
is_item c = c == b'S' || c == b'P'

-- The scan for the name's NUL has no bound of its own: it ends in the zeroed bytes at the latest.
describe_name : ℕ → Bytes → Result Target
describe_name item r = elim (take_string (r ++ slack 5)) [
  | none ↦ stray
  | some (s, rest) ↦ do
    guard (leb 5 (length rest)) (missing_null name)
    guard (leb (length rest) 5) trailing_chars
    ok (record { item = item; name = s })
]

-- With no byte of data, `item` is the first zeroed byte.
describe_item : Bytes → Result Target
unfolding describe_name
describe_item [] = err invalid_item_value
describe_item (c ∷ r) = do guard (is_item c) invalid_item_value; describe_name c r

pub read_describe : BaseMessage → Result Target
unfolding describe_item
read_describe m = do guard (m.type == psql_describe) invalid_message_type; describe_item m.bytes

-- The block ends with the message, so that with no byte of data `item` lies outside of it.
close_item : Bytes → Result Target
close_item [] = stray
close_item (c ∷ r) = do
  guard (is_item c) invalid_item_value
  (s, rest) ← string_or (take_string r) (missing_null name)
  guard (is_nil rest) trailing_chars
  ok (record { item = c; name = s })

pub read_close : BaseMessage → Result Target
unfolding close_item
read_close m = do guard (m.type == psql_close) invalid_message_type; close_item m.bytes

pub record Execute : Type 0 where
  pub source : Bytes
  pub rows_to_return : ℕ

pub read_execute : BaseMessage → Result Execute
read_execute m = do
  guard (m.type == psql_execute) invalid_message_type
  (s, r) ← string_or (take_string m.bytes) (missing_null source)
  guard (leb 4 (length r)) (missing_data rows_to_return)
  guard (length r == 4) trailing_chars
  elim (read32 r) [ none ↦ stray | some (n, _) ↦ ok (record { source = s; rows_to_return = n }) ]

-- Sync and Flush have no data.
pub read_sync : BaseMessage → Result (Unit {0})
read_sync m = do
  guard (m.type == psql_sync) invalid_message_type
  guard (message_length m == 4) (invalid_int_value length_field)

pub read_flush : BaseMessage → Result (Unit {0})
read_flush m = do
  guard (m.type == psql_flush) invalid_message_type
  guard (message_length m == 4) (invalid_int_value length_field)
