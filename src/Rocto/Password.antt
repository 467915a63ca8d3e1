-- ===== src/Rocto/Password.antt =====
-- The check of a client's password: src/rocto/handle_password_message.c, with `get_user_column_value` of
-- get_user_column_value.c and the hexadecimal digits of deserialize.c.
pub mod Hex
pub mod Columns
pub mod Login
use ydbocto.Prelude.{
  ℕ, zero, suc, ◌+◌, ◌/◌, ◌%◌, Bool, true, false, not, ◌&&◌, Option, none, some, List, [], ◌∷◌,
  ◌++◌, ltb, leb, ◌==◌, if◌then◌else◌, length, take, drop, replicate,
}
use ydbocto.Rocto.Message.{
  ◌>>=◌, ◌>>◌, Result, guard, string_or, ok, password_type, stray, missing_username, user_lookup,
  column_value, libcall, bad_password, db_lookup,
}
use ydbocto.Rocto.Startup.{Parm}
use ydbocto.Rocto.Bytes.{Bytes, codes}

-- A nibble as an ASCII digit.
abbrev pub hex_digit : ℕ → ℕ
hex_digit n = if ltb n 10 then n + 48 else n + 87

pub byte_to_hex : ℕ → Bytes
byte_to_hex c = hex_digit (c / 16) ∷ hex_digit (c % 16) ∷ []

pub hex_bytes : Bytes → Bytes
unfolding byte_to_hex
hex_bytes [] = []
hex_bytes (c ∷ b) = byte_to_hex c ++ hex_bytes b

-- The string in a buffer of `hex_len` bytes; none where the digits and their NUL do not fit.
pub md5_to_hex : Bytes → ℕ → Option Bytes
unfolding hex_bytes
md5_to_hex hash hex_len = if ltb hex_len 33 then none else some (hex_bytes (take 16 hash))

-- The bytes at which the scan for a column stops, the end of the row at the latest.
pub column_start : ℕ → Bytes → Bytes
column_start zero r = r
column_start (suc k) [] = []
column_start (suc k) (c ∷ r) =
    let next = column_start k r in
    let same = column_start (suc k) r in if c == b'|' then next else same

-- The bytes up to a delimiter; none where the scan leaves the row.
pub take_column : Bytes → Option Bytes
take_column [] = none
take_column (c ∷ r) =
    if c == b'|' then some [] else elim (take_column r) [ none ↦ none | some v ↦ some (c ∷ v) ]

-- `strncpy(buffer, b, length b)`
pub strncpy : Bytes → Bytes
strncpy [] = []
strncpy (c ∷ b) = if c == 0 then replicate (suc (length b)) 0 else c ∷ strncpy b

-- The bytes in the buffer; the result 0 is the empty list. A NUL behind the buffer is `stray`.
pub get_user_column_value : ℕ → Bytes → ℕ → Result Bytes
unfolding column_start take_column strncpy
get_user_column_value buf_len row column =
    if ltb 11 column then ok [] else elim (take_column (column_start column row)) [
      | none ↦ stray
      | some v ↦
          if ltb buf_len (length v)
          then ok []
          else if length v == buf_len
          then stray
          else ok (strncpy v)
    ]

-- `UserColumn_ROLPASSWORD`
abbrev pub rolpassword : ℕ
rolpassword = 10

-- `strncmp` and `strcmp` on strings without NUL.
unfoldable pub same : Bytes → Bytes → Bool
same [] [] = true
same (c ∷ a) (d ∷ b) = c == d && same a b
same _ _ = false

unfoldable pub find_user : List Parm → Option Bytes
unfolding same
find_user [] = none
find_user (p ∷ ps) = if same p.name (codes "user") then some p.value else find_user ps

-- `md5` is the TLS library's digest, `lookup` and `store` are the reads and writes of the database, and `max_ident`
-- is YottaDB's YDB_MAX_IDENT. A name of that length or more is copied without a NUL, and a
-- column shorter than its prefix makes `buf_len - 3` wrap around: both are `stray`.
module _ (md5 : Bytes → Bytes) (lookup : Bytes → Option Bytes) (store : Bytes → Bool)
    (max_ident : ℕ) where
  pub handle_password_message : Bytes → List Parm → Bytes → Result (Unit {0})
  unfolding same find_user get_user_column_value md5_to_hex
  handle_password_message password parms salt = do
    guard (same (take 3 password) (codes "md5")) password_type
    name ← string_or (find_user parms) missing_username
    if leb max_ident (length name) then stray else do
      row ← string_or (lookup name) user_lookup
      stored ← get_user_column_value 36 row rolpassword
      guard (not (length stored == 0)) column_value
      if ltb (length stored) 3 then stray else do
        hex ← string_or (md5_to_hex (md5 (drop 3 stored ++ take 4 salt)) 33) libcall
        guard (same hex (drop 3 password)) bad_password
        guard (store name) db_lookup
