-- ===== src/Rocto/Startup.antt =====
-- The first messages of a connection, which have no type byte: src/rocto/read_startup_message.c,
-- read_ssl_request.c and read_cancel_request.c.
pub mod Passes
pub mod RoundTrip
pub mod Requests
use ydbocto.Prelude.{
  ℕ, zero, suc, ◌+◌, ◌-◌, not, none, some, List, [], ◌∷◌, ltb, ◌==◌, leb, ◌^◌, ◌||◌, if◌then◌else◌,
  length,
}
use ydbocto.Rocto.Message.{
  ◌>>=◌, ◌>>◌, Result, guard, string_or, stray, err, invalid_version, invalid_int_value, ok,
  missing_null, length_field, missing_data, parameter_name, parameter_list, request_code,
  name_or_value, trailing_chars, missing_username,
}
use ydbocto.Rocto.Read.{is_nil}
use ydbocto.Rocto.Bytes.{Bytes, take_string, read32}
use ydbocto.Types.{code}
use ydbocto.Optimizer.Joins.{count}

-- `StartupMessageParm`
pub record Parm : Type 0 where
  pub name : Bytes
  pub value : Bytes

-- The first pass: the number of parameters, and the bytes at which the loop stops. Each round
-- shortens the bytes, so that the fuel need not be more than their number.
pub count_parms : ℕ → Bytes → Result (ℕ × Bytes)
count_parms zero b = stray
count_parms (suc fuel) [] = ok (0, [])
count_parms (suc fuel) (c ∷ b) = if c == 0 then ok (0, c ∷ b) else do
  (n, r1) ← string_or (take_string (c ∷ b)) (missing_data parameter_name)
  (v, r2) ← string_or (take_string r1) (missing_null name_or_value)
  (count, rest) ← count_parms fuel r2
  ok (count + 1, rest)

-- The second pass, over an array of `slots` parameters. A write behind the array and a failed
-- `assert` are `stray`.
pub fill_parms : ℕ → ℕ → Bytes → Result (List Parm)
fill_parms zero slots b = stray
fill_parms (suc fuel) slots [] = ok []
fill_parms (suc fuel) slots (c ∷ b) =
    if c == 0 then ok [] else if slots == 0 then stray else elim (take_string (c ∷ b)) [
      | none ↦ stray
      | some (n, r1) ↦ elim (take_string r1) [
        | none ↦ stray
        | some (v, r2) ↦ do
          ps ← fill_parms fuel (slots - 1) r2
          ok (record { name = n; value = v } ∷ ps)
      ]
    ]

-- What stands between the passes.
check_end : ℕ → Bytes → Result (Unit {0})
check_end count [] = err (missing_null parameter_list)
check_end count (_ ∷ rest) = do
  guard (is_nil rest) trailing_chars
  guard (not (count == 0)) missing_username

read_parms : Bytes → Result (List Parm)
unfolding count_parms fill_parms check_end
read_parms body = do
  let fuel = suc (length body)
  (count, rest) ← count_parms fuel body
  check_end count rest
  fill_parms fuel count body

-- `length` and `protocol_version` are the first eight bytes, and `body` is what `read_bytes` put
-- behind them. `to_read` is an `int32_t`: a length below eight, or one that it takes for a negative number,
-- makes `message_end` point in front of the data, and the block cannot be allocated in the latter case.
pub read_startup_message : ℕ → ℕ → Bytes → Result (List Parm)
unfolding read_parms
read_startup_message len version body = do
  guard (version == 0x30000) invalid_version
  guard (not (len == 8)) (missing_null parameter_list)
  if ltb len 8 || leb (2 ^ 31) len then stray else read_parms body

-- The bytes `length` and `request_code`.
pub read_ssl_request : ℕ → ℕ → Result (Unit {0})
read_ssl_request len code = do
  guard (len == 8) (invalid_int_value length_field)
  guard (code == 80877103) (invalid_int_value request_code)

pub record CancelRequest : Type 0 where
  pub pid : ℕ
  pub secret_key : ℕ

-- `head` is the buffer that was filled so far, of which the first eight bytes are the length and
-- the request code; `rest` is what `read_bytes` delivers for the other eight.
pub read_cancel_request : Bytes → Bytes → Result CancelRequest
read_cancel_request head rest =
    if ltb (length head) 8 then err (missing_data length_field) else elim (read32 head) [
      | none ↦ stray
      | some (len, r1) ↦ elim (read32 r1) [
        | none ↦ stray
        | some (code, _) ↦ do
          guard (len == 16) (invalid_int_value length_field)
          guard (code == 80877102) (invalid_int_value request_code)
          elim (read32 rest) [
            | none ↦ stray
            | some (pid, r2) ↦ elim (read32 r2) [
              | none ↦ stray
              | some (key, _) ↦ ok (record { pid = pid; secret_key = key })
            ]
          ]
      ]
    ]
