-- ===== src/Rocto/Bind.antt =====
-- The reader of Bind messages: src/rocto/read_bind.c. The codes of the C struct's arrays are lists here, and a
-- parameter is its bytes.
pub mod RoundTrip
pub mod Accepted
use ydbocto.Prelude.{
  ℕ, zero, suc, ◌+◌, ◌*◌, ◌^◌, Bool, ◌||◌, none, some, List, [], ◌∷◌, leb, ◌==◌, if◌then◌else◌,
  length, take, drop,
}
use ydbocto.Rocto.Message.{
  BaseMessage, psql_bind, Field, Result, guard, string_or, peek16, is_int16, ok, stray, ◌>>=◌, ◌>>◌,
  invalid_format_code, missing_data, invalid_number, invalid_message_type, parms,
  result_col_format_codes, missing_null, destination, source, parm_format_codes,
  num_parm_format_codes, too_many_values, too_few_values,
}
use ydbocto.Rocto.Bytes.{Bytes, take_string, read16, read32, codes}

pub record Bind : Type 0 where
  pub dest : Bytes
  pub source : Bytes
  pub parm_format_codes : List ℕ
  pub parms : List Bytes
  pub result_col_format_codes : List ℕ
  -- `cur_pointer == last_byte` at the end; if not, ERR_ROCTO_TRAILING_CHARS is logged and the
  -- message is accepted all the same.
  pub all_read : Bool

-- `for (i = 0; i < n; i++) codes[i] = ntohs(codes[i])`, each of which is 0 or 1.
read_codes : Field → ℕ → Bytes → Result (List ℕ)
read_codes f zero r = ok []
read_codes f (suc n) r = elim (read16 r) [
  | none ↦ stray
  | some (c, rest) ↦ do
    guard (leb c 1) (invalid_format_code f)
    cs ← read_codes f n rest
    ok (c ∷ cs)
]

-- `ntohl(*((long int *)(length_ptr)))`: eight bytes are loaded, of which a little-endian host keeps
-- the first four.
peek_long : ℕ → Bytes → Result ℕ
peek_long z r =
    if leb 8 (length r + z) then elim (read32 r) [ none ↦ stray | some (n, _) ↦ ok n ] else stray

-- The parameters, and the bytes behind them. The length is an `int32_t`: where it is negative,
-- `cur_pointer += length` goes back over bytes that were read before, and C goes on from there, and may accept the
-- message. That is not modelled, and `stray` stands for it.
read_parms : ℕ → Bytes → Result (List Bytes × Bytes)
read_parms zero r = ok ([], r)
read_parms (suc k) r = do
  guard (leb 4 (length r)) (missing_data parms)
  n ← peek_long 4 r
  if leb (2 ^ 31) n then stray else do
    guard (leb n (length (drop 4 r))) (missing_data parms)
    (ps, rest) ← read_parms k (drop n (drop 4 r))
    ok (take n (drop 4 r) ∷ ps, rest)

-- The last part: the number of result column format codes is read without a test that the message
-- has it, so that a message without it reads as one with none.
read_result_codes : Bytes → Result (List ℕ × Bool)
read_result_codes r = do
  j ← peek16 4 r
  guard (is_int16 j) (invalid_number result_col_format_codes)
  if j == 0 then ok ([], length r == 2) else do
    guard (leb (2 + 2 * j) (length r)) (missing_data result_col_format_codes)
    cs ← read_codes result_col_format_codes j (drop 2 r)
    ok (cs, length r == 2 + 2 * j)

pub read_bind : BaseMessage → Result Bind
read_bind m = do
  guard (m.type == psql_bind) invalid_message_type
  (dest, r1) ← string_or (take_string m.bytes) (missing_null destination)
  (text, r2) ← string_or (take_string r1) (missing_null source)
  n ← peek16 4 r2
  guard (is_int16 n) (invalid_number parm_format_codes)
  guard (leb 2 (length r2)) (missing_data num_parm_format_codes)
  guard (leb (2 * n) (length (drop 2 r2))) (missing_data parm_format_codes)
  codes ← read_codes parm_format_codes n (drop 2 r2)
  let r3 = drop (2 * n) (drop 2 r2)
  k ← peek16 4 r3
  guard (is_int16 k) (invalid_number parms)
  guard (leb n k) (too_many_values parm_format_codes)
  guard (leb n 1 || n == k) (too_few_values parm_format_codes)
  guard (leb 2 (length r3)) (missing_data parms)
  (ps, r4) ← read_parms k (drop 2 r3)
  (cs, done) ← read_result_codes r4
  ok (record {
    dest = dest;
    source = text;
    parm_format_codes = codes;
    parms = ps;
    result_col_format_codes = cs;
    all_read = done;
  })
