-- ===== src/Rocto/Message.antt =====
-- The frame that every frontend message has (`BaseMessage` of src/rocto/message_formats.h), the
-- message types (`PSQL_MessageTypeT` of src/octo_types.h) and the outcome of reading a message.
use ydbocto.Prelude.{
  ℕ, ◌+◌, ◌<◌, ◌≡◌, ap, Bool, true, false, [], ◌∷◌, ◌++◌, Option, none, some, length, replicate,
  arith, leb, ◌≤◌, drop, suc, ◌*◌, zero, refl, ◌⊎◌, inl, inr,
}
use ydbocto.Rocto.Bytes.{Bytes, read16, put16, IsBytes}

-- `type`, and the bytes behind the length field. The length field itself is not stored: it counts
-- its own four bytes and the data.
pub record BaseMessage : Type 0 where
  pub type : ℕ
  pub bytes : Bytes

abbrev pub message_length : BaseMessage → ℕ
message_length m = length m.bytes + 4

abbrev pub psql_bind : ℕ
psql_bind = b'B'

abbrev pub psql_close : ℕ
psql_close = b'C'

abbrev pub psql_describe : ℕ
psql_describe = b'D'

abbrev pub psql_execute : ℕ
psql_execute = b'E'

abbrev pub psql_flush : ℕ
psql_flush = b'H'

abbrev pub psql_query : ℕ
psql_query = b'Q'

abbrev pub psql_parse : ℕ
psql_parse = b'P'

abbrev pub psql_password_message : ℕ
psql_password_message = b'p'

abbrev pub psql_sync : ℕ
psql_sync = b'S'

abbrev pub psql_terminate : ℕ
psql_terminate = b'X'

-- The field that an error message names.
pub data Field : Type 0 where
  destination source query password name rows_to_return : Field
  num_parm_data_types parm_data_types : Field
  num_parm_format_codes parm_format_codes parms result_col_format_codes : Field
  parameter_name name_or_value parameter_list length_field request_code : Field

-- The ERR_ROCTO_… of the readers, and ERR_LIBCALL. Each makes the function return NULL.
pub data Error : Type 0 where
  invalid_message_type invalid_item_value trailing_chars missing_username invalid_version : Error
  db_lookup libcall password_type user_lookup column_value bad_password : Error
  missing_null missing_data too_many_values too_few_values : Field → Error
  invalid_number invalid_format_code invalid_int_value : Field → Error

-- `stray`: the reader's pointer leaves the unread bytes of the message, by a read outside the
-- allocated block or by a move backwards. What C does from there on is not modelled.
pub data Result {ℓ} (A : Type ℓ) : Type ℓ where
  ok : A → Result A
  err : Error → Result A
  stray : Result A

-- `if (!test) { ERROR(e); free(ret); return NULL; }`
abbrev pub guard : Bool → Error → Result (Unit {0})
guard false e = err e
guard true e = ok tt

-- A string and the bytes behind its NUL.
abbrev pub string_or {ℓ} : {A : Type ℓ} → Option A → Error → Result A
string_or none e = err e
string_or (some a) e = ok a

infixl 5 ◌>>=◌ ◌>>◌
-- An error or a stray pointer ends the reader.
abbrev pub ◌>>=◌ {ℓ κ} : {X : Type ℓ} {Y : Type κ} → Result X → (X → Result Y) → Result Y
stray >>= next = stray
err e >>= next = err e
ok a >>= next = next a

abbrev pub ◌>>◌ {ℓ} : {B : Type ℓ} → Result (Unit {0}) → Result B → Result B
first >> next = first >>= λ _. next

-- The bytes of the allocated block behind the message, all of them zeroed by `memset`.
abbrev pub slack : ℕ → Bytes
slack n = replicate n 0

-- `ntohs(*(int16_t *)cur_pointer)` where `z` zeroed bytes follow the message.
unfoldable pub peek16 : ℕ → Bytes → Result ℕ
peek16 z r = elim (read16 (r ++ slack z)) [ none ↦ stray | some (n, _) ↦ ok n ]

-- A 16-bit number read as `int16_t` is not negative.
abbrev pub is_int16 : ℕ → Bool
is_int16 n = leb n 32767

pub peek16-put16 : (z n : ℕ) (r : Bytes) → n < 65536 → peek16 z (put16 n ++ r) ≡ ok n
unfolding peek16 read16
peek16-put16 z n r h = ap ok (omega arith)

pub peek16_sound :
    (z n : ℕ) (r : Bytes)
    → IsBytes r
    → 2 ≤ length r
    → peek16 z r ≡ ok n
    → (r ≡ put16 n ++ drop 2 r) × (n < 65536)
unfolding peek16 read16
peek16_sound z n [] b l h = absurd (omega arith)
peek16_sound z n (x ∷ []) b l h = absurd (omega arith)
peek16_sound z n (x ∷ y ∷ r) b l h = ground arith

-- With two zeroed bytes behind the message or more, a 16-bit read stays inside the block.
pub peek16-total : (z : ℕ) (r : Bytes) → 2 ≤ z → (n : ℕ) × (peek16 z r ≡ ok n)
unfolding peek16 read16
peek16-total zero r h = absurd (omega arith)
peek16-total (suc zero) r h = absurd (omega arith)
peek16-total (suc (suc z)) [] h = (0, refl)
peek16-total (suc (suc z)) (x ∷ []) h = (x * 256 + 0, refl)
peek16-total (suc (suc z)) (x ∷ y ∷ r) h = (x * 256 + y, refl)

pub bind-eq-ok {ℓ κ} :
    {X : Type ℓ} {Y : Type κ} {y : Y} (first : Result X) (next : X → Result Y)
    → (first >>= next) ≡ ok y
    → (x : X) × (first ≡ ok x) × (next x ≡ ok y)
bind-eq-ok (ok x) next h = (x, refl, h)
bind-eq-ok (err e) next h = cc
bind-eq-ok stray next h = cc

-- A split on a result that keeps the equation.
pub Result-cases {ℓ} :
    {A : Type ℓ} (m : Result A)
    → ((a : A) × (m ≡ ok a)) ⊎ (((e : Error) × (m ≡ err e)) ⊎ (m ≡ stray))
Result-cases (ok a) = inl (a, refl)
Result-cases (err e) = inr (inl (e, refl))
Result-cases stray = inr (inr refl)
