-- ===== src/Rocto/Password/Columns.antt =====
-- A row of the table of users is a list of columns, each with a delimiter behind it.
use ydbocto.Prelude.{
  ℕ, zero, suc, ◌≤◌, ◌<◌, ◌≡◌, refl, ◌≢◌, some, List, [], ◌∷◌, ◌++◌, arith, length, get_elem?, All,
}
use ydbocto.Rocto.Password.{column_start, take_column, strncpy, get_user_column_value, ok}
use ydbocto.Rocto.Bytes.{Bytes, NoNul}

abbrev pub NoDelimiter : Bytes → Type 0
NoDelimiter = All (λ c. c ≢ b'|')

abbrev pub put_columns : List Bytes → Bytes → Bytes
put_columns [] rest = rest
put_columns (v ∷ vs) rest = v ++ b'|' ∷ put_columns vs rest

column_start-skip :
    (v r : Bytes) (k : ℕ) → NoDelimiter v → column_start (suc k) (v ++ b'|' ∷ r) ≡ column_start k r
unfolding column_start
column_start-skip [] r k h = refl
column_start-skip (c ∷ v) r k h = ground (arith, column_start-skip v r k h.1)

take_column-append : (v r : Bytes) → NoDelimiter v → take_column (v ++ b'|' ∷ r) ≡ some v
unfolding take_column
take_column-append [] r h = refl
take_column-append (c ∷ v) r h = ground (arith, take_column-append v r h.1)

strncpy-eq : (v : Bytes) → NoNul v → strncpy v ≡ v
unfolding strncpy
strncpy-eq [] h = refl
strncpy-eq (c ∷ v) h = ground (arith, strncpy-eq v h.1)

take_column-put_columns :
    (vs : List Bytes) (rest : Bytes) (k : ℕ) (v : Bytes)
    → All NoDelimiter vs
    → get_elem? vs k ≡ some v
    → take_column (column_start k (put_columns vs rest)) ≡ some v
unfolding column_start
take_column-put_columns [] rest k v h e = absurd (ground arith)
take_column-put_columns (u ∷ vs) rest zero v h e =
    ground (arith, take_column-append u (put_columns vs rest) h.0)
take_column-put_columns (u ∷ vs) rest (suc k) v h e =
    rw (column_start-skip u (put_columns vs rest) k h.0) (take_column-put_columns vs rest k v h.1 e)

-- A column that is shorter than the buffer is found in its row and copied whole.
pub get_user_column_value-put_columns :
    (buf_len : ℕ) (vs : List Bytes) (rest : Bytes) (k : ℕ) (v : Bytes)
    → All NoDelimiter vs
    → get_elem? vs k ≡ some v
    → k ≤ 11
    → length v < buf_len
    → NoNul v
    → get_user_column_value buf_len (put_columns vs rest) k ≡ ok v
unfolding get_user_column_value
get_user_column_value-put_columns buf_len vs rest k v h e l f n =
    ground (arith, take_column-put_columns vs rest k v h e, strncpy-eq v n)
