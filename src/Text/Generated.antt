-- ===== src/Text/Generated.antt =====
-- The names of generated routines and globals, src/ydb_hash_to_string.c and src/generate_name_type.c.
pub mod Digits
pub mod Reading
use ydbocto.Rocto.Bytes.{codes}
use ydbocto.Prelude.{
  ℕ, zero, suc, ◌+◌, ◌-◌, ◌/◌, ◌%◌, Option, none, some, List, [], ◌∷◌, ◌++◌, ltb, if◌then◌else◌,
  length, get_elem?, take,
}

-- The table of the 62 characters.
abbrev pub base62_chars : List ℕ
base62_chars = codes "0123456789ABCDEFGHIJKLMNOPQRSTUVWXYZabcdefghijklmnopqrstuvwxyz"

abbrev pub get_or_zero : Option ℕ → ℕ
get_or_zero none = 0
get_or_zero (some c) = c

pub base62_char : ℕ → ℕ
base62_char n = get_or_zero (get_elem? base62_chars n)

-- The hash, of two 64-bit numbers.
pub record Hash : Type 0 where
  pub one : ℕ
  pub two : ℕ

-- The loop, on fuel, from the index `i`: what is written to the buffer.
pub hash_chars : ℕ → ℕ → ℕ → ℕ → ℕ → List ℕ
hash_chars zero i buf_len hashone hashtwo = []
hash_chars (suc fuel) i buf_len hashone hashtwo =
    let rest = hash_chars fuel (i + 2) buf_len (hashone / 62) (hashtwo / 62) in
    if ltb i buf_len then base62_char (hashone % 62) ∷ base62_char (hashtwo % 62) ∷ rest else []

pub ydb_hash_to_string : Hash → ℕ → List ℕ
unfolding hash_chars
ydb_hash_to_string hash buf_len = hash_chars buf_len 0 buf_len hash.one hash.two

pub data NameType : Type 0 where
  cross_reference output_plan function_hash table_global unique_global : NameType

-- MAX_ROUTINE_LEN, which is YDB_MAX_IDENT
abbrev pub max_routine_len : ℕ
max_routine_len = 31

-- The prefixes, with `^` in front of those of the globals.
abbrev pub prefix : NameType → List ℕ
prefix cross_reference = codes "%ydboctoX"
prefix output_plan = codes "%ydboctoP"
prefix function_hash = codes "%ydboctoF"
prefix table_global = codes "^%ydboctoD"
prefix unique_global = codes "^%ydboctoU"

-- `ret_name_len`, as the assertions have it.
abbrev pub ret_name_len : NameType → ℕ
ret_name_len table_global = max_routine_len + 2
ret_name_len unique_global = max_routine_len + 2
ret_name_len _ = max_routine_len + 1

-- strncpy, of a text without a NUL that is long enough; and the name, without the NUL behind it.
pub generate_name_type : NameType → Hash → List ℕ
unfolding ydb_hash_to_string
generate_name_type t hash =
    let hash_len = ret_name_len t - length (prefix t) - 1 in
    prefix t ++ take hash_len (ydb_hash_to_string hash hash_len)
