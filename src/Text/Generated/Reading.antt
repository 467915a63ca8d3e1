-- ===== src/Text/Generated/Reading.antt =====
-- The names read back: the type of the name, and the hash.
use mathlib.Core.Path.{subst}
use ydbocto.Text.Generated.{
  cross_reference, output_plan, function_hash, table_global, unique_global, NameType, Hash,
  hash_chars, generate_name_type, ydb_hash_to_string, ret_name_len,
}
use ydbocto.Text.Generated.Digits.{value, skip, value-hash_chars, length-hash_chars}
use ydbocto.Prelude.{
  ℕ, ◌^◌, ◌<◌, ◌≡◌, refl, ap, Option, none, some, List, [], ◌∷◌, arith, ◌==◌, if◌then◌else◌, length,
  take, drop, suc, length-take_of_le,
}

-- The letter behind `%ydbocto`.
abbrev type_of : ℕ → Option NameType
type_of c =
    if c == b'X'
    then some cross_reference
    else if c == b'P'
    then some output_plan
    else if c == b'F'
    then some function_hash
    else if c == b'D'
    then some table_global
    else if c == b'U'
    then some unique_global
    else none

read_hash : List ℕ → Hash
read_hash chars = record { one = value chars; two = value (skip chars) }

abbrev read_letter : List ℕ → Option (NameType × Hash)
read_letter [] = none
read_letter (c ∷ chars) = elim (type_of c) [ none ↦ none | some t ↦ some (t, read_hash chars) ]

-- A name read back: past the `^` of a global and the eight characters that all names share.
pub read_name : List ℕ → Option (NameType × Hash)
read_name [] = none
read_name (c ∷ rest) = read_letter (if c == b'^' then drop 8 rest else drop 7 rest)

take_all : (xs : List ℕ) → take (length xs) xs ≡ xs
take_all [] = refl
take_all (x ∷ xs) = ap (◌∷◌ x) (take_all xs)

module _ (hash : Hash) (one : hash.one < 2 ^ 64) (two : hash.two < 2 ^ 64) where
  -- The 22 characters are all of the buffer.
  taken : take 22 (ydb_hash_to_string hash 22) ≡ ydb_hash_to_string hash 22
  unfolding ydb_hash_to_string
  taken =
      let chars = hash_chars 22 0 22 hash.one hash.two in
      let l = length-hash_chars 22 0 22 11 hash.one hash.two (omega arith) (omega arith) in
      subst (λ n. take n chars ≡ chars) l (take_all chars)

  read_hash_lem : read_hash (ydb_hash_to_string hash 22) ≡ hash
  unfolding ydb_hash_to_string read_hash
  read_hash_lem =
      let (k, m) =
        value-hash_chars 22 0 22 11 hash.one hash.two (omega arith) (omega arith)
          (omega (arith, one)) (omega (arith, two)) in
      cc (k, m)

  -- From the name that is generated for a type and a hash of two 64-bit numbers, both can be read back, so that
  -- different types or hashes have different names.
  pub read_name-generate_name_type :
      (t : NameType) → read_name (generate_name_type t hash) ≡ some (t, hash)
  unfolding generate_name_type read_name
  read_name-generate_name_type cross_reference = rw (taken, read_hash_lem) refl
  read_name-generate_name_type output_plan = rw (taken, read_hash_lem) refl
  read_name-generate_name_type function_hash = rw (taken, read_hash_lem) refl
  read_name-generate_name_type table_global = rw (taken, read_hash_lem) refl
  read_name-generate_name_type unique_global = rw (taken, read_hash_lem) refl

-- With the NUL behind it the name has just the length of the space for it.
length-generate_name_type :
    (t : NameType) (hash : Hash) → suc (length (generate_name_type t hash)) ≡ ret_name_len t
unfolding generate_name_type ydb_hash_to_string
length-generate_name_type t hash =
    let chars = hash_chars 22 0 22 hash.one hash.two in
    let l = length-hash_chars 22 0 22 11 hash.one hash.two (omega arith) (omega arith) in
    let k = length-take_of_le 22 chars (omega (arith, l)) in
    elim t as (λ u. suc (length (generate_name_type u hash)) ≡ ret_name_len u) [
      | cross_reference ↦ omega (arith, k)
      | output_plan ↦ omega (arith, k)
      | function_hash ↦ omega (arith, k)
      | table_global ↦ omega (arith, k)
      | unique_global ↦ omega (arith, k)
    ]
