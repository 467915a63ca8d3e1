-- ===== src/Rocto/Parameters.antt =====
-- Binary parameters of a Bind message as the text of a statement: src/rocto/copy_bind_parameter.c, with the
-- conversions of deserialize.c. A 64-bit integer is its bit pattern.
pub mod Numbers
use ydbocto.Prelude.{
  ℕ, ◌+◌, ◌-◌, ◌*◌, ◌^◌, Option, none, some, [], ◌∷◌, ltb, ◌==◌, if◌then◌else◌, length, take,
}
use ydbocto.Rocto.Bytes.{Bytes, read16, read32}

-- A `char`, which is signed.
pub bin_to_char : ℕ → ℕ
bin_to_char c = if ltb c 128 then c else c + 2 ^ 64 - 256

-- The results of `ntohs` and `ntohl` are unsigned.
pub bin_to_int16 : Bytes → Option ℕ
bin_to_int16 b = elim (read16 b) [ none ↦ none | some (n, _) ↦ some n ]

pub bin_to_int32 : Bytes → Option ℕ
bin_to_int32 b = elim (read32 b) [ none ↦ none | some (n, _) ↦ some n ]

pub bin_to_int64 : Bytes → Option ℕ
bin_to_int64 b = elim (read32 b) [
  | none ↦ none
  | some (high, r) ↦ elim (read32 r) [ none ↦ none | some (low, _) ↦ some (high * 2 ^ 32 + low) ]
]

-- `switch (length)`: the number that a parameter stands for; none for a parameter that is taken as
-- it is.
pub number_of : Bytes → Option ℕ
unfolding bin_to_char bin_to_int16 bin_to_int32 bin_to_int64
number_of [] = none
number_of (c ∷ r) =
    let n = length (c ∷ r) in
    if n == 1
    then some (bin_to_char c)
    else if n == 2
    then bin_to_int16 (c ∷ r)
    else if n == 4
    then bin_to_int32 (c ∷ r)
    else if n == 8
    then bin_to_int64 (c ∷ r)
    else none

-- `print` is the "%lld" of `snprintf`, which writes at most 20 characters and returns the length
-- of the whole text.
module _ (print : ℕ → Bytes) where
  -- What is put behind the used part of the buffer, and what is added to `len_used`. The room for it
  -- is made before.
  pub copy_binary_parameter : Bytes → Bytes × ℕ
  unfolding number_of
  copy_binary_parameter parm = elim (number_of parm) [
    | none ↦ (parm, length parm)
    | some value ↦ (take 20 (print value), length (print value))
  ]

  pub get_binary_parameter_length : Bytes → ℕ
  unfolding number_of
  get_binary_parameter_length parm = elim (number_of parm) [
    | none ↦ length parm
    | some value ↦ length (print value)
  ]
