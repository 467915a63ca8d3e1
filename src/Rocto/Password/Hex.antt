-- ===== src/Rocto/Password/Hex.antt =====
-- Hexadecimal digits can be read back.
use ydbocto.Prelude.{
  ℕ, ◌+◌, ◌-◌, ◌*◌, ◌/◌, ◌%◌, ◌<◌, ◌≡◌, refl, ◌&&◌, Option, none, some, [], ◌∷◌, arith, ltb,
  if◌then◌else◌,
}
use ydbocto.Rocto.Password.{byte_to_hex, hex_bytes}
use ydbocto.Rocto.Bytes.{Bytes, IsBytes}

abbrev digit_value : ℕ → Option ℕ
digit_value c =
    if ltb 47 c && ltb c 58
    then some (c - 48)
    else if ltb 96 c && ltb c 103
    then some (c - 87)
    else none

-- A reader of lower-case hexadecimal digits.
pub decode_hex : Bytes → Option Bytes
decode_hex [] = some []
decode_hex (h ∷ []) = none
decode_hex (h ∷ l ∷ b) =
    let rest = decode_hex b in
    elim (digit_value h) [
      | none ↦ none
      | some x ↦ elim (digit_value l) [
        | none ↦ none
        | some y ↦ elim rest [ none ↦ none | some r ↦ some ((x * 16 + y) ∷ r) ]
      ]
    ]

-- The hexadecimal text of bytes is read back as these bytes, so that different digests have different texts.
decode_hex-hex_bytes : (b : Bytes) → IsBytes b → decode_hex (hex_bytes b) ≡ some b
unfolding decode_hex hex_bytes byte_to_hex
decode_hex-hex_bytes [] h = refl
decode_hex-hex_bytes (c ∷ b) h =
    let digits : c / 16 * 16 + c % 16 ≡ c = omega arith in
    let high : c / 16 < 16 = omega (arith, h.0) in
    let low : c % 16 < 16 = omega arith in
    ground (arith, digits, high, low, decode_hex-hex_bytes b h.1)
