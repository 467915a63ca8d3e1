-- ===== src/Rocto/Bytes.antt =====
-- Bytes of a message: C strings and integers in network byte order.
use ydbocto.Prelude.{
  ℕ, ◌+◌, ◌*◌, ◌/◌, ◌%◌, ◌^◌, ◌<◌, ◌≡◌, refl, ap, List, [], ◌∷◌, ◌++◌, Option, none, some, All,
  arith, ◌==◌, if◌then◌else◌, inl, inr, Option-cases, length, ◌≤◌,
}
use Prim.Native.Char.{code}
use Prim.Native.String.{String}

abbrev pub Bytes : Type 0
Bytes = List ℕ

-- The bytes of an ASCII text.
abbrev pub codes : String → Bytes
codes String.[] = []
codes (String.◌∷◌ c s) = code c ∷ codes s

-- Every element is a byte.
abbrev pub IsBytes : Bytes → Type 0
IsBytes = All (λ c. c < 256)

-- The bytes of a C string: none is NUL.
abbrev pub NoNul : Bytes → Type 0
NoNul = All (λ c. 0 < c)

-- `while (c < end && '\0' != *c) c++; if (c == end || '\0' != *c) fail; c++;`:
-- the string in front of the first NUL, and what is behind that NUL.
unfoldable pub take_string : Bytes → Option (Bytes × Bytes)
take_string [] = none
take_string (c ∷ r) =
    if c == 0
    then some ([], r)
    else elim (take_string r) [ none ↦ none | some (s, t) ↦ some (c ∷ s, t) ]

pub take_string-append : (s r : Bytes) → NoNul s → take_string (s ++ 0 ∷ r) ≡ some (s, r)
unfolding take_string
take_string-append [] r h = refl
take_string-append (c ∷ s) r h = ground (arith, take_string-append s r h.1)

pub take_string_sound :
    (b : Bytes) {s r : Bytes} → take_string b ≡ some (s, r) → (b ≡ s ++ 0 ∷ r) × NoNul s
unfolding take_string
take_string_sound [] h = cc
take_string_sound (c ∷ b) {s} {r} h = elim (Option-cases (take_string b)) [
  | inl e ↦ ground (arith, e)
  | inr (p, e) ↦ ground (arith, e, take_string_sound b {s = p.0} {r = p.1} e)
]

-- `ntohs` and `htons`, `ntohl` and `htonl`.
unfoldable pub read16 : Bytes → Option (ℕ × Bytes)
read16 (a ∷ b ∷ r) = some (a * 256 + b, r)
read16 _ = none

unfoldable pub read32 : Bytes → Option (ℕ × Bytes)
read32 (a ∷ b ∷ c ∷ d ∷ r) = some (((a * 256 + b) * 256 + c) * 256 + d, r)
read32 _ = none

abbrev pub put16 : ℕ → Bytes
put16 n = n / 256 % 256 ∷ n % 256 ∷ []

abbrev pub put32 : ℕ → Bytes
put32 n = n / 16777216 % 256 ∷ n / 65536 % 256 ∷ n / 256 % 256 ∷ n % 256 ∷ []

pub read16-put16 : (n : ℕ) (r : Bytes) → n < 65536 → read16 (put16 n ++ r) ≡ some (n, r)
unfolding read16
read16-put16 n r h = ap (λ k. some (k, r)) (omega arith)

pub read32-put32 : (n : ℕ) (r : Bytes) → n < 2 ^ 32 → read32 (put32 n ++ r) ≡ some (n, r)
unfolding read32
read32-put32 n r h = ap (λ k. some (k, r)) (omega arith)

-- A scan that ends inside `b` is not changed by what follows `b`.
pub take_string-extend :
    (b z : Bytes) {s r : Bytes}
    → take_string b ≡ some (s, r)
    → take_string (b ++ z) ≡ some (s, r ++ z)
unfolding take_string
take_string-extend [] z h = cc
take_string-extend (c ∷ b) z {s} {r} h = elim (Option-cases (take_string b)) [
  | inl e ↦ ground (arith, e)
  | inr ((t, u), e) ↦ ground (arith, e, take_string-extend b z {s = t} {r = u} e)
]

-- A scan that does not end inside `b` ends at the first NUL behind it.
pub take_string-none : (b z : Bytes) → take_string b ≡ none → take_string (b ++ 0 ∷ z) ≡ some (b, z)
unfolding take_string
take_string-none [] z h = refl
take_string-none (c ∷ b) z h = elim (Option-cases (take_string b)) [
  | inl e ↦ ground (arith, e, take_string-none b z e)
  | inr (p, e) ↦ ground (arith, e)
]

pub read32-length :
    (r : Bytes) {n : ℕ} {t : Bytes} → read32 r ≡ some (n, t) → length r ≡ 4 + length t
unfolding read32
read32-length (a ∷ b ∷ c ∷ d ∷ r) h = ground arith
read32-length _ h = ground arith

pub read32_sound :
    (r : Bytes) {n : ℕ} {t : Bytes}
    → IsBytes r
    → read32 r ≡ some (n, t)
    → (r ≡ put32 n ++ t) × (n < 2 ^ 32)
unfolding read32
read32_sound (a ∷ b ∷ c ∷ d ∷ r) h e = ground arith
read32_sound _ h e = ground arith

pub read32-total : (r : Bytes) → 4 ≤ length r → (n : ℕ) × (t : Bytes) × (read32 r ≡ some (n, t))
unfolding read32
read32-total (a ∷ b ∷ c ∷ d ∷ r) h = (((a * 256 + b) * 256 + c) * 256 + d, r, refl)
read32-total [] h = absurd (omega arith)
read32-total (a ∷ []) h = absurd (omega arith)
read32-total (a ∷ b ∷ []) h = absurd (omega arith)
read32-total (a ∷ b ∷ c ∷ []) h = absurd (omega arith)
