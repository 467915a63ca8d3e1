-- ===== src/Text/Generated/Digits.antt =====
-- The characters read back as digits to the base 62.
use mathlib.Core.Path.{subst}
use ydbocto.Text.Generated.{hash_chars, base62_char, base62_chars}
use ydbocto.Prelude.{
  ℕ, zero, suc, ◌+◌, ◌*◌, ◌/◌, ◌^◌, ◌≤◌, ◌<◌, ◌≡◌, refl, Bool, true, ◌&&◌, List, [], ◌∷◌, arith,
  ◌==◌, if◌then◌else◌, length, ◌%◌, false, ltb, dec_lt,
}

-- The place of a character in a table.
abbrev index_of : List ℕ → ℕ → ℕ
index_of [] c = 0
index_of (x ∷ xs) c = let rest = index_of xs c in if x == c then 0 else suc rest

pub digit : ℕ → ℕ
digit c = index_of base62_chars c

are_digits : ℕ → Bool
are_digits zero = true
are_digits (suc n) = are_digits n && digit (base62_char n) == n

are_digits_below : (n : ℕ) → are_digits n ≡ true → (m : ℕ) → m < n → digit (base62_char m) ≡ m
unfolding are_digits
are_digits_below zero h m l = absurd (omega (arith, l))
are_digits_below (suc n) h m l =
    let p : are_digits n ≡ true = ground (arith, h) in
    let q : digit (base62_char n) ≡ n = ground (arith, h) in
    elim (dec_lt m n) [
      | yes k ↦ are_digits_below n p m k
      | no k ↦ let e : n ≡ m = omega (arith, k, l) in subst (λ x. digit (base62_char x) ≡ x) e q
    ]

all_digits : are_digits 62 ≡ true
unfolding are_digits digit base62_char
all_digits = refl

digit-base62_char : (m : ℕ) → m < 62 → digit (base62_char m) ≡ m
digit-base62_char = are_digits_below 62 all_digits

-- Every other character, from the first one, read as a number whose lowest digit comes first.
pub value : List ℕ → ℕ
value [] = 0
value (c ∷ []) = digit c
value (c ∷ d ∷ rest) = digit c + 62 * value rest

pub skip : List ℕ → List ℕ
skip [] = []
skip (c ∷ rest) = rest

-- The buffer, of an even length, has as many characters as it has room for.
pub length-hash_chars :
    (fuel i buf_len rounds one two : ℕ)
    → buf_len ≡ i + 2 * rounds
    → rounds ≤ fuel
    → length (hash_chars fuel i buf_len one two) ≡ 2 * rounds
unfolding hash_chars
length-hash_chars zero i buf_len rounds one two e l = omega (arith, l)
length-hash_chars (suc fuel) i buf_len zero one two e l = ground (arith, e)
length-hash_chars (suc fuel) i buf_len (suc rounds) one two e l =
    let k =
      length-hash_chars fuel (i + 2) buf_len rounds (one / 62) (two / 62) (omega (arith, e))
        (omega (arith, l)) in
    ground (arith, e, k)

value-cons : (c : ℕ) (rest : List ℕ) → value (c ∷ rest) ≡ digit c + 62 * value (skip rest)
unfolding value skip
value-cons c [] = omega arith
value-cons c (d ∷ rest) = refl

-- One digit more.
digits_more : (n rounds : ℕ) → n < 62 ^ suc rounds → n / 62 < 62 ^ rounds
digits_more n rounds l = omega (arith, l)

pub value-hash_chars :
    (fuel i buf_len rounds one two : ℕ)
    → buf_len ≡ i + 2 * rounds
    → rounds ≤ fuel
    → one < 62 ^ rounds
    → two < 62 ^ rounds
    → (value (hash_chars fuel i buf_len one two) ≡ one)
      × (value (skip (hash_chars fuel i buf_len one two)) ≡ two)
unfolding hash_chars value skip
value-hash_chars zero i buf_len zero one two e l a b = (omega (arith, a), omega (arith, b))
value-hash_chars zero i buf_len (suc rounds) one two e l a b = absurd (omega (arith, l))
value-hash_chars (suc fuel) i buf_len zero one two e l a b =
    let t : ltb i buf_len ≡ false = ground (arith, e) in
    (rw t (omega (arith, a)), rw t (omega (arith, b)))
value-hash_chars (suc fuel) i buf_len (suc rounds) one two e l a b =
    let t : ltb i buf_len ≡ true = ground (arith, e) in
    let (k, m) =
      value-hash_chars fuel (i + 2) buf_len rounds (one / 62) (two / 62) (omega (arith, e))
        (omega (arith, l)) (digits_more one rounds a) (digits_more two rounds b) in
    let c = digit-base62_char (one % 62) (omega arith) in
    let d = digit-base62_char (two % 62) (omega arith) in
    let rest = hash_chars fuel (i + 2) buf_len (one / 62) (two / 62) in
    let v = value-cons (base62_char (two % 62)) rest in
    (rw t (omega (arith, k, c)), rw t (omega (arith, v, m, d)))
