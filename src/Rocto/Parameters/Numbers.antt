-- ===== src/Rocto/Parameters/Numbers.antt =====
-- The text of a binary parameter: its length, and the numbers that it shows.
use ydbocto.Prelude.{
  ℕ, ◌+◌, ◌*◌, ◌/◌, ◌%◌, ◌^◌, ◌≤◌, ◌<◌, ◌≡◌, inl, inr, some, [], ◌++◌, arith, Option-cases, length,
  take,
}
use ydbocto.Rocto.Parameters.{
  bin_to_int16, bin_to_int32, bin_to_int64, number_of, copy_binary_parameter,
  get_binary_parameter_length,
}
use ydbocto.Rocto.Bytes.{Bytes, read16, read32, put16, put32, read16-put16, read32-put32}
use ydbocto.Rocto.Make.Answers.{take_all}

-- A 64-bit integer in network byte order.
abbrev pub put64 : ℕ → Bytes
put64 n = put32 (n / 2 ^ 32) ++ put32 (n % 2 ^ 32)

read32-put32_nil : (n : ℕ) → n < 2 ^ 32 → read32 (put32 n) ≡ some (n, [])
read32-put32_nil n h = ground (arith, read32-put32 n [] h)

read16-put16_nil : (n : ℕ) → n < 2 ^ 16 → read16 (put16 n) ≡ some (n, [])
read16-put16_nil n h = ground (arith, read16-put16 n [] h)

number_of-put64 : (n : ℕ) → n < 2 ^ 64 → number_of (put64 n) ≡ some n
unfolding number_of bin_to_int64
number_of-put64 n h =
    let high : n / 2 ^ 32 < 2 ^ 32 = omega arith in
    let low : n % 2 ^ 32 < 2 ^ 32 = omega arith in
    let whole : n / 2 ^ 32 * 2 ^ 32 + n % 2 ^ 32 ≡ n = omega arith in
    ground (
      arith,
      read32-put32 (n / 2 ^ 32) (put32 (n % 2 ^ 32)) high,
      read32-put32_nil (n % 2 ^ 32) low,
      whole,
    )

number_of-put32 : (n : ℕ) → n < 2 ^ 32 → number_of (put32 n) ≡ some n
unfolding number_of bin_to_int32
number_of-put32 n h = ground (arith, read32-put32_nil n h)

number_of-put16 : (n : ℕ) → n < 2 ^ 16 → number_of (put16 n) ≡ some n
unfolding number_of bin_to_int16
number_of-put16 n h = ground (arith, read16-put16_nil n h)

module _ (print : ℕ → Bytes) (short : (n : ℕ) → length (print n) ≤ 20) where
  -- When no number has more than 20 characters, the length that is computed ahead is that of the text
  -- which is copied, and so is what `len_used` grows by.
  get_binary_parameter_length-copy_binary_parameter :
      (parm : Bytes)
      → (get_binary_parameter_length print parm ≡ length (copy_binary_parameter print parm).0)
        × ((copy_binary_parameter print parm).1 ≡ length (copy_binary_parameter print parm).0)
  unfolding copy_binary_parameter get_binary_parameter_length
  get_binary_parameter_length-copy_binary_parameter parm = elim (Option-cases (number_of parm)) [
    | inl x ↦ ground (arith, x)
    | inr (v, x) ↦
        let whole : take 20 (print v) ≡ print v = take_all 20 (print v) (short v) in
        ground (arith, x, whole)
  ]

  -- When no number has more than 20 characters, an eight-byte parameter is shown as the number that its
  -- bits are, and one of four or two bytes as the unsigned number, also where its sign bit is set.
  pub copy_binary_parameter-integers :
      (n m k : ℕ)
      → n < 2 ^ 64
      → m < 2 ^ 32
      → k < 2 ^ 16
      → ((copy_binary_parameter print (put64 n)).0 ≡ print n)
        × ((copy_binary_parameter print (put32 m)).0 ≡ print m)
        × ((copy_binary_parameter print (put16 k)).0 ≡ print k)
  unfolding copy_binary_parameter
  copy_binary_parameter-integers n m k hn hm hk =
      let whole : (v : ℕ) → take 20 (print v) ≡ print v = λ v. take_all 20 (print v) (short v) in
      (
        ground (arith, number_of-put64 n hn, whole n),
        ground (arith, number_of-put32 m hm, whole m),
        ground (arith, number_of-put16 k hk, whole k),
      )
