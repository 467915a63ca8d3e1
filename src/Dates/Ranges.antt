-- ===== src/Dates/Ranges.antt =====
-- The tests of single digits are tests of numbers.
use ydbocto.Prelude.{
  [], ℕ, ◌+◌, ◌-◌, ◌*◌, ◌≡◌, refl, not, ◌&&◌, Option, none, some, ◌∷◌, arith, leb, if◌then◌else◌,
  ◌/◌, ◌%◌, ◌≤◌, ◌<◌,
}
use ydbocto.Dates.{
  is_number, is_month_valid, is_date_valid, is_hour_valid, is_min_valid, is_microsecond_valid,
  is_sec_valid, ◌>>?◌,
}
use ydbocto.Rocto.Bytes.{Bytes}

-- A number of one or two digits, of which a second one is always taken.
pub read_number : Bytes → Option (ℕ × Bytes)
read_number [] = none
read_number (c ∷ []) = if is_number c then some (c - b'0', []) else none
read_number (c ∷ d ∷ r) =
    if not (is_number c)
    then none
    else if is_number d
    then some ((c - b'0') * 10 + (d - b'0'), r)
    else some (c - b'0', d ∷ r)

abbrev pub in_range : ℕ → ℕ → Option (ℕ × Bytes) → Option Bytes
in_range low high none = none
in_range low high (some (n, r)) = if leb low n && leb n high then some r else none

is_month_valid-read_number : (r : Bytes) → is_month_valid r ≡ in_range 1 12 (read_number r)
unfolding is_month_valid read_number
is_month_valid-read_number [] = refl
is_month_valid-read_number (c ∷ []) = ground arith
is_month_valid-read_number (c ∷ d ∷ r) = ground arith

is_date_valid-read_number : (r : Bytes) → is_date_valid r ≡ in_range 1 31 (read_number r)
unfolding is_date_valid read_number
is_date_valid-read_number [] = refl
is_date_valid-read_number (c ∷ []) = ground arith
is_date_valid-read_number (c ∷ d ∷ r) = ground arith

is_hour_valid-read_number : (r : Bytes) → is_hour_valid r ≡ in_range 0 23 (read_number r)
unfolding is_hour_valid read_number
is_hour_valid-read_number [] = refl
is_hour_valid-read_number (c ∷ []) = ground arith
is_hour_valid-read_number (c ∷ d ∷ r) = ground arith

is_min_valid-read_number : (r : Bytes) → is_min_valid r ≡ in_range 0 59 (read_number r)
unfolding is_min_valid read_number
is_min_valid-read_number [] = refl
is_min_valid-read_number (c ∷ []) = ground arith
is_min_valid-read_number (c ∷ d ∷ r) = ground arith

is_sec_valid-read_number :
    (r : Bytes) → is_sec_valid r ≡ (in_range 0 60 (read_number r) >>? is_microsecond_valid)
unfolding is_sec_valid read_number
is_sec_valid-read_number [] = refl
is_sec_valid-read_number (c ∷ []) = ground arith
is_sec_valid-read_number (c ∷ d ∷ r) = ground arith

-- The digit tests of the month, day, hour, minute and second accept exactly a number of one or two digits
-- in the range of the field, and microseconds behind a second.
pub fields-read_number :
    (r : Bytes)
    → (is_month_valid r ≡ in_range 1 12 (read_number r))
      × (is_date_valid r ≡ in_range 1 31 (read_number r))
      × (is_hour_valid r ≡ in_range 0 23 (read_number r))
      × (is_min_valid r ≡ in_range 0 59 (read_number r))
      × (is_sec_valid r ≡ (in_range 0 60 (read_number r) >>? is_microsecond_valid))
fields-read_number r = (
  is_month_valid-read_number r,
  is_date_valid-read_number r,
  is_hour_valid-read_number r,
  is_min_valid-read_number r,
  is_sec_valid-read_number r,
)

-- Two digits, and what is behind them.
abbrev pub two : ℕ → Bytes → Bytes
two n r = (n / 10 + b'0') ∷ (n % 10 + b'0') ∷ r

pub read_number-two : (n : ℕ) (r : Bytes) → n < 100 → read_number (two n r) ≡ some (n, r)
unfolding read_number
read_number-two n r h =
    let a : n / 10 ≤ 9 = omega arith in
    let b : n % 10 ≤ 9 = omega arith in
    let e : n / 10 * 10 + n % 10 ≡ n = omega arith in ground (arith, a, b, e)
