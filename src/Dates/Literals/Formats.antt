-- ===== src/Dates/Literals/Formats.antt =====
-- What the formats are for: a literal written in a format is valid in it.
use ydbocto.Prelude.{
  [], ℕ, ◌+◌, ◌/◌, ◌%◌, ◌≤◌, ◌<◌, ◌≡◌, refl, true, false, ◌&&◌, ◌||◌, some, List, ◌∷◌, arith, ◌==◌,
  ap, ◌∙◌,
}
use ydbocto.Rocto.Bytes.{Bytes}
use ydbocto.Dates.Zones.{IsZone, is_time_zone-loop, is_time_zone_iff}
use ydbocto.Dates.Literals.{
  behind_format, DateTimeType, is_timestamp, Flags, format_loop,
  is_date_time_literal_in_valid_format, behind,
}
use ydbocto.Dates.{◌>>?◌, is_year_valid, is_microsecond_valid}
use ydbocto.Dates.Ranges.{read_number, in_range, fields-read_number, two, read_number-two}
use ydbocto.Dates.Literals.Steps.{
  format_loop-month, format_loop-day, format_loop-year, format_loop-minute, format_loop-second,
  format_loop-zone, format_loop-hour, format_loop-between, format_loop-nil,
}

-- The conversions of a format, and its separators.
pub data Item : Type 0 where
  month day year hour minute second zone : Item
  between : ℕ → Item

abbrev pub format_of : List Item → Bytes
format_of [] = []
format_of (month ∷ items) = b'%' ∷ b'm' ∷ format_of items
format_of (day ∷ items) = b'%' ∷ b'd' ∷ format_of items
format_of (year ∷ items) = b'%' ∷ b'Y' ∷ format_of items
format_of (hour ∷ items) = b'%' ∷ b'H' ∷ format_of items
format_of (minute ∷ items) = b'%' ∷ b'M' ∷ format_of items
format_of (second ∷ items) = b'%' ∷ b'S' ∷ format_of items
format_of (zone ∷ items) = b'%' ∷ b'z' ∷ format_of items
format_of (between c ∷ items) = c ∷ format_of items

pub record Moment : Type 0 where
  pub years : ℕ
  pub months : ℕ
  pub days : ℕ
  pub hours : ℕ
  pub minutes : ℕ
  pub seconds : ℕ
  pub offset : Bytes

-- The ranges of the fields.
pub record IsMoment (v : Moment) : Type 0 where
  pub four_digits : v.years < 10000
  pub a_month : (1 ≤ v.months) × (v.months ≤ 12)
  pub a_day : (1 ≤ v.days) × (v.days ≤ 31)
  pub an_hour : v.hours ≤ 23
  pub a_minute : v.minutes ≤ 59
  pub a_second : v.seconds ≤ 60
  pub a_zone : IsZone v.offset

abbrev pub four : ℕ → Bytes → Bytes
four n r = (n / 1000 + b'0') ∷ (n / 100 % 10 + b'0') ∷ (n / 10 % 10 + b'0') ∷ (n % 10 + b'0') ∷ r

-- Numbers of two digits, and four for the year.
abbrev pub print : Moment → List Item → Bytes
print v [] = []
print v (month ∷ items) = two v.months (print v items)
print v (day ∷ items) = two v.days (print v items)
print v (year ∷ items) = four v.years (print v items)
print v (hour ∷ items) = two v.hours (print v items)
print v (minute ∷ items) = two v.minutes (print v items)
print v (second ∷ items) = two v.seconds (print v items)
print v (zone ∷ items) = v.offset
print v (between c ∷ items) = c ∷ print v items

-- A zone ends the format, and only the format of a timestamp has a space.
abbrev pub IsFormat : DateTimeType → List Item → Type 0
IsFormat t [] = Unit
IsFormat t (zone ∷ []) = Unit
IsFormat t (zone ∷ item ∷ items) = ⊥
IsFormat t (between c ∷ items) =
    ((c == b'-' || c == b':' || (c == b' ' && is_timestamp t)) ≡ true) × IsFormat t items
IsFormat t (_ ∷ items) = IsFormat t items

in_range-two :
    (low high n : ℕ) (r : Bytes)
    → low ≤ n
    → n ≤ high
    → high < 100
    → in_range low high (read_number (two n r)) ≡ some r
in_range-two low high n r l h s = let e = read_number-two n r (omega arith) in ground (arith, e)

is_year_valid-four : (n : ℕ) (r : Bytes) → n < 10000 → is_year_valid (four n r) ≡ some r
unfolding is_year_valid
is_year_valid-four n r h =
    let a : n / 1000 ≤ 9 = omega arith in
    let b : n / 100 % 10 ≤ 9 = omega arith in
    let c : n / 10 % 10 ≤ 9 = omega arith in
    let d : n % 10 ≤ 9 = omega arith in ground (arith, a, b, c, d)

is_microsecond_valid-cons :
    (c : ℕ) (r : Bytes) → (c == b'.') ≡ false → is_microsecond_valid (c ∷ r) ≡ some (c ∷ r)
unfolding is_microsecond_valid
is_microsecond_valid-cons c [] h = ground arith
is_microsecond_valid-cons c (d ∷ r) h = ground arith

is_microsecond_valid-IsZone : (r : Bytes) → IsZone r → is_microsecond_valid r ≡ some r
unfolding is_microsecond_valid
is_microsecond_valid-IsZone [] z = refl
is_microsecond_valid-IsZone (c ∷ r) z =
    let (g, e) = is_time_zone-loop c r ((is_time_zone_iff (c ∷ r)).1 z) in
    is_microsecond_valid-cons c r (ground (arith, g))

is_microsecond_valid-print :
    (t : DateTimeType) (v : Moment) (items : List Item)
    → IsMoment v
    → IsFormat t items
    → is_microsecond_valid (print v items) ≡ some (print v items)
is_microsecond_valid-print t v [] m f = is_microsecond_valid-IsZone [] (IsZone.absent refl)
is_microsecond_valid-print t v (month ∷ items) m f =
    is_microsecond_valid-cons (v.months / 10 + b'0') _ (ground arith)
is_microsecond_valid-print t v (day ∷ items) m f =
    is_microsecond_valid-cons (v.days / 10 + b'0') _ (ground arith)
is_microsecond_valid-print t v (year ∷ items) m f =
    is_microsecond_valid-cons (v.years / 1000 + b'0') _ (ground arith)
is_microsecond_valid-print t v (hour ∷ items) m f =
    is_microsecond_valid-cons (v.hours / 10 + b'0') _ (ground arith)
is_microsecond_valid-print t v (minute ∷ items) m f =
    is_microsecond_valid-cons (v.minutes / 10 + b'0') _ (ground arith)
is_microsecond_valid-print t v (second ∷ items) m f =
    is_microsecond_valid-cons (v.seconds / 10 + b'0') _ (ground arith)
is_microsecond_valid-print t v (zone ∷ items) m f = is_microsecond_valid-IsZone v.offset m.a_zone
is_microsecond_valid-print t v (between c ∷ items) m f =
    is_microsecond_valid-cons c (print v items) (ground arith)

format_loop-print :
    (t : DateTimeType) (v : Moment) (items : List Item) (f : Flags)
    → IsMoment v
    → IsFormat t items
    → (g : Flags) × (format_loop t (format_of items) (print v items) f ≡ behind_format [] g)
format_loop-print t v [] f m h = (f, format_loop-nil t f)
format_loop-print t v (month ∷ items) f m h =
    let e = (fields-read_number (two v.months (print v items))).0 in
    let x = in_range-two 1 12 v.months (print v items) (m.a_month.0) (m.a_month.1) (omega arith) in
    let (g, y) = format_loop-print t v items (record f { month = true }) m h in
    (
      g,
      format_loop-month t (format_of items) (two v.months (print v items)) (print v items) f (e ∙ x)
          ∙ y,
    )
format_loop-print t v (day ∷ items) f m h =
    let e = (fields-read_number (two v.days (print v items))).1 in
    let x = in_range-two 1 31 v.days (print v items) (m.a_day.0) (m.a_day.1) (omega arith) in
    let (g, y) = format_loop-print t v items (record f { day = true }) m h in
    (
      g,
      format_loop-day t (format_of items) (two v.days (print v items)) (print v items) f (e ∙ x)
          ∙ y,
    )
format_loop-print t v (year ∷ items) f m h =
    let x = is_year_valid-four v.years (print v items) m.four_digits in
    let (g, y) = format_loop-print t v items (record f { year = true }) m h in
    (g, format_loop-year t (format_of items) (four v.years (print v items)) (print v items) f x ∙ y)
format_loop-print t v (hour ∷ items) f m h =
    let e = (fields-read_number (two v.hours (print v items))).2 in
    let x = in_range-two 0 23 v.hours (print v items) (omega arith) (m.an_hour) (omega arith) in
    let (g, y) = format_loop-print t v items f m h in
    (g, format_loop-hour t (format_of items) (print v items) (v.hours / 10 + b'0') _ f (e ∙ x) ∙ y)
format_loop-print t v (minute ∷ items) f m h =
    let e = (fields-read_number (two v.minutes (print v items))).3 in
    let x = in_range-two 0 59 v.minutes (print v items) (omega arith) (m.a_minute) (omega arith) in
    let (g, y) = format_loop-print t v items f m h in
    (
      g,
      format_loop-minute t (format_of items) (two v.minutes (print v items)) (print v items) f
            (e ∙ x)
          ∙ y,
    )
format_loop-print t v (second ∷ items) f m h =
    let e = (fields-read_number (two v.seconds (print v items))).4 in
    let x = in_range-two 0 60 v.seconds (print v items) (omega arith) m.a_second (omega arith) in
    let z = is_microsecond_valid-print t v items m h in
    let (g, y) = format_loop-print t v items f m h in
    (
      g,
      format_loop-second t (format_of items) (two v.seconds (print v items)) (print v items) f
            (e ∙ ap (λ o. o >>? is_microsecond_valid) x ∙ z)
          ∙ y,
    )
format_loop-print t v (zone ∷ []) f m h = (
  f,
  format_loop-zone t [] v.offset [] f ((is_time_zone_iff v.offset).1 m.a_zone)
      ∙ format_loop-nil t f,
)
format_loop-print t v (zone ∷ item ∷ items) f m h = absurd h
format_loop-print t v (between c ∷ items) f m h =
    let (g, y) = format_loop-print t v items f m h.1 in
    (g, format_loop-between t (format_of items) (print v items) c f h.0 ∙ y)

-- A literal that is written in a format, with every field in its range, is valid in that format.
pub is_date_time_literal_in_valid_format-print :
    (t : DateTimeType) (v : Moment) (items : List Item)
    → IsMoment v
    → IsFormat t items
    → is_date_time_literal_in_valid_format t (print v items) (format_of items) ≡ true
unfolding is_date_time_literal_in_valid_format behind
is_date_time_literal_in_valid_format-print t v items m h =
    let (g, e) =
      format_loop-print t v items (record { month = false; day = false; year = false }) m h in
    ground (arith, e)
