-- ===== src/Dates/Literals.antt =====
-- Literals in a format: `is_date_time_literal_in_valid_format` and
-- `is_all_numbers_and_has_specified_num_of_delims` of src/aux/ydboctodateoperations.c.
pub mod Steps
pub mod Formats
use ydbocto.Prelude.{
  [], ℕ, ◌+◌, Bool, true, false, not, ◌&&◌, ◌||◌, Option, none, some, ◌∷◌, ltb, leb, ◌==◌,
  if◌then◌else◌,
}
use ydbocto.Dates.{
  is_number, is_gmt_offset, starts_with_number, is_month_valid, is_date_valid, is_year_valid,
  is_hour_valid, is_min_valid, is_sec_valid, is_time_zone, ◌>>?◌,
}
use ydbocto.Rocto.Bytes.{Bytes}

-- `SqlValueType`, as far as it is a date or a time.
pub data DateTimeType : Type 0 where
  date_literal time_literal timestamp_literal : DateTimeType
  time_with_time_zone_literal timestamp_with_time_zone_literal : DateTimeType

abbrev pub is_timestamp : DateTimeType → Bool
is_timestamp timestamp_literal = true
is_timestamp timestamp_with_time_zone_literal = true
is_timestamp _ = false

abbrev pub is_time_zone_allowed : DateTimeType → Bool
is_time_zone_allowed date_literal = false
is_time_zone_allowed _ = true

-- `is_month_parsed`, `is_day_parsed` and `is_year_parsed`.
pub record Flags : Type 0 where
  pub month : Bool
  pub day : Bool
  pub year : Bool

-- What the loop over the format comes to: `return ret` or `return 1`, or what is left of the literal
-- behind the format.
pub data Parsed : Type 0 where
  accepted rejected : Parsed
  behind_format : Bytes → Flags → Parsed

abbrev pub field : Option Bytes → (Bytes → Parsed) → Parsed
field none next = rejected
field (some r) next = next r

-- A separator of the format. Behind the date of a timestamp the literal may end.
pub separator : DateTimeType → ℕ → Bytes → (Bytes → Parsed) → Parsed
separator t k lit next = if k == b' ' && not (is_timestamp t) then rejected else elim lit [
  | [] ↦ if k == b' ' && is_timestamp t then accepted else rejected
  | c ∷ r ↦ if c == k then next r else rejected
]

-- `case 'H'`: the literal of a timestamp may end in front of its time.
pub hour_field : DateTimeType → Bytes → (Bytes → Parsed) → Parsed
unfolding is_hour_valid
hour_field t [] next = if is_timestamp t then accepted else rejected
hour_field t (c ∷ r) next = field (is_hour_valid (c ∷ r)) next

-- `while ('\0' != *fmt_c)`
pub format_loop : DateTimeType → Bytes → Bytes → Flags → Parsed
unfolding hour_field separator
format_loop t [] lit f = behind_format lit f
format_loop t (k ∷ fmt) lit f =
    if k == b'%'
    then format_loop t fmt lit f
    else if k == b'm'
    then field (is_month_valid lit) (λ r. format_loop t fmt r (record f { month = true }))
    else if k == b'd'
    then field (is_date_valid lit) (λ r. format_loop t fmt r (record f { day = true }))
    else if k == b'Y'
    then field (is_year_valid lit) (λ r. format_loop t fmt r (record f { year = true }))
    else if k == b'H'
    then hour_field t lit (λ r. format_loop t fmt r f)
    else if k == b'M'
    then field (is_min_valid lit) (λ r. format_loop t fmt r f)
    else if k == b'S'
    then field (is_sec_valid lit) (λ r. format_loop t fmt r f)
    else if k == b'z'
    then field (is_time_zone lit) (λ r. format_loop t fmt r f)
    else if k == b'-' || k == b':' || k == b' '
    then separator t k lit (λ r. format_loop t fmt r f)
    else rejected

abbrev pub colon : Bytes → Option Bytes
colon [] = none
colon (c ∷ r) = if c == b':' then some r else none

-- The time of day, with a zone, behind the space of a date.
pub time_of_day : Bytes → Option Bytes
time_of_day r =
    is_hour_valid r >>? colon >>? is_min_valid >>? colon >>? is_sec_valid >>? is_time_zone

abbrev pub is_some : Option Bytes → Bool
is_some none = false
is_some (some r) = true

abbrev pub all_parsed : Flags → Bool
all_parsed f = f.year && f.month && f.day

-- The literal behind the format: a zone, or the time of day of a date.
pub behind : DateTimeType → Bytes → Flags → Bool
unfolding time_of_day
behind t [] f = true
behind t (c ∷ r) f =
    if not (is_time_zone_allowed t) && c == b' ' && all_parsed f
    then is_some (time_of_day r)
    else is_some (is_time_zone (c ∷ r))

-- True is the result 0.
pub is_date_time_literal_in_valid_format : DateTimeType → Bytes → Bytes → Bool
unfolding format_loop behind
is_date_time_literal_in_valid_format t literal text_format =
    elim (format_loop t text_format literal (record { month = false; day = false; year = false })) [
      | accepted ↦ true
      | rejected ↦ false
      | behind_format lit f ↦ behind t lit f
    ]

-- The loop of `is_all_numbers_and_has_specified_num_of_delims`: true is the result 0. A sign is
-- only behind a delimiter, and in front of a digit.
pub numbers_loop : ℕ → ℕ → ℕ → ℕ → Bytes → Bool
numbers_loop delim want seen nums [] = not (nums == 0) && leb want seen
numbers_loop delim want seen nums (c ∷ []) =
    if c == delim
    then not (ltb want (seen + 1)) && not (nums == 0) && leb want (seen + 1)
    else is_number c && leb want seen
numbers_loop delim want seen nums (c ∷ d ∷ r) =
    let behind_sign = numbers_loop delim want (seen + 1) nums r in
    let behind_delim = numbers_loop delim want (seen + 1) nums (d ∷ r) in
    let behind_digit = numbers_loop delim want seen (nums + 1) (d ∷ r) in
    if c == delim
    then (if ltb want (seen + 1)
        then false
        else if is_gmt_offset d
        then starts_with_number r && behind_sign
        else behind_delim)
    else is_number c && behind_digit

pub is_all_numbers_and_has_specified_num_of_delims : Bytes → ℕ → ℕ → Bool
unfolding numbers_loop
is_all_numbers_and_has_specified_num_of_delims [] delim want = numbers_loop delim want 0 0 []
is_all_numbers_and_has_specified_num_of_delims (c ∷ r) delim want =
    if is_gmt_offset c then numbers_loop delim want 0 0 r else numbers_loop delim want 0 0 (c ∷ r)
