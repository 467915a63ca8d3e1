-- ===== src/Tests/Moments.antt =====
-- Literals and moments for src/aux/ydboctodateoperations.c.
use ydbocto.Dates.Literals.{timestamp_with_time_zone_literal, is_date_time_literal_in_valid_format}
use ydbocto.Dates.Literals.Formats.{
  month, day, year, hour, minute, second, zone, between, Moment, IsMoment, Item,
  is_date_time_literal_in_valid_format-print,
}
use ydbocto.Prelude.{◌≡◌, refl, true, some, List, [], ◌∷◌, arith}
use ydbocto.Dates.{
  is_month_valid, is_date_valid, is_hour_valid, is_min_valid, is_microsecond_valid, is_sec_valid,
  is_time_zone, ◌>>?◌,
}
use ydbocto.Rocto.Bytes.{codes}
use ydbocto.Dates.Microseconds.{
  Signed, add_micro_seconds, remove_micro_seconds, remove_micro_seconds-add_micro_seconds,
}
use ydbocto.Dates.Ranges.{read_number, in_range, fields-read_number}
use ydbocto.Dates.Zones.{IsZone, is_time_zone_iff}

abbrev stamp : Moment
stamp = record {
  years = 2024;
  months = 2;
  days = 29;
  hours = 23;
  minutes = 5;
  seconds = 60;
  offset = codes "-05:30";
}

stamp-IsZone : IsZone (codes "-05:30")
stamp-IsZone = IsZone.minutes b'-' 5 30 refl (ground arith) (ground arith) refl

stamp-IsMoment : IsMoment stamp
stamp-IsMoment = record {
  four_digits = ground arith;
  a_month = (ground arith, ground arith);
  a_day = (ground arith, ground arith);
  an_hour = ground arith;
  a_minute = ground arith;
  a_second = ground arith;
  a_zone = stamp-IsZone;
}

-- "%Y-%m-%d %H:%M:%S%z"
abbrev iso : List Item
iso =
    year
    ∷ between b'-'
    ∷ month
    ∷ between b'-'
    ∷ day
    ∷ between b' '
    ∷ hour
    ∷ between b':'
    ∷ minute
    ∷ between b':'
    ∷ second
    ∷ zone
    ∷ []

is_date_time_literal_in_valid_format-print_example :
    is_date_time_literal_in_valid_format timestamp_with_time_zone_literal
      (codes "2024-02-29 23:05:60-05:30")
      (codes "%Y-%m-%d %H:%M:%S%z")
    ≡ true
is_date_time_literal_in_valid_format-print_example =
    is_date_time_literal_in_valid_format-print timestamp_with_time_zone_literal stamp iso
      stamp-IsMoment (refl, (refl, (refl, (refl, (refl, tt)))))

is_time_zone_iff_example : is_time_zone (codes "-05:30") ≡ some []
is_time_zone_iff_example = (is_time_zone_iff (codes "-05:30")).1 stamp-IsZone

fields-read_number_example :
    (is_month_valid (codes "13") ≡ in_range 1 12 (read_number (codes "13")))
    × (is_date_valid (codes "13") ≡ in_range 1 31 (read_number (codes "13")))
    × (is_hour_valid (codes "13") ≡ in_range 0 23 (read_number (codes "13")))
    × (is_min_valid (codes "13") ≡ in_range 0 59 (read_number (codes "13")))
    × (is_sec_valid (codes "13")
        ≡ (in_range 0 60 (read_number (codes "13")) >>? is_microsecond_valid))
fields-read_number_example = fields-read_number (codes "13")

abbrev second_before : Signed
second_before = record { negative = true; magnitude = 2 }

remove_micro_seconds-add_micro_seconds_example :
    (w : Signed) × (add_micro_seconds second_before 500000 ≡ some w)
    × (remove_micro_seconds w ≡ (second_before, 500000))
remove_micro_seconds-add_micro_seconds_example =
    remove_micro_seconds-add_micro_seconds second_before 500000 refl (ground arith) (ground arith)
