-- ===== src/Dates/Literals/Steps.antt =====
-- One step of the loop over a format, for each of its conversions.
use ydbocto.Dates.Literals.{
  behind_format, DateTimeType, is_timestamp, Flags, separator, hour_field, format_loop,
}
use ydbocto.Prelude.{[], ℕ, ◌≡◌, refl, true, ◌&&◌, ◌||◌, some, ◌∷◌, arith, ◌==◌}
use ydbocto.Dates.{
  is_month_valid, is_date_valid, is_year_valid, is_hour_valid, is_min_valid, is_sec_valid,
  is_time_zone,
}
use ydbocto.Rocto.Bytes.{Bytes}

pub format_loop-month :
    (t : DateTimeType) (fmt lit r : Bytes) (f : Flags)
    → is_month_valid lit ≡ some r
    → format_loop t (b'%' ∷ b'm' ∷ fmt) lit f ≡ format_loop t fmt r (record f { month = true })
unfolding format_loop
format_loop-month t fmt lit r f h = rw h

pub format_loop-day :
    (t : DateTimeType) (fmt lit r : Bytes) (f : Flags)
    → is_date_valid lit ≡ some r
    → format_loop t (b'%' ∷ b'd' ∷ fmt) lit f ≡ format_loop t fmt r (record f { day = true })
unfolding format_loop
format_loop-day t fmt lit r f h = rw h

pub format_loop-year :
    (t : DateTimeType) (fmt lit r : Bytes) (f : Flags)
    → is_year_valid lit ≡ some r
    → format_loop t (b'%' ∷ b'Y' ∷ fmt) lit f ≡ format_loop t fmt r (record f { year = true })
unfolding format_loop
format_loop-year t fmt lit r f h = rw h

pub format_loop-minute :
    (t : DateTimeType) (fmt lit r : Bytes) (f : Flags)
    → is_min_valid lit ≡ some r
    → format_loop t (b'%' ∷ b'M' ∷ fmt) lit f ≡ format_loop t fmt r f
unfolding format_loop
format_loop-minute t fmt lit r f h = rw h

pub format_loop-second :
    (t : DateTimeType) (fmt lit r : Bytes) (f : Flags)
    → is_sec_valid lit ≡ some r
    → format_loop t (b'%' ∷ b'S' ∷ fmt) lit f ≡ format_loop t fmt r f
unfolding format_loop
format_loop-second t fmt lit r f h = rw h

pub format_loop-zone :
    (t : DateTimeType) (fmt lit r : Bytes) (f : Flags)
    → is_time_zone lit ≡ some r
    → format_loop t (b'%' ∷ b'z' ∷ fmt) lit f ≡ format_loop t fmt r f
unfolding format_loop
format_loop-zone t fmt lit r f h = rw h

pub format_loop-hour :
    (t : DateTimeType) (fmt r : Bytes) (c : ℕ) (lit : Bytes) (f : Flags)
    → is_hour_valid (c ∷ lit) ≡ some r
    → format_loop t (b'%' ∷ b'H' ∷ fmt) (c ∷ lit) f ≡ format_loop t fmt r f
unfolding format_loop hour_field
format_loop-hour t fmt r c lit f h = rw h

pub format_loop-between :
    (t : DateTimeType) (fmt lit : Bytes) (c : ℕ) (f : Flags)
    → (c == b'-' || c == b':' || (c == b' ' && is_timestamp t)) ≡ true
    → format_loop t (c ∷ fmt) (c ∷ lit) f ≡ format_loop t fmt lit f
unfolding format_loop separator
format_loop-between t fmt lit c f h = ground arith

pub format_loop-nil : (t : DateTimeType) (f : Flags) → format_loop t [] [] f ≡ behind_format [] f
unfolding format_loop
format_loop-nil t f = refl
