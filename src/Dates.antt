-- ===== src/Dates.antt =====
-- Date and time literals, src/aux/ydboctodateoperations.c. A literal is the bytes in front of its NUL.
-- A macro that moves the pointer gives what is left of the literal, and none for its `return 1`.
pub mod Ranges
pub mod Zones
pub mod Literals
pub mod Microseconds
use ydbocto.Prelude.{
  [], ℕ, zero, suc, ◌+◌, Bool, true, false, not, ◌&&◌, ◌||◌, Option, none, some, ◌∷◌, ltb, leb,
  ◌==◌, if◌then◌else◌,
}
use ydbocto.Rocto.Bytes.{Bytes}

-- One macro behind another.
infixl 5 ◌>>?◌
abbrev pub ◌>>?◌ : Option Bytes → (Bytes → Option Bytes) → Option Bytes
none >>? next = none
some r >>? next = next r

-- `IS_NUMBER`, `IS_GMT_OFFSET`
abbrev pub is_number : ℕ → Bool
is_number c = leb b'0' c && leb c b'9'

abbrev pub is_gmt_offset : ℕ → Bool
is_gmt_offset c = c == b'+' || c == b'-'

-- `IS_NUMBER` on what is behind a character, where the end is no number.
abbrev pub starts_with_number : Bytes → Bool
starts_with_number [] = false
starts_with_number (c ∷ r) = is_number c

pub is_month_valid : Bytes → Option Bytes
is_month_valid [] = none
is_month_valid (c ∷ []) = if leb b'1' c && leb c b'9' then some [] else none
is_month_valid (c ∷ d ∷ r) =
    if not (is_number c)
    then none
    else if not (is_number d)
    then (if leb b'1' c then some (d ∷ r) else none)
    else if c == b'0'
    then (if d == b'0' then none else some r)
    else if c == b'1'
    then (if leb d b'2' then some r else none)
    else none

pub is_date_valid : Bytes → Option Bytes
is_date_valid [] = none
is_date_valid (c ∷ []) = if leb b'1' c && leb c b'9' then some [] else none
is_date_valid (c ∷ d ∷ r) =
    if not (is_number c)
    then none
    else if not (is_number d)
    then (if leb b'1' c then some (d ∷ r) else none)
    else if leb b'4' c
    then none
    else if c == b'0'
    then (if d == b'0' then none else some r)
    else if leb c b'2'
    then some r
    else if d == b'0' || d == b'1'
    then some r
    else none

pub is_year_valid : Bytes → Option Bytes
is_year_valid (a ∷ b ∷ c ∷ d ∷ r) =
    if is_number a && is_number b && is_number c && is_number d then some r else none
is_year_valid _ = none

pub is_hour_valid : Bytes → Option Bytes
is_hour_valid [] = none
is_hour_valid (c ∷ []) = if is_number c then some [] else none
is_hour_valid (c ∷ d ∷ r) =
    if not (is_number c)
    then none
    else if not (is_number d)
    then some (d ∷ r)
    else if c == b'0' || c == b'1'
    then some r
    else if c == b'2'
    then (if leb d b'3' then some r else none)
    else none

pub is_min_valid : Bytes → Option Bytes
is_min_valid [] = none
is_min_valid (c ∷ []) = if is_number c then some [] else none
is_min_valid (c ∷ d ∷ r) =
    if not (is_number c)
    then none
    else if not (is_number d)
    then some (d ∷ r)
    else if ltb b'5' c
    then none
    else some r

-- `for (int i = 1; i <= 6; i++)`: at most six digits, up to the end or a zone's sign.
pub microseconds : ℕ → Bytes → Option Bytes
microseconds zero r = some r
microseconds (suc n) [] = some []
microseconds (suc n) (c ∷ r) =
    let more = microseconds n r in
    if is_gmt_offset c then some (c ∷ r) else if is_number c then more else none

pub is_microsecond_valid : Bytes → Option Bytes
unfolding microseconds
is_microsecond_valid [] = some []
is_microsecond_valid (c ∷ []) = if c == b'.' then none else some (c ∷ [])
is_microsecond_valid (c ∷ d ∷ r) = if c == b'.' then microseconds 6 (d ∷ r) else some (c ∷ d ∷ r)

pub is_sec_valid : Bytes → Option Bytes
unfolding is_microsecond_valid
is_sec_valid [] = none
is_sec_valid (c ∷ []) = if is_number c then some [] else none
is_sec_valid (c ∷ d ∷ r) =
    if not (is_number c)
    then none
    else if not (is_number d)
    then is_microsecond_valid (d ∷ r)
    else if ltb b'6' c
    then none
    else if c == b'6' && not (d == b'0')
    then none
    else is_microsecond_valid r

-- The tests of `IS_TIME_ZONE` on the character at index `i`, with the one before it.
pub zone_char : ℕ → ℕ → ℕ → Bool
zone_char i prev c =
    if i == 2 || i == 5
    then c == b':'
    else if not (is_number c)
    then false
    else if i == 1
    then not (ltb b'1' prev) && not (prev == b'1' && ltb b'5' c)
    else if i == 4 || i == 7
    then not (ltb b'5' prev)
    else true

-- `for (i = 0; i < 8; i++)`, with `n` rounds to go: the end is a `break` behind HH and HH:MM.
pub zone_loop : ℕ → ℕ → ℕ → Bytes → Option Bytes
unfolding zone_char
zone_loop zero i prev r = some r
zone_loop (suc n) i prev [] = if i == 2 || i == 5 then some [] else none
zone_loop (suc n) i prev (c ∷ r) =
    let more = zone_loop n (i + 1) c r in if zone_char i prev c then more else none

pub is_time_zone : Bytes → Option Bytes
unfolding zone_loop
is_time_zone [] = some []
is_time_zone (c ∷ r) =
    if is_gmt_offset c
    then elim (zone_loop 8 0 0 r) [ none ↦ none | some [] ↦ some [] | some (d ∷ t) ↦ none ]
    else none
