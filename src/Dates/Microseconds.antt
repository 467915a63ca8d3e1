-- ===== src/Dates/Microseconds.antt =====
-- The internal format of a date and time: seconds with six digits of microseconds behind them, by the macros
-- `ADD_MICRO_SECONDS` and `REMOVE_MICRO_SECONDS` of src/aux/ydboctodateoperations.c.
use ydbocto.Prelude.{
  [], ℕ, zero, suc, ◌+◌, ◌*◌, ◌/◌, ◌%◌, ◌<◌, ◌≡◌, Bool, true, false, not, ◌&&◌, Option, none, some,
  List, ◌∷◌, arith, ◌==◌, if◌then◌else◌, ap, ◌∙◌, ◌^◌, ltb,
}

-- A signed number in C: its sign, and its magnitude. Zero is not negative.
pub record Signed : Type 0 where
  pub negative : Bool
  pub magnitude : ℕ

abbrev pub IsSigned : Signed → Type 0
IsSigned v = (v.negative && v.magnitude == 0) ≡ false

-- `micro_arr`, from its last digit on; `room` is `i + 1`, and none is a write in front of the array.
pub micro_digits : ℕ → ℕ → List ℕ → Option (List ℕ)
micro_digits zero micro ds = if micro == 0 then some ds else none
micro_digits (suc room) micro ds = micro_digits room (micro / 10) (micro % 10 ∷ ds)

-- `VALUE = VALUE * 10 ± micro_arr[i]`, away from zero in either case.
pub append_digits : ℕ → List ℕ → ℕ
append_digits v [] = v
append_digits v (d ∷ ds) = append_digits (v * 10 + d) ds

-- A value of zero is not negative, and neither is what comes of it. `VALUE` is a `ydb_long_t`, of 64 bits; none is
-- also a result from 2^63 on, where the C code overflows.
pub add_micro_seconds : Signed → ℕ → Option Signed
unfolding micro_digits append_digits
add_micro_seconds v micro = elim (micro_digits 6 micro []) [
  | none ↦ none
  | some ds ↦
      let n = append_digits v.magnitude ds in
      if ltb n (2 ^ 63) then some (record { negative = v.negative; magnitude = n }) else none
]

-- The loop over six digits: what is left of the value, and the microseconds. C's division cuts
-- towards zero, and the sign of the remainders is dropped at the end.
pub take_digits : ℕ → ℕ → ℕ → ℕ → ℕ × ℕ
take_digits zero v mult micro = (v, micro)
take_digits (suc n) v mult micro = take_digits n (v / 10) (mult * 10) (micro + v % 10 * mult)

abbrev pub signed : Bool → ℕ → Signed
signed b n = record { negative = b && not (n == 0); magnitude = n }

pub remove_micro_seconds : Signed → Signed × ℕ
unfolding take_digits
remove_micro_seconds v =
    let (n, micro) = take_digits 6 v.magnitude 1 0 in (signed v.negative n, micro)

add_micro_seconds-eq :
    (v : Signed) (m : ℕ)
    → m < 1000000
    → v.magnitude * 1000000 + m < 2 ^ 63
    → add_micro_seconds v m
      ≡ some (record { negative = v.negative; magnitude = v.magnitude * 1000000 + m })
unfolding add_micro_seconds micro_digits append_digits
add_micro_seconds-eq v m h b = ground arith

remove_micro_seconds-eq :
    (v : Signed)
    → remove_micro_seconds v ≡ (signed v.negative (v.magnitude / 1000000), v.magnitude % 1000000)
unfolding remove_micro_seconds take_digits
remove_micro_seconds-eq v = ground arith

signed-eq : (v : Signed) → IsSigned v → signed v.negative v.magnitude ≡ v
signed-eq v h = ground arith

-- Microseconds below 1000000 that were put behind a number of seconds, whose sign is not that of a negative
-- zero, are taken off again, and leave the number as it was, if the two together are below 2^63 in magnitude.
pub remove_micro_seconds-add_micro_seconds :
    (v : Signed) (m : ℕ)
    → IsSigned v
    → m < 1000000
    → v.magnitude * 1000000 + m < 2 ^ 63
    → (w : Signed) × (add_micro_seconds v m ≡ some w) × (remove_micro_seconds w ≡ (v, m))
remove_micro_seconds-add_micro_seconds v m h l f =
    let w : Signed = record { negative = v.negative; magnitude = v.magnitude * 1000000 + m } in
    let a : (v.magnitude * 1000000 + m) / 1000000 ≡ v.magnitude = omega arith in
    let b : (v.magnitude * 1000000 + m) % 1000000 ≡ m = omega arith in
    let e : signed v.negative v.magnitude ≡ v = signed-eq v h in
    (w, add_micro_seconds-eq v m l f, remove_micro_seconds-eq w ∙ rw (a, b) (ap (λ x. (x, m)) e))

-- In front of 1970 the internal format is not in order: of two times in the same second, with microseconds
-- below 1000000 and numbers below 2^63, the later one has the number that is further below zero.
add_micro_seconds-order :
    (v : Signed) (m k : ℕ)
    → v.negative ≡ true
    → m < k
    → k < 1000000
    → v.magnitude * 1000000 + k < 2 ^ 63
    → (w : Signed) × (u : Signed) × (add_micro_seconds v m ≡ some w)
      × (add_micro_seconds v k ≡ some u)
      × (w.negative ≡ true)
      × (u.negative ≡ true)
      × (w.magnitude < u.magnitude)
add_micro_seconds-order v m k n l h f = (
  record { negative = v.negative; magnitude = v.magnitude * 1000000 + m },
  record { negative = v.negative; magnitude = v.magnitude * 1000000 + k },
  add_micro_seconds-eq v m (omega arith) (omega arith),
  add_micro_seconds-eq v k h f,
  n,
  n,
  omega arith,
)
