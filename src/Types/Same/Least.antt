-- ===== src/Types/Same/Least.antt =====
-- The common type of `ensure_same_type` is the least one in the order of implicit conversions.
use ydbocto.Types.{
  nul_value, integer_literal, numeric_literal, boolean_value, parameter_value,
  boolean_or_string_literal, string_literal, date_literal, time_literal, timestamp_literal, is_time,
  is_timestamp_type, is_date_time_type, same,
}
use ydbocto.Types.Same.{ensure_same_type, convert}
use ydbocto.Types.{SqlValueType}
use ydbocto.Types.Ambiguous.{
  passed, failed, Checked, map_type_to_parameter_value, cast_boolean_or_string,
  cast_ambiguous_types, TypeError, Checked-cases,
}
use ydbocto.Types.Same.{SameType}
use mathlib.Core.Path.{subst}
use ydbocto.Prelude.{
  ◌≡◌, refl, Bool, true, not, ◌&&◌, ◌||◌, Option, none, some, false, arith, ◌↔◌, inl, inr, &&_parts,
  sym, ap, ◌∙◌,
}
use ydbocto.Types.Finite.{all_of, every, every-apply, same_eq, every-every-apply}

-- The order of implicit conversions: a value of type `t` fits where one of type `u` is wanted.
unfoldable pub fits : SqlValueType → SqlValueType → Bool
fits nul_value u = true
fits integer_literal u = same integer_literal u || same numeric_literal u
fits boolean_or_string_literal u =
    same boolean_or_string_literal u
    || same boolean_value u
    || same string_literal u
    || is_date_time_type u
fits string_literal u = same string_literal u || is_date_time_type u
fits date_literal u = same date_literal u || is_timestamp_type u
fits timestamp_literal u = is_timestamp_type u
fits time_literal u = is_time u
fits t u = same t u

-- `v` is the least type that both types fit.
unfoldable pub is_least : SqlValueType → SqlValueType → SqlValueType → Bool
unfolding fits every all_of
is_least t u v = fits t v && fits u v && every (λ w. not (fits t w && fits u w) || fits v w)

-- The types that a check leaves behind, if it passes.
abbrev pub types_of : Checked SameType → Option (SqlValueType × SqlValueType)
types_of (passed s) = some (s.left, s.right)
types_of (failed e) = none

is_least_test : SqlValueType → SqlValueType → Bool
unfolding ensure_same_type convert cast_ambiguous_types map_type_to_parameter_value
    cast_boolean_or_string
is_least_test t u =
    same parameter_value t || same parameter_value u || elim (ensure_same_type t u) [
      | passed s ↦ same s.left s.right && is_least t u s.left
      | failed e ↦ every (λ w. not (fits t w && fits u w))
    ]

is_least_tests : every (λ t. every (λ u. is_least_test t u)) ≡ true
unfolding is_least_test ensure_same_type convert cast_ambiguous_types map_type_to_parameter_value
    cast_boolean_or_string every all_of fits is_least
is_least_tests = refl

fits_antisym_tests : every (λ t. every (λ u. not (fits t u && fits u t) || same t u)) ≡ true
unfolding fits every all_of
fits_antisym_tests = refl

fits_antisym : (t u : SqlValueType) → fits t u ≡ true → fits u t ≡ true → t ≡ u
fits_antisym t u h k =
    let a =
      every-every-apply (λ x y. not (fits x y && fits y x) || same x y) t u fits_antisym_tests in
    same_eq t u (ground (arith, a, h, k))

-- Of the parts of `is_least`.
is_least-fits :
    (t u v : SqlValueType)
    → is_least t u v ≡ true
    → (fits t v ≡ true)
      × (fits u v ≡ true)
      × (every (λ w. not (fits t w && fits u w) || fits v w) ≡ true)
unfolding is_least
is_least-fits t u v h =
    &&_parts (fits t v) (fits u v) (every (λ w. not (fits t w && fits u w) || fits v w)) h

is_least_unique : (t u v w : SqlValueType) → is_least t u v ≡ true → is_least t u w ≡ true → v ≡ w
is_least_unique t u v w h k =
    let a = is_least-fits t u v h in
    let b = is_least-fits t u w k in
    let c = every-apply (λ x. not (fits t x && fits u x) || fits v x) w a.2 in
    let d = every-apply (λ x. not (fits t x && fits u x) || fits w x) v b.2 in
    fits_antisym v w (ground (arith, b, c)) (ground (arith, a, d))

-- What the tests say of types that are no parameters.
ensure_same_type-passed :
    (t u : SqlValueType) (s : SameType)
    → same parameter_value t ≡ false
    → same parameter_value u ≡ false
    → ensure_same_type t u ≡ passed s
    → (s.left ≡ s.right) × (is_least t u s.left ≡ true)
unfolding is_least_test
ensure_same_type-passed t u s h k e =
    let a = every-every-apply is_least_test t u is_least_tests in
    let b : same s.left s.right && is_least t u s.left ≡ true = ground (arith, a, h, k, e) in
    (same_eq s.left s.right (ground (arith, b)), ground (arith, b))

ensure_same_type-failed :
    (t u v : SqlValueType) (e : TypeError)
    → same parameter_value t ≡ false
    → same parameter_value u ≡ false
    → ensure_same_type t u ≡ failed e
    → (fits t v && fits u v) ≡ false
unfolding is_least_test
ensure_same_type-failed t u v e h k x =
    let a = every-every-apply is_least_test t u is_least_tests in
    let b : every (λ w. not (fits t w && fits u w)) ≡ true = ground (arith, a, h, k, x) in
    let c = every-apply (λ w. not (fits t w && fits u w)) v b in ground (arith, c)

-- For two types that are no parameters, the check passes and makes both types `v` exactly when `v` is the
-- least type that both fit in the order of implicit conversions.
pub ensure_same_type_iff :
    (t u v : SqlValueType)
    → same parameter_value t ≡ false
    → same parameter_value u ≡ false
    → (types_of (ensure_same_type t u) ≡ some (v, v)) ↔ (is_least t u v ≡ true)
ensure_same_type_iff t u v h k = elim (Checked-cases (ensure_same_type t u)) [
  | inl (s, e) ↦
      let p = ensure_same_type-passed t u s h k e in
      (
        λ x.
            (let f : some (s.left, s.right) ≡ some (v, v) = sym (ap types_of e) ∙ x in
              let g : s.left ≡ v = ground (arith, f) in subst (λ w. is_least t u w ≡ true) g p.1),
        λ x.
            (let g : s.left ≡ v = is_least_unique t u s.left v p.1 x in
              let l : s.right ≡ v = sym p.0 ∙ g in
              ap types_of e ∙ (ap (λ w. some (w, s.right)) g ∙ ap (λ w. some (v, w)) l)),
      )
  | inr (x, e) ↦
      let p = ensure_same_type-failed t u v x h k e in
      let q : types_of (ensure_same_type t u) ≡ none = ap types_of e in
      (λ y. ground (arith, q, y), λ y. let a = is_least-fits t u v y in ground (arith, a, p))
]
