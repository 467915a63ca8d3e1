-- ===== src/Types/Same/Casts.antt =====
-- The casts that `ensure_same_type` puts around its two statements.
use ydbocto.Types.{
  SqlValueType, timestamp_literal, timestamp_with_time_zone_literal, is_nul_value,
  is_date_time_type, same,
}
use ydbocto.Types.Ambiguous.{
  passed, failed, map_type_to_parameter_value, cast_boolean_or_string, cast_ambiguous_types,
}
use ydbocto.Types.Same.{SameType, ensure_same_type, convert}
use ydbocto.Prelude.{
  ◌≡◌, refl, Bool, true, false, not, ◌&&◌, ◌||◌, Option, none, some, arith, if◌then◌else◌,
}
use ydbocto.Types.Finite.{all_of, every, every-every-apply, same_option, same_option_eq}

-- The cast that a conversion to `v` asks for: of what is no date or time yet, or is another one.
unfoldable pub cast_to : SqlValueType → SqlValueType → Option SqlValueType
cast_to t v = if is_date_time_type v && not (same t v) && not (is_nul_value t) then some v else none

casts_test : SqlValueType → SqlValueType → Bool
unfolding ensure_same_type convert cast_ambiguous_types map_type_to_parameter_value
    cast_boolean_or_string cast_to same_option
casts_test t u =
    same timestamp_with_time_zone_literal t && same timestamp_literal u
    || elim (ensure_same_type t u) [
      | passed s ↦
          same_option s.left_cast (cast_to t s.left) && same_option s.right_cast (cast_to u s.right)
      | failed e ↦ true
    ]

casts_tests : every (λ t. every (λ u. casts_test t u)) ≡ true
unfolding casts_test ensure_same_type convert cast_ambiguous_types map_type_to_parameter_value
    cast_boolean_or_string cast_to same_option every all_of
casts_tests = refl

-- Where the check passes, each statement gets a cast to its new type exactly when the new type is a date
-- or time type that is not its own and the statement is not NULL; provided that the left type is not
-- TIMESTAMP WITH TIME ZONE or the right one is not TIMESTAMP.
ensure_same_type-casts :
    (t u : SqlValueType) (s : SameType)
    → (same timestamp_with_time_zone_literal t && same timestamp_literal u) ≡ false
    → ensure_same_type t u ≡ passed s
    → (s.left_cast ≡ cast_to t s.left) × (s.right_cast ≡ cast_to u s.right)
unfolding casts_test
ensure_same_type-casts t u s h e =
    let a = every-every-apply casts_test t u casts_tests in
    let b : same_option s.left_cast (cast_to t s.left)
          && same_option s.right_cast (cast_to u s.right)
        ≡ true =
      ground (arith, a, h, e) in
    (
      same_option_eq s.left_cast (cast_to t s.left) (ground (arith, b)),
      same_option_eq s.right_cast (cast_to u s.right) (ground (arith, b)),
    )
