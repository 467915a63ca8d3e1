-- ===== src/Types/Finite.antt =====
-- Tests over every `SqlValueType`: what a test finds for each of them holds of all.
use ydbocto.Types.{
  SqlValueType, code, same, unknown_value_type, boolean_value, numeric_literal, integer_literal,
  string_literal, column_reference, calculated_value, function_name, function_hash, parameter_value,
  nul_value, coerce_type, delim_value, is_null_literal, table_asterisk, boolean_or_string_literal,
  select_asterisk, date_literal, time_literal, time_with_time_zone_literal, timestamp_literal,
  timestamp_with_time_zone_literal, invalid_value_type,
}
use ydbocto.Prelude.{
  [], ℕ, zero, suc, ◌≡◌, refl, Bool, true, ◌&&◌, some, List, ◌∷◌, get_elem?, sym, ap, ◌∙◌, arith,
  ==_iff, false, Option, none,
}

-- The enumerators in order.
abbrev value_types : List SqlValueType
value_types =
    unknown_value_type ∷ boolean_value ∷ numeric_literal ∷ integer_literal ∷ string_literal
    ∷ column_reference ∷ calculated_value ∷ function_name ∷ function_hash ∷ parameter_value
    ∷ nul_value ∷ coerce_type ∷ delim_value ∷ is_null_literal ∷ table_asterisk
    ∷ boolean_or_string_literal ∷ select_asterisk ∷ date_literal ∷ time_literal
    ∷ time_with_time_zone_literal ∷ timestamp_literal ∷ timestamp_with_time_zone_literal
    ∷ invalid_value_type ∷ []

unfoldable pub all_of {ℓ} : {A : Type ℓ} → (A → Bool) → List A → Bool
all_of p [] = true
all_of p (x ∷ xs) = p x && all_of p xs

all_of-get_elem? {ℓ} :
    {A : Type ℓ} (p : A → Bool) (xs : List A) (i : ℕ) (x : A)
    → all_of p xs ≡ true
    → get_elem? xs i ≡ some x
    → p x ≡ true
unfolding all_of
all_of-get_elem? p [] i x a g = ground (arith, g)
all_of-get_elem? p (y ∷ ys) zero x a g = ground (arith, a, g)
all_of-get_elem? p (y ∷ ys) (suc i) x a g = all_of-get_elem? p ys i x (ground (arith, a)) g

get_elem?-code : (t : SqlValueType) → get_elem? value_types (code t) ≡ some t
get_elem?-code unknown_value_type = refl
get_elem?-code _ = refl

-- True for every type.
unfoldable pub every : (SqlValueType → Bool) → Bool
unfolding all_of
every p = all_of p value_types

-- A test that is true for every type is true for this one.
pub every-apply : (p : SqlValueType → Bool) (t : SqlValueType) → every p ≡ true → p t ≡ true
unfolding every
every-apply p t h = all_of-get_elem? p value_types (code t) t h (get_elem?-code t)

pub same_eq : (a b : SqlValueType) → same a b ≡ true → a ≡ b
same_eq a b h =
    let e : code a ≡ code b = (==_iff (code a) (code b)).0 h in
    let f : some a ≡ some b =
      sym (get_elem?-code a) ∙ (ap (get_elem? value_types) e ∙ get_elem?-code b) in
    ground (arith, f)

-- A test that is true for every pair of types is true for this one.
pub every-every-apply :
    (p : SqlValueType → SqlValueType → Bool) (t u : SqlValueType)
    → every (λ a. every (p a)) ≡ true
    → p t u ≡ true
every-every-apply p t u h = every-apply (p t) u (every-apply (λ a. every (p a)) t h)

unfoldable pub same_option : Option SqlValueType → Option SqlValueType → Bool
same_option none none = true
same_option (some t) (some u) = same t u
same_option _ _ = false

pub same_option_eq : (a b : Option SqlValueType) → same_option a b ≡ true → a ≡ b
unfolding same_option
same_option_eq none none h = refl
same_option_eq (some t) (some u) h = ap some (same_eq t u h)
same_option_eq none (some u) h = ground (arith, h)
same_option_eq (some t) none h = ground (arith, h)
