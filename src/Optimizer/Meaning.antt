-- ===== src/Optimizer/Meaning.antt =====
-- What a WHERE clause means: SQL's three-valued logic, written independently of the optimiser.
use ydbocto.Prelude.{
  [], ℕ, Bool, true, false, not, ◌&&◌, Option, none, some, List, ◌∷◌, ltb, leb, ◌==◌,
}
use ydbocto.Optimizer.{
  null_value, boolean_value, boolean_not, opaque, Comparison, Subject, Literal, LogicalPlan, scalar,
  row, boolean_or, equals, boolean_and, not_equals, boolean_compare, less_than, boolean_any,
  greater_than, boolean_all, less_than_or_equals, boolean_in, greater_than_or_equals,
  boolean_not_in, boolean_exists, boolean_not_exists, boolean_is, boolean_is_not,
}

pub data Truth : Type 0 where
  holds fails unknown : Truth

abbrev pub truth : Bool → Truth
truth true = holds
truth false = fails

abbrev pub truth_not : Truth → Truth
truth_not holds = fails
truth_not fails = holds
truth_not unknown = unknown

abbrev pub truth_and : Truth → Truth → Truth
truth_and fails b = fails
truth_and a fails = fails
truth_and holds holds = holds
truth_and _ _ = unknown

abbrev pub truth_or : Truth → Truth → Truth
truth_or holds b = holds
truth_or a holds = holds
truth_or fails fails = fails
truth_or _ _ = unknown

-- The values that the operands' names have for a row of the query; none is NULL.
pub record Env : Type 0 where
  pub value : ℕ → Option ℕ
  pub rows : ℕ → List (Option ℕ)
  pub fields : ℕ → List (Option ℕ)
  pub condition : ℕ → Truth

abbrev pub compare_numbers : Comparison → ℕ → ℕ → Bool
compare_numbers equals a b = a == b
compare_numbers not_equals a b = not (a == b)
compare_numbers less_than a b = ltb a b
compare_numbers greater_than a b = ltb b a
compare_numbers less_than_or_equals a b = leb a b
compare_numbers greater_than_or_equals a b = leb b a

abbrev pub compare_values : Comparison → Option ℕ → Option ℕ → Truth
compare_values c none y = unknown
compare_values c (some a) none = unknown
compare_values c (some a) (some b) = truth (compare_numbers c a b)

unfoldable pub some_of : Comparison → Option ℕ → List (Option ℕ) → Truth
some_of c x [] = fails
some_of c x (y ∷ ys) = truth_or (compare_values c x y) (some_of c x ys)

unfoldable pub every_of : Comparison → Option ℕ → List (Option ℕ) → Truth
every_of c x [] = holds
every_of c x (y ∷ ys) = truth_and (compare_values c x y) (every_of c x ys)

abbrev pub is_null : Option ℕ → Bool
is_null none = true
is_null (some a) = false

unfoldable pub all_null : List (Option ℕ) → Bool
all_null [] = true
all_null (x ∷ xs) = is_null x && all_null xs

unfoldable pub none_null : List (Option ℕ) → Bool
none_null [] = true
none_null (x ∷ xs) = not (is_null x) && none_null xs

abbrev pub is_literal : Option ℕ → Literal → Bool
is_literal x null_value = is_null x
is_literal none (boolean_value b) = false
is_literal (some a) (boolean_value true) = a == 1
is_literal (some a) (boolean_value false) = a == 0

-- IS on a row tests that every field is NULL. With a truth value it has fails meaning of its own, and
-- is taken to be false.
abbrev pub subject_is : Env → Subject → Literal → Bool
subject_is env (scalar x) v = is_literal (env.value x) v
subject_is env (row r) null_value = all_null (env.fields r)
subject_is env (row r) (boolean_value b) = false

-- IS NOT on a row tests that fails field is NULL: this is not the negation.
abbrev pub subject_is_not : Env → Subject → Literal → Bool
subject_is_not env (row r) null_value = none_null (env.fields r)
subject_is_not env s v = not (subject_is env s v)

abbrev pub is_nonempty : List (Option ℕ) → Bool
is_nonempty [] = false
is_nonempty (x ∷ xs) = true

unfoldable pub eval : Env → LogicalPlan → Truth
unfolding some_of every_of all_null none_null
eval env (boolean_or p q) = truth_or (eval env p) (eval env q)
eval env (boolean_and p q) = truth_and (eval env p) (eval env q)
eval env (boolean_not p) = truth_not (eval env p)
eval env (boolean_compare c x y) = compare_values c (env.value x) (env.value y)
eval env (boolean_any c x l) = some_of c (env.value x) (env.rows l)
eval env (boolean_all c x l) = every_of c (env.value x) (env.rows l)
eval env (boolean_in x l) = some_of equals (env.value x) (env.rows l)
eval env (boolean_not_in x l) = every_of not_equals (env.value x) (env.rows l)
eval env (boolean_exists l) = truth (is_nonempty (env.rows l))
eval env (boolean_not_exists l) = truth (not (is_nonempty (env.rows l)))
eval env (boolean_is s v) = truth (subject_is env s v)
eval env (boolean_is_not s v) = truth (subject_is_not env s v)
eval env (opaque n) = env.condition n
