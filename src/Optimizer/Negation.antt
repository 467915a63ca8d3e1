-- ===== src/Optimizer/Negation.antt =====
-- Pushing negations keeps the meaning of a clause.
use ydbocto.Optimizer.{row, null_value, boolean_value}
use ydbocto.Optimizer.Meaning.{holds, fails, unknown}
use ydbocto.Prelude.{
  [], ℕ, ◌≡◌, refl, sym, Bool, true, false, not, Option, none, some, List, ◌∷◌, arith, ◌∙◌,
}
use ydbocto.Optimizer.{
  null_value, boolean_not, opaque, Comparison, LogicalPlan, opposite, lp_apply_not, boolean_is, row,
  boolean_is_not, boolean_or, boolean_and, boolean_value, boolean_compare, boolean_any, boolean_all,
  boolean_in, equals, boolean_not_in, not_equals,
}
use ydbocto.Optimizer.Meaning.{
  Truth, truth_not, truth_and, truth_or, Env, compare_values, some_of, every_of, eval,
}

-- The clauses without an opaque condition or a test of a row for NULL under an odd number of
-- negations, but for one that stands directly on it.
abbrev pub Pushable : Bool → LogicalPlan → Type 0
Pushable odd (boolean_not (boolean_is (row r) null_value)) = Unit
Pushable odd (boolean_not (boolean_is_not (row r) null_value)) = Unit
Pushable odd (boolean_not (opaque n)) = Unit
Pushable odd (boolean_not p) = Pushable (not odd) p
Pushable odd (boolean_or p q) = Pushable odd p × Pushable odd q
Pushable odd (boolean_and p q) = Pushable odd p × Pushable odd q
Pushable odd (boolean_is (row r) null_value) = odd ≡ false
Pushable odd (boolean_is_not (row r) null_value) = odd ≡ false
Pushable odd (opaque n) = odd ≡ false
Pushable odd _ = Unit

abbrev pub negated : Bool → Truth → Truth
negated true t = truth_not t
negated false t = t

truth_not-truth_or :
    (a b : Truth) → truth_not (truth_or a b) ≡ truth_and (truth_not a) (truth_not b)
truth_not-truth_or a b = ground arith

truth_not-truth_and :
    (a b : Truth) → truth_not (truth_and a b) ≡ truth_or (truth_not a) (truth_not b)
truth_not-truth_and a b = ground arith

compare_values-opposite :
    (c : Comparison) (x y : Option ℕ)
    → compare_values (opposite c) x y ≡ truth_not (compare_values c x y)
compare_values-opposite c none y = refl
compare_values-opposite c (some a) none = refl
compare_values-opposite c (some a) (some b) = ground arith

every_of-opposite :
    (c : Comparison) (x : Option ℕ) (ys : List (Option ℕ))
    → every_of (opposite c) x ys ≡ truth_not (some_of c x ys)
unfolding every_of some_of
every_of-opposite c x [] = refl
every_of-opposite c x (y ∷ ys) =
    rw (compare_values-opposite c x y, every_of-opposite c x ys)
      (sym (truth_not-truth_or (compare_values c x y) (some_of c x ys)))

some_of-opposite :
    (c : Comparison) (x : Option ℕ) (ys : List (Option ℕ))
    → some_of (opposite c) x ys ≡ truth_not (every_of c x ys)
unfolding every_of some_of
some_of-opposite c x [] = refl
some_of-opposite c x (y ∷ ys) =
    rw (compare_values-opposite c x y, some_of-opposite c x ys)
      (sym (truth_not-truth_and (compare_values c x y) (every_of c x ys)))

negated-not : (odd : Bool) (t : Truth) → negated (not odd) t ≡ negated odd (truth_not t)
negated-not true holds = refl
negated-not true fails = refl
negated-not true unknown = refl
negated-not false t = refl

-- `lp_apply_not` gives a clause the meaning of the clause, negated when the count is odd, unless an
-- opaque condition or a test of a row for NULL is under an odd number of negations.
pub eval-lp_apply_not :
    (env : Env) (odd : Bool) (p : LogicalPlan)
    → Pushable odd p
    → eval env (lp_apply_not odd p) ≡ negated odd (eval env p)
unfolding eval lp_apply_not
eval-lp_apply_not env true (boolean_not (boolean_is (row r) null_value)) h =
    negated-not true (eval env (boolean_is (row r) null_value))
eval-lp_apply_not env true (boolean_not (boolean_is_not (row r) null_value)) h =
    negated-not true (eval env (boolean_is_not (row r) null_value))
eval-lp_apply_not env true (boolean_not (opaque n)) h = negated-not true (env.condition n)
eval-lp_apply_not env false (boolean_not (boolean_is (row r) null_value)) h = refl
eval-lp_apply_not env false (boolean_not (boolean_is_not (row r) null_value)) h = refl
eval-lp_apply_not env false (boolean_not (opaque n)) h = refl
eval-lp_apply_not env odd (boolean_not p) h =
    eval-lp_apply_not env (not odd) p h ∙ negated-not odd (eval env p)
eval-lp_apply_not env false p h = refl
eval-lp_apply_not env true (boolean_or p q) h =
    rw (eval-lp_apply_not env true p h.0, eval-lp_apply_not env true q h.1)
      (sym (truth_not-truth_or (eval env p) (eval env q)))
eval-lp_apply_not env true (boolean_and p q) h =
    rw (eval-lp_apply_not env true p h.0, eval-lp_apply_not env true q h.1)
      (sym (truth_not-truth_and (eval env p) (eval env q)))
eval-lp_apply_not env true (boolean_compare c x y) h =
    compare_values-opposite c (env.value x) (env.value y)
eval-lp_apply_not env true (boolean_any c x r) h = every_of-opposite c (env.value x) (env.rows r)
eval-lp_apply_not env true (boolean_all c x r) h = some_of-opposite c (env.value x) (env.rows r)
eval-lp_apply_not env true (boolean_in x r) h = every_of-opposite equals (env.value x) (env.rows r)
eval-lp_apply_not env true (boolean_not_in x r) h =
    some_of-opposite not_equals (env.value x) (env.rows r)
eval-lp_apply_not env true (boolean_is (row r) null_value) h = absurd (ground arith)
eval-lp_apply_not env true (boolean_is_not (row r) null_value) h = absurd (ground arith)
eval-lp_apply_not env true (boolean_is (row r) (boolean_value b)) h = refl
eval-lp_apply_not env true (boolean_is_not (row r) (boolean_value b)) h = refl
eval-lp_apply_not env true (opaque n) h = absurd (ground arith)
eval-lp_apply_not env true _ h = ground arith
