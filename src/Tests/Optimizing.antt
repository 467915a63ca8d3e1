-- ===== src/Tests/Optimizing.antt =====
-- WHERE clauses for src/optimization_transforms/lp_make_normal_disjunctive_form.c.
use ydbocto.Optimizer.{
  equals, less_than, LogicalPlan, lp_apply_not, lp_make_normal_disjunctive_form, boolean_and,
  boolean_any, boolean_compare, boolean_not, boolean_or, opaque,
}
use ydbocto.Optimizer.Meaning.{fails, truth_not, Env, eval}
use ydbocto.Prelude.{ℕ, zero, suc, ◌≡◌, true, Option, none, some, [], ◌∷◌, arith, false}
use ydbocto.Optimizer.Negation.{eval-lp_apply_not}
use ydbocto.Optimizer.Normal.{eval-lp_make_normal_disjunctive_form, size}
use ydbocto.Optimizer.Shapes.{is_normal, leans_right}

-- Value 0 is NULL; row 0 has a field that is NULL and one that is not.
abbrev sample : Env
sample = record {
  value = values;
  rows = λ l. some 1 ∷ none ∷ [];
  fields = λ r. none ∷ some 4 ∷ [];
  condition = λ n. fails;
}
  where
    values : ℕ → Option ℕ
    values zero = none
    values (suc n) = some n

-- NOT (v1 < v2 AND v1 = ANY (...)) AND (v1 = v2 OR NOT f(...))
abbrev clause : LogicalPlan
clause =
    boolean_and (boolean_not (boolean_and (boolean_compare less_than 1 2) (boolean_any equals 1 0)))
      (boolean_or (boolean_compare equals 1 2) (boolean_not (opaque 5)))

eval-lp_apply_not_example :
    eval sample (lp_apply_not true (boolean_any equals 2 0))
    ≡ truth_not (eval sample (boolean_any equals 2 0))
eval-lp_apply_not_example = eval-lp_apply_not sample true (boolean_any equals 2 0) tt

eval-lp_make_normal_disjunctive_form_example :
    (q : LogicalPlan) × (lp_make_normal_disjunctive_form 9 clause ≡ some q)
    × (eval sample q ≡ eval sample clause)
    × (is_normal q ≡ leans_right false clause)
unfolding size
eval-lp_make_normal_disjunctive_form_example =
    eval-lp_make_normal_disjunctive_form sample 9 clause ((tt, tt), (tt, tt)) (ground arith)
