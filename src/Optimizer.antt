-- ===== src/Optimizer.antt =====
-- The WHERE clause in the optimiser, src/optimization_transforms/lp_make_normal_disjunctive_form.c: negations are
-- pushed to the comparisons, and a conjunction of disjunctions becomes a disjunction of conjunctions.
pub mod Meaning
pub mod Negation
pub mod Shapes
pub mod Normal
pub mod Pitfalls
pub mod Joins
use ydbocto.Prelude.{
  [], ℕ, zero, suc, Bool, true, false, not, Option, none, some, List, ◌∷◌, ◌++◌, if◌then◌else◌,
}

-- The comparisons behind LP_BOOLEAN_EQUALS and the like, and their ANY and ALL forms.
pub data Comparison : Type 0 where
  equals not_equals less_than greater_than less_than_or_equals greater_than_or_equals : Comparison

-- The left operand of IS and IS NOT: a scalar, or `t1.*`, the row of a table.
pub data Subject : Type 0 where
  scalar row : ℕ → Subject

-- Their right operand, a literal: NULL, or a truth value.
pub data Literal : Type 0 where
  null_value : Literal
  boolean_value : Bool → Literal

-- `LogicalPlan` of a WHERE clause, by `LPActionType`. Operands below the comparisons are names of
-- values. `opaque` is what a negation cannot be pushed into: regular expressions, LP_COERCE_TYPE, and
-- every type below LP_ADDITION (columns, values, function calls).
pub data LogicalPlan : Type 0 where
  boolean_or boolean_and : LogicalPlan → LogicalPlan → LogicalPlan
  boolean_not : LogicalPlan → LogicalPlan
  boolean_compare boolean_any boolean_all : Comparison → ℕ → ℕ → LogicalPlan
  boolean_in boolean_not_in : ℕ → ℕ → LogicalPlan
  boolean_exists boolean_not_exists : ℕ → LogicalPlan
  boolean_is boolean_is_not : Subject → Literal → LogicalPlan
  opaque : ℕ → LogicalPlan

-- `count % 2` for a `count` that is one more.
abbrev pub opposite : Comparison → Comparison
opposite equals = not_equals
opposite not_equals = equals
opposite less_than = greater_than_or_equals
opposite greater_than = less_than_or_equals
opposite less_than_or_equals = greater_than
opposite greater_than_or_equals = less_than

-- The parity of `count` stands for it. With an odd count an opaque plan fails an `assert`; a build
-- without assertions returns it as it is.
pub lp_apply_not : Bool → LogicalPlan → LogicalPlan
lp_apply_not odd (boolean_not (boolean_is (row r) null_value)) =
    if odd then boolean_is (row r) null_value else boolean_not (boolean_is (row r) null_value)
lp_apply_not odd (boolean_not (boolean_is_not (row r) null_value)) =
    if odd
    then boolean_is_not (row r) null_value
    else boolean_not (boolean_is_not (row r) null_value)
lp_apply_not odd (boolean_not (opaque n)) = if odd then opaque n else boolean_not (opaque n)
lp_apply_not odd (boolean_not p) = lp_apply_not (not odd) p
lp_apply_not false p = p
lp_apply_not true (boolean_or p q) = boolean_and (lp_apply_not true p) (lp_apply_not true q)
lp_apply_not true (boolean_and p q) = boolean_or (lp_apply_not true p) (lp_apply_not true q)
lp_apply_not true (boolean_compare c x y) = boolean_compare (opposite c) x y
lp_apply_not true (boolean_any c x l) = boolean_all (opposite c) x l
lp_apply_not true (boolean_all c x l) = boolean_any (opposite c) x l
lp_apply_not true (boolean_in x l) = boolean_not_in x l
lp_apply_not true (boolean_not_in x l) = boolean_in x l
lp_apply_not true (boolean_exists l) = boolean_not_exists l
lp_apply_not true (boolean_not_exists l) = boolean_exists l
lp_apply_not true (boolean_is s v) = boolean_is_not s v
lp_apply_not true (boolean_is_not s v) = boolean_is s v
lp_apply_not true (opaque n) = opaque n

-- The walk over the right operands of LP_BOOLEAN_OR: its clauses, the last of which is no
-- LP_BOOLEAN_OR.
pub first_clause : LogicalPlan → LogicalPlan
first_clause (boolean_or p q) = p
first_clause p = p

pub more_clauses : LogicalPlan → List LogicalPlan
unfolding first_clause
more_clauses (boolean_or p q) = first_clause q ∷ more_clauses q
more_clauses p = []

-- `l` against every `r`, and then every `l`: the new LP_BOOLEAN_AND plans in order.
pub and_each : LogicalPlan → List LogicalPlan → List LogicalPlan
and_each l [] = []
and_each l (r ∷ rs) = boolean_and l r ∷ and_each l rs

pub and_all : List LogicalPlan → List LogicalPlan → List LogicalPlan
unfolding and_each
and_all [] rs = []
and_all (l ∷ ls) rs = and_each l rs ++ and_all ls rs

-- The chain of LP_BOOLEAN_OR over them, with the last one promoted.
pub or_chain : LogicalPlan → List LogicalPlan → LogicalPlan
or_chain p [] = p
or_chain p (q ∷ qs) = boolean_or p (or_chain q qs)

pub distribute : LogicalPlan → LogicalPlan → LogicalPlan
unfolding first_clause more_clauses and_each and_all or_chain
distribute left right = or_chain (boolean_and (first_clause left) (first_clause right)) (
    and_each (first_clause left) (more_clauses right)
    ++ and_all (more_clauses left) (first_clause right ∷ more_clauses right))

-- On fuel; none where it runs out.
pub lp_make_normal_disjunctive_form : ℕ → LogicalPlan → Option LogicalPlan
unfolding lp_apply_not distribute
lp_make_normal_disjunctive_form zero root = none
lp_make_normal_disjunctive_form (suc fuel) root =
    elim (lp_apply_not false root) as (λ _. Option LogicalPlan) [
      | boolean_or p q ↦ elim (lp_make_normal_disjunctive_form fuel p) [
        | none ↦ none
        | some left ↦ elim (lp_make_normal_disjunctive_form fuel q) [
          | none ↦ none
          | some right ↦ some (boolean_or left right)
        ]
      ]
      | boolean_and p q ↦ elim (lp_make_normal_disjunctive_form fuel p) [
        | none ↦ none
        | some left ↦ elim (lp_make_normal_disjunctive_form fuel q) [
          | none ↦ none
          | some right ↦ some (distribute left right)
        ]
      ]
      | p ↦ some p
    ]
