-- ===== src/Optimizer/Pitfalls.antt =====
-- Clauses whose meaning changes when their negations are pushed.
use ydbocto.Optimizer.{
  row, null_value, boolean_not, opaque, LogicalPlan, lp_apply_not, boolean_and, boolean_is,
}
use ydbocto.Optimizer.Meaning.{fails, holds, Env, all_null, none_null, eval}
use ydbocto.Prelude.{ℕ, ◌≡◌, true, false, arith}
use ydbocto.Optimizer.Negation.{Pushable, eval-lp_apply_not}

-- The negation of a conjunction whose first part is a row's test for NULL becomes the wrong test when the
-- row is neither NULL in every field nor in none, and the rest of the conjunction holds and can be negated: a
-- clause that holds turns into one that fails.
lp_apply_not-row :
    (env : Env) (r : ℕ) (b : LogicalPlan)
    → all_null (env.fields r) ≡ false
    → none_null (env.fields r) ≡ false
    → Pushable true b
    → eval env b ≡ holds
    → let p = boolean_not (boolean_and (boolean_is (row r) null_value) b) in
      (eval env p ≡ holds) × (eval env (lp_apply_not false p) ≡ fails)
unfolding eval lp_apply_not
lp_apply_not-row env r b x y h e =
    let m = eval-lp_apply_not env true b h in (ground (arith, x, e), ground (arith, y, m, e))

-- The negation of a conjunction whose first part is opaque, and fails, leaves that part as it is, where
-- assertions are off: a clause that holds turns into one that fails.
lp_apply_not-opaque :
    (env : Env) (n : ℕ) (b : LogicalPlan)
    → env.condition n ≡ fails
    → Pushable true b
    → eval env b ≡ holds
    → let p = boolean_not (boolean_and (opaque n) b) in
      (eval env p ≡ holds) × (eval env (lp_apply_not false p) ≡ fails)
unfolding eval lp_apply_not
lp_apply_not-opaque env n b x h e =
    let m = eval-lp_apply_not env true b h in (ground (arith, x, e), ground (arith, x, m, e))
