-- ===== src/Optimizer/Normal.antt =====
-- The normal form has the meaning of the clause, and is always found.
use ydbocto.Optimizer.{
  row, null_value, boolean_not, opaque, LogicalPlan, lp_apply_not, boolean_or, boolean_and,
  boolean_is, boolean_is_not, first_clause, more_clauses, and_each, and_all, or_chain, distribute,
  lp_make_normal_disjunctive_form,
}
use ydbocto.Prelude.{
  [], ℕ, ◌+◌, ◌≤◌, refl, Bool, true, false, not, List, ◌∷◌, arith, ◌≡◌, sym, ap, ◌∙◌, some, ◌++◌,
  zero, suc, ◌<◌,
}
use ydbocto.Optimizer.Meaning.{Truth, truth_or, Env, eval, truth_and, fails}
use ydbocto.Optimizer.Negation.{Pushable, eval-lp_apply_not}
use ydbocto.Optimizer.Shapes.{
  is_conjunction, is_normal, is_free, leans_right, is_free-lp_apply_not, leans_right-lp_apply_not,
  is_normal-distribute, is_conjunction-distribute, is_settled, is_settled-lp_apply_not,
}

unfoldable pub size : LogicalPlan → ℕ
size (boolean_or p q) = 1 + size p + size q
size (boolean_and p q) = 1 + size p + size q
size (boolean_not p) = 1 + size p
size _ = 1

size-lp_apply_not : (odd : Bool) (p : LogicalPlan) → size (lp_apply_not odd p) ≤ size p
unfolding size lp_apply_not
size-lp_apply_not odd (boolean_not (boolean_is (row r) null_value)) = ground arith
size-lp_apply_not odd (boolean_not (boolean_is_not (row r) null_value)) = ground arith
size-lp_apply_not odd (boolean_not (opaque n)) = ground arith
size-lp_apply_not odd (boolean_not p) = omega (arith, size-lp_apply_not (not odd) p)
size-lp_apply_not false p = omega arith
size-lp_apply_not true (boolean_or p q) =
    omega (arith, size-lp_apply_not true p, size-lp_apply_not true q)
size-lp_apply_not true (boolean_and p q) =
    omega (arith, size-lp_apply_not true p, size-lp_apply_not true q)
size-lp_apply_not true _ = omega arith

Pushable-lp_apply_not :
    (odd : Bool) (p : LogicalPlan) → Pushable odd p → Pushable false (lp_apply_not odd p)
unfolding lp_apply_not
Pushable-lp_apply_not true (boolean_not (boolean_is (row r) null_value)) h = refl
Pushable-lp_apply_not false (boolean_not (boolean_is (row r) null_value)) h = tt
Pushable-lp_apply_not true (boolean_not (boolean_is_not (row r) null_value)) h = refl
Pushable-lp_apply_not false (boolean_not (boolean_is_not (row r) null_value)) h = tt
Pushable-lp_apply_not true (boolean_not (opaque n)) h = refl
Pushable-lp_apply_not false (boolean_not (opaque n)) h = tt
Pushable-lp_apply_not odd (boolean_not p) h = Pushable-lp_apply_not (not odd) p h
Pushable-lp_apply_not false p h = h
Pushable-lp_apply_not true (boolean_or p q) h =
    (Pushable-lp_apply_not true p h.0, Pushable-lp_apply_not true q h.1)
Pushable-lp_apply_not true (boolean_and p q) h =
    (Pushable-lp_apply_not true p h.0, Pushable-lp_apply_not true q h.1)
Pushable-lp_apply_not true (boolean_is (row r) null_value) h = absurd (ground arith)
Pushable-lp_apply_not true (boolean_is_not (row r) null_value) h = absurd (ground arith)
Pushable-lp_apply_not true (opaque n) h = absurd (ground arith)
Pushable-lp_apply_not true _ h = tt

-- The disjunction of a list of clauses.
pub any_clause : Env → List LogicalPlan → Truth
any_clause env [] = fails
any_clause env (p ∷ ps) = truth_or (eval env p) (any_clause env ps)

truth_or-fails : (a : Truth) → truth_or a fails ≡ a
truth_or-fails a = ground arith

fails-truth_or : (a : Truth) → truth_or fails a ≡ a
fails-truth_or a = ground arith

truth_and-fails : (a : Truth) → truth_and a fails ≡ fails
truth_and-fails a = ground arith

truth_or_assoc : (a b c : Truth) → truth_or (truth_or a b) c ≡ truth_or a (truth_or b c)
truth_or_assoc a b c = ground arith

truth_and-truth_or :
    (a b c : Truth) → truth_and a (truth_or b c) ≡ truth_or (truth_and a b) (truth_and a c)
truth_and-truth_or a b c = ground arith

truth_or-truth_and :
    (a b c : Truth) → truth_and (truth_or a b) c ≡ truth_or (truth_and a c) (truth_and b c)
truth_or-truth_and a b c = ground arith

eval-or_chain :
    (env : Env) (p : LogicalPlan) (qs : List LogicalPlan)
    → eval env (or_chain p qs) ≡ any_clause env (p ∷ qs)
unfolding eval or_chain any_clause
eval-or_chain env p [] = sym (truth_or-fails (eval env p))
eval-or_chain env p (q ∷ qs) = ap (truth_or (eval env p)) (eval-or_chain env q qs)

any_clause-more_clauses :
    (env : Env) (p : LogicalPlan) → any_clause env (first_clause p ∷ more_clauses p) ≡ eval env p
unfolding eval any_clause first_clause more_clauses
any_clause-more_clauses env (boolean_or p q) =
    ap (truth_or (eval env p)) (any_clause-more_clauses env q)
any_clause-more_clauses env p = truth_or-fails (eval env p)

any_clause-append :
    (env : Env) (ps qs : List LogicalPlan)
    → any_clause env (ps ++ qs) ≡ truth_or (any_clause env ps) (any_clause env qs)
unfolding any_clause
any_clause-append env [] qs = sym (fails-truth_or (any_clause env qs))
any_clause-append env (p ∷ ps) qs =
    rw (any_clause-append env ps qs)
      (sym (truth_or_assoc (eval env p) (any_clause env ps) (any_clause env qs)))

any_clause-and_each :
    (env : Env) (l : LogicalPlan) (rs : List LogicalPlan)
    → any_clause env (and_each l rs) ≡ truth_and (eval env l) (any_clause env rs)
unfolding any_clause and_each eval
any_clause-and_each env l [] = sym (truth_and-fails (eval env l))
any_clause-and_each env l (r ∷ rs) =
    rw (any_clause-and_each env l rs)
      (sym (truth_and-truth_or (eval env l) (eval env r) (any_clause env rs)))

any_clause-and_all :
    (env : Env) (ls rs : List LogicalPlan)
    → any_clause env (and_all ls rs) ≡ truth_and (any_clause env ls) (any_clause env rs)
unfolding any_clause and_all
any_clause-and_all env [] rs = refl
any_clause-and_all env (l ∷ ls) rs =
    rw
      (
        any_clause-append env (and_each l rs) (and_all ls rs),
        any_clause-and_each env l rs,
        any_clause-and_all env ls rs,
      )
      (sym (truth_or-truth_and (eval env l) (any_clause env ls) (any_clause env rs)))

same_pairs :
    (env : Env) (left right : LogicalPlan)
    → any_clause env (
        boolean_and (first_clause left) (first_clause right)
          ∷ and_each (first_clause left) (more_clauses right)
        ++ and_all (more_clauses left) (first_clause right ∷ more_clauses right))
      ≡ any_clause env (
          and_all (first_clause left ∷ more_clauses left) (first_clause right ∷ more_clauses right))
unfolding and_all and_each
same_pairs env left right = refl

eval-distribute :
    (env : Env) (left right : LogicalPlan)
    → eval env (distribute left right) ≡ truth_and (eval env left) (eval env right)
unfolding distribute
eval-distribute env left right =
    let ls = first_clause left ∷ more_clauses left in
    let rs = first_clause right ∷ more_clauses right in
    let all = any_clause-and_all env ls rs in
    eval-or_chain env (boolean_and (first_clause left) (first_clause right))
      (and_each (first_clause left) (more_clauses right) ++ and_all (more_clauses left) rs)
    ∙ same_pairs env left right
    ∙ all
    ∙ rw (any_clause-more_clauses env left, any_clause-more_clauses env right)

-- A plan with the meaning of the clause, and its shape.
abbrev Found : Env → ℕ → LogicalPlan → Type 0
Found env fuel p =
    (q : LogicalPlan) × (lp_make_normal_disjunctive_form fuel p ≡ some q)
    × (eval env q ≡ eval env p)
    × (is_normal q ≡ leans_right false p)
    × (is_conjunction q ≡ is_free false p)

-- A round, for what is behind the negations of `p`.
Found-suc :
    (env : Env) (fuel : ℕ) (p r : LogicalPlan)
    → ((t : LogicalPlan) → Pushable false t → size t ≤ fuel → Found env fuel t)
    → lp_apply_not false p ≡ r
    → Pushable false r
    → size r ≤ suc fuel
    → eval env r ≡ eval env p
    → leans_right false r ≡ leans_right false p
    → is_free false r ≡ is_free false p
    → is_settled r ≡ true
    → Found env (suc fuel) p
unfolding lp_make_normal_disjunctive_form eval size leans_right is_free is_normal is_conjunction
    is_settled
Found-suc env fuel p (boolean_or a b) ih e h l m s f k =
    let (x, ex, mx, nx, cx) = ih a h.0 (omega arith) in
    let (y, ey, my, ny, cy) = ih b h.1 (omega arith) in
    (boolean_or x y, ground (arith, e, ex, ey), rw (mx, my) m, rw (cx, ny) s, f)
Found-suc env fuel p (boolean_and a b) ih e h l m s f k =
    let (x, ex, mx, nx, cx) = ih a h.0 (omega arith) in
    let (y, ey, my, ny, cy) = ih b h.1 (omega arith) in
    (
      distribute x y,
      ground (arith, e, ex, ey),
      eval-distribute env x y ∙ rw (mx, my) m,
      is_normal-distribute x y ∙ rw (nx, ny) s,
      is_conjunction-distribute x y ∙ rw (cx, cy) f,
    )
Found-suc env fuel p (boolean_not a) ih e h l m s f k =
    (boolean_not a, ground (arith, e), m, ground (arith, s, k), ground (arith, f, k))
Found-suc env fuel p r ih e h l m s f k = (r, ground (arith, e), m, s, f)

size_pos : (p : LogicalPlan) → 0 < size p
unfolding size
size_pos (boolean_or p q) = omega arith
size_pos (boolean_and p q) = omega arith
size_pos _ = omega arith

Found-size :
    (env : Env) (fuel : ℕ) (p : LogicalPlan) → Pushable false p → size p ≤ fuel → Found env fuel p
Found-size env zero p h l = absurd (omega (arith, size_pos p))
Found-size env (suc fuel) p h l =
    Found-suc env fuel p (lp_apply_not false p) (λ t a b. Found-size env fuel t a b) refl
      (Pushable-lp_apply_not false p h) (omega (arith, size-lp_apply_not false p))
      (eval-lp_apply_not env false p h) (leans_right-lp_apply_not false p)
      (is_free-lp_apply_not false p) (is_settled-lp_apply_not false p)

-- With fuel for the clause's size a plan is found that has the clause's meaning for every row, unless an opaque
-- condition or a test of a row for NULL is under an odd number of negations that does not stand directly on it. The
-- plan is in disjunctive normal form, its disjunctions on the right of each other and conjunctions on their left,
-- exactly if in the clause, with its negations pushed down, no disjunction is on the left of another one.
pub eval-lp_make_normal_disjunctive_form :
    (env : Env) (fuel : ℕ) (p : LogicalPlan)
    → Pushable false p
    → size p ≤ fuel
    → (q : LogicalPlan) × (lp_make_normal_disjunctive_form fuel p ≡ some q)
      × (eval env q ≡ eval env p)
      × (is_normal q ≡ leans_right false p)
eval-lp_make_normal_disjunctive_form env fuel p h l =
    let (q, e, m, n, _) = Found-size env fuel p h l in (q, e, m, n)
