-- ===== src/Optimizer/Shapes.antt =====
-- The shape of a WHERE clause in disjunctive normal form, and of the clauses that come to it.
use ydbocto.Optimizer.{
  row, null_value, boolean_not, opaque, LogicalPlan, lp_apply_not, boolean_or, boolean_and,
  boolean_is, boolean_is_not, first_clause, more_clauses, and_each, and_all, or_chain, distribute,
}
use ydbocto.Prelude.{◌≡◌, refl, ◌∙◌, Bool, true, false, not, ◌&&◌, List, [], ◌∷◌, ◌++◌, arith}

-- No disjunction below conjunctions.
unfoldable pub is_conjunction : LogicalPlan → Bool
is_conjunction (boolean_or p q) = false
is_conjunction (boolean_and p q) = is_conjunction p && is_conjunction q
is_conjunction _ = true

-- The disjunctions are on the right, with a conjunction on the left of each.
unfoldable pub is_normal : LogicalPlan → Bool
unfolding is_conjunction
is_normal (boolean_or p q) = is_conjunction p && is_normal q
is_normal p = is_conjunction p

-- Under negations of that parity, no disjunction is left when they are pushed down.
unfoldable pub is_free : Bool → LogicalPlan → Bool
is_free odd (boolean_not p) = is_free (not odd) p
is_free odd (boolean_or p q) = odd && (is_free odd p && is_free odd q)
is_free odd (boolean_and p q) = not odd && (is_free odd p && is_free odd q)
is_free odd _ = true

-- Then every disjunction has no other one on its left.
unfoldable pub leans_right : Bool → LogicalPlan → Bool
unfolding is_free
leans_right odd (boolean_not p) = leans_right (not odd) p
leans_right false (boolean_or p q) = is_free false p && leans_right false q
leans_right true (boolean_or p q) = leans_right true p && leans_right true q
leans_right false (boolean_and p q) = leans_right false p && leans_right false q
leans_right true (boolean_and p q) = is_free true p && leans_right true q
leans_right odd _ = true

pub is_free-lp_apply_not :
    (odd : Bool) (p : LogicalPlan) → is_free false (lp_apply_not odd p) ≡ is_free odd p
unfolding is_free lp_apply_not
is_free-lp_apply_not odd (boolean_not (boolean_is (row r) null_value)) = ground arith
is_free-lp_apply_not odd (boolean_not (boolean_is_not (row r) null_value)) = ground arith
is_free-lp_apply_not odd (boolean_not (opaque n)) = ground arith
is_free-lp_apply_not odd (boolean_not p) = is_free-lp_apply_not (not odd) p
is_free-lp_apply_not false p = refl
is_free-lp_apply_not true (boolean_or p q) =
    rw (is_free-lp_apply_not true p, is_free-lp_apply_not true q) refl
is_free-lp_apply_not true (boolean_and p q) = refl
is_free-lp_apply_not true _ = refl

pub leans_right-lp_apply_not :
    (odd : Bool) (p : LogicalPlan) → leans_right false (lp_apply_not odd p) ≡ leans_right odd p
unfolding leans_right lp_apply_not
leans_right-lp_apply_not odd (boolean_not (boolean_is (row r) null_value)) = ground arith
leans_right-lp_apply_not odd (boolean_not (boolean_is_not (row r) null_value)) = ground arith
leans_right-lp_apply_not odd (boolean_not (opaque n)) = ground arith
leans_right-lp_apply_not odd (boolean_not p) = leans_right-lp_apply_not (not odd) p
leans_right-lp_apply_not false p = refl
leans_right-lp_apply_not true (boolean_or p q) =
    rw (leans_right-lp_apply_not true p, leans_right-lp_apply_not true q) refl
leans_right-lp_apply_not true (boolean_and p q) =
    rw (is_free-lp_apply_not true p, leans_right-lp_apply_not true q) refl
leans_right-lp_apply_not true _ = refl

all_conjunctions : List LogicalPlan → Bool
unfolding is_conjunction
all_conjunctions [] = true
all_conjunctions (p ∷ ps) = is_conjunction p && all_conjunctions ps

is_and : LogicalPlan → Bool
is_and (boolean_and p q) = true
is_and _ = false

all_ands : List LogicalPlan → Bool
unfolding is_and
all_ands [] = true
all_ands (p ∷ ps) = is_and p && all_ands ps

all_conjunctions-append :
    (ps qs : List LogicalPlan)
    → all_conjunctions (ps ++ qs) ≡ (all_conjunctions ps && all_conjunctions qs)
unfolding all_conjunctions
all_conjunctions-append [] qs = refl
all_conjunctions-append (p ∷ ps) qs = ground (arith, all_conjunctions-append ps qs)

all_ands-append :
    (ps qs : List LogicalPlan)
    → all_ands ps ≡ true
    → all_ands qs ≡ true
    → all_ands (ps ++ qs) ≡ true
unfolding all_ands
all_ands-append [] qs h k = k
all_ands-append (p ∷ ps) qs h k = ground (arith, h, all_ands-append ps qs (ground (arith, h)) k)

all_ands-and_each : (l : LogicalPlan) (rs : List LogicalPlan) → all_ands (and_each l rs) ≡ true
unfolding all_ands and_each
all_ands-and_each l [] = refl
all_ands-and_each l (r ∷ rs) = all_ands-and_each l rs

all_ands-and_all : (ls rs : List LogicalPlan) → all_ands (and_all ls rs) ≡ true
unfolding all_ands and_all
all_ands-and_all [] rs = refl
all_ands-and_all (l ∷ ls) rs =
    all_ands-append (and_each l rs) (and_all ls rs) (all_ands-and_each l rs)
      (all_ands-and_all ls rs)

all_conjunctions-and_each :
    (l r : LogicalPlan) (rs : List LogicalPlan)
    → all_conjunctions (and_each l (r ∷ rs)) ≡ (is_conjunction l && all_conjunctions (r ∷ rs))
unfolding all_conjunctions and_each
all_conjunctions-and_each l r [] = ground arith
all_conjunctions-and_each l r (s ∷ rs) = ground (arith, all_conjunctions-and_each l s rs)

all_conjunctions-and_all :
    (l : LogicalPlan) (ls : List LogicalPlan) (r : LogicalPlan) (rs : List LogicalPlan)
    → all_conjunctions (and_all (l ∷ ls) (r ∷ rs))
      ≡ (all_conjunctions (l ∷ ls) && all_conjunctions (r ∷ rs))
unfolding all_conjunctions and_all
all_conjunctions-and_all l [] r rs =
    let a = all_conjunctions-append (and_each l (r ∷ rs)) [] in
    let b = all_conjunctions-and_each l r rs in ground (arith, a, b)
all_conjunctions-and_all l (m ∷ ls) r rs =
    let a = all_conjunctions-append (and_each l (r ∷ rs)) (and_all (m ∷ ls) (r ∷ rs)) in
    let b = all_conjunctions-and_each l r rs in
    let c = all_conjunctions-and_all m ls r rs in ground (arith, a, b, c)

is_normal-is_and : (p : LogicalPlan) → is_and p ≡ true → is_normal p ≡ is_conjunction p
unfolding is_and is_normal
is_normal-is_and (boolean_and p q) h = refl
is_normal-is_and _ h = absurd (ground (arith, h))

is_normal-or_chain :
    (p : LogicalPlan) (qs : List LogicalPlan)
    → all_ands (p ∷ qs) ≡ true
    → is_normal (or_chain p qs) ≡ all_conjunctions (p ∷ qs)
unfolding all_ands all_conjunctions or_chain is_normal
is_normal-or_chain p [] h = ground (arith, is_normal-is_and p (ground (arith, h)))
is_normal-or_chain p (q ∷ qs) h = ground (arith, is_normal-or_chain q qs (ground (arith, h)))

-- The clauses of a normal form are conjunctions.
all_conjunctions-more_clauses :
    (p : LogicalPlan) → all_conjunctions (first_clause p ∷ more_clauses p) ≡ is_normal p
unfolding all_conjunctions first_clause more_clauses is_normal
all_conjunctions-more_clauses (boolean_or p q) = ground (arith, all_conjunctions-more_clauses q)
all_conjunctions-more_clauses p = ground arith

-- A conjunction is distributed into a normal form exactly if both its operands are in normal form.
pub is_normal-distribute :
    (left right : LogicalPlan)
    → is_normal (distribute left right) ≡ (is_normal left && is_normal right)
unfolding distribute and_all and_each all_ands
is_normal-distribute left right =
    let ls = first_clause left ∷ more_clauses left in
    let rs = first_clause right ∷ more_clauses right in
    is_normal-or_chain (boolean_and (first_clause left) (first_clause right))
      (and_each (first_clause left) (more_clauses right) ++ and_all (more_clauses left) rs)
      (all_ands-and_all ls rs)
    ∙ all_conjunctions-and_all (first_clause left) (more_clauses left) (first_clause right)
        (more_clauses right)
    ∙ rw (all_conjunctions-more_clauses left, all_conjunctions-more_clauses right) refl

is_conjunction-chain :
    (p q : LogicalPlan) (ps qs : List LogicalPlan)
    → is_conjunction (or_chain p (ps ++ (q ∷ qs))) ≡ false
unfolding or_chain is_conjunction
is_conjunction-chain p q [] qs = refl
is_conjunction-chain p q (r ∷ ps) qs = refl

-- It stays a conjunction exactly if both are.
pub is_conjunction-distribute :
    (left right : LogicalPlan)
    → is_conjunction (distribute left right) ≡ (is_conjunction left && is_conjunction right)
unfolding distribute first_clause more_clauses and_each and_all or_chain is_conjunction
is_conjunction-distribute (boolean_or a b) right =
    is_conjunction-chain (boolean_and a (first_clause right))
      (boolean_and (first_clause b) (first_clause right)) (and_each a (more_clauses right))
      (and_each (first_clause b) (more_clauses right)
        ++ and_all (more_clauses b) (first_clause right ∷ more_clauses right))
is_conjunction-distribute left (boolean_or c d) = ground arith
is_conjunction-distribute left right = refl

-- A negation that is left stands on no disjunction and no conjunction.
unfoldable pub is_settled : LogicalPlan → Bool
unfolding leans_right is_free
is_settled (boolean_not p) = leans_right true p && is_free true p
is_settled _ = true

pub is_settled-lp_apply_not :
    (odd : Bool) (p : LogicalPlan) → is_settled (lp_apply_not odd p) ≡ true
unfolding is_settled leans_right is_free lp_apply_not
is_settled-lp_apply_not true (boolean_not (boolean_is (row r) null_value)) = refl
is_settled-lp_apply_not false (boolean_not (boolean_is (row r) null_value)) = refl
is_settled-lp_apply_not true (boolean_not (boolean_is_not (row r) null_value)) = refl
is_settled-lp_apply_not false (boolean_not (boolean_is_not (row r) null_value)) = refl
is_settled-lp_apply_not true (boolean_not (opaque n)) = refl
is_settled-lp_apply_not false (boolean_not (opaque n)) = refl
is_settled-lp_apply_not odd (boolean_not p) = is_settled-lp_apply_not (not odd) p
is_settled-lp_apply_not false p = refl
is_settled-lp_apply_not true _ = refl
