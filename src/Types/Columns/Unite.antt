-- ===== src/Types/Columns/Unite.antt =====
-- Which columns the two operands of a set operation may have.
use ydbocto.Types.{
  SqlValueType, integer_literal, numeric_literal, string_literal, is_nul_value, is_boolean_type,
  is_string_type, is_time, is_date_time_type, same,
}
use ydbocto.Types.Columns.{
  matched, mismatched, fatal, Columns, Walk, Column, has_date_part, column_check, columns_loop,
  is_empty, walked, check_column_lists_for_type_match,
}
use ydbocto.Prelude.{
  ◌≡◌, refl, Bool, true, false, not, ◌&&◌, ◌||◌, Option, none, some, List, [], ◌∷◌, arith,
  if◌then◌else◌, inl, inr, Bool-cases, Option-cases,
}
use ydbocto.Types.Finite.{all_of, every, every-every-apply}

abbrev pub is_numeric : SqlValueType → Bool
is_numeric t = same integer_literal t || same numeric_literal t

-- A number, a truth value, a string, a date or a time.
abbrev pub is_value : SqlValueType → Bool
is_value t = is_numeric t || is_boolean_type t || is_string_type t || is_date_time_type t

-- Two columns go together when the left one is NULL, or the right one is and the left one is a value, both are numbers, truth values or strings, both have a date, both are
-- times, or one is a string and the other a date or a time.
unfoldable pub can_unite : SqlValueType → SqlValueType → Bool
can_unite l r =
    is_nul_value l
    || is_nul_value r && is_value l
    || is_numeric l && is_numeric r
    || is_boolean_type l && is_boolean_type r
    || is_string_type l && is_string_type r
    || has_date_part l && has_date_part r
    || is_time l && is_time r
    || same string_literal l && is_date_time_type r
    || is_date_time_type l && same string_literal r

-- A date or a time on the left, with NULL or a string on the right, which the code rejects although it takes them the
-- other way round.
unfoldable pub is_one_way : SqlValueType → SqlValueType → Bool
is_one_way l r = is_date_time_type l && (is_nul_value r || same string_literal r)

unfoldable pub has_one_way : List SqlValueType → List SqlValueType → Bool
unfolding is_one_way
has_one_way [] rs = false
has_one_way (l ∷ ls) [] = false
has_one_way (l ∷ ls) (r ∷ rs) = is_one_way l r || has_one_way ls rs

-- The lists have as many columns, and each goes with its partner.
unfoldable pub can_unite_all : List SqlValueType → List SqlValueType → Bool
can_unite_all [] [] = true
can_unite_all (l ∷ ls) (r ∷ rs) = can_unite l r && can_unite_all ls rs
can_unite_all [] (r ∷ rs) = false
can_unite_all (l ∷ ls) [] = false

abbrev pub is_matched : Columns → Bool
is_matched (matched w) = true
is_matched (mismatched e) = false
is_matched fatal = false

column_test : SqlValueType → SqlValueType → Bool
unfolding can_unite column_check is_one_way
column_test l r = is_one_way l r || elim (column_check true l r) [
  | none ↦ not (can_unite l r)
  | some c ↦ if c.mismatch then not (can_unite l r) else can_unite l r
]

column_tests : every (λ l. every (λ r. column_test l r)) ≡ true
unfolding every all_of column_test can_unite column_check is_one_way
column_tests = refl

column_test-none :
    (l r : SqlValueType)
    → is_one_way l r ≡ false
    → column_check true l r ≡ none
    → column_test l r ≡ true
    → can_unite l r ≡ false
unfolding column_test
column_test-none l r n e t = ground (arith, n, e, t)

column_test-some :
    (l r : SqlValueType) (c : Column)
    → is_one_way l r ≡ false
    → column_check true l r ≡ some c
    → column_test l r ≡ true
    → can_unite l r ≡ not c.mismatch
unfolding column_test
column_test-some l r c n e t = ground (arith, n, e, t)

-- What the loop comes to, where it is good: no mismatch, and no column over.
is_good : Option Walk → Bool
is_good none = false
is_good (some w) = not w.mismatch && is_empty w.left_rest && is_empty w.right_rest

columns_loop-bad : (ls rs : List SqlValueType) → is_good (columns_loop true true ls rs) ≡ false
unfolding is_good columns_loop
columns_loop-bad [] rs = refl
columns_loop-bad (l ∷ ls) [] = refl
columns_loop-bad (l ∷ ls) (r ∷ rs) = let h = columns_loop-bad ls rs in ground (arith, h)

columns_loop-can_unite_all :
    (ls rs : List SqlValueType)
    → has_one_way ls rs ≡ false
    → is_good (columns_loop true false ls rs) ≡ can_unite_all ls rs
unfolding is_good columns_loop can_unite_all has_one_way
columns_loop-can_unite_all [] [] n = refl
columns_loop-can_unite_all [] (r ∷ rs) n = refl
columns_loop-can_unite_all (l ∷ ls) [] n = refl
columns_loop-can_unite_all (l ∷ ls) (r ∷ rs) n =
    let t : column_test l r ≡ true = every-every-apply column_test l r column_tests in
    let o : is_one_way l r ≡ false = ground (arith, n) in
    let h = columns_loop-can_unite_all ls rs (ground (arith, n)) in
    let b = columns_loop-bad ls rs in
    elim (Option-cases (column_check true l r)) [
      | inl e ↦ let u = column_test-none l r o e t in ground (arith, e, u)
      | inr (c, e) ↦ elim (Bool-cases c.mismatch) [
        | inl m ↦ let u = column_test-some l r c o e t in ground (arith, e, m, u, b)
        | inr m ↦ let u = column_test-some l r c o e t in ground (arith, e, m, u, h)
      ]
    ]

-- Where no date or time on the left stands beside NULL or a string on the right, which the code rejects, the operands of
-- a set operation pass exactly when they have columns, the same number of them, and each column of the one goes with
-- its partner.
pub check_column_lists_for_type_match-can_unite_all :
    (b : Bool) (ls rs : List SqlValueType)
    → has_one_way ls rs ≡ false
    → is_matched (check_column_lists_for_type_match true b ls rs)
      ≡ (not (is_empty ls || is_empty rs) && can_unite_all ls rs)
unfolding check_column_lists_for_type_match walked is_good
check_column_lists_for_type_match-can_unite_all b ls rs n =
    let h = columns_loop-can_unite_all ls rs n in
    elim (Option-cases (columns_loop true false ls rs)) [
      | inl e ↦ ground (arith, e, h)
      | inr (w, e) ↦ ground (arith, e, h)
    ]
