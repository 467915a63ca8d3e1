-- ===== src/Names/Clauses.antt =====
-- Whole names, the clauses that also look at the SELECT list, and a column that is taken for ambiguous.
use ydbocto.Names.{
  column, select_column, ambiguous_column_name, unknown_column_name, nothing, selected,
  selected_twice, until_period, split_reference, Entry, Table, same_name, is_named, Qualified,
  find_again, find_by_column, Clause, is_select_match, Selected, select_again, find_select,
  or_select, find_in_clause, qualify_column_name,
}
use ydbocto.Names.Closest.{
  find_by_column-resolved, columns_named, candidates, resolved, IsNested, IsClear, match_of,
  match_column_in_table-columns_named, has_level_far, resolved_single, columns_cases,
}
use ydbocto.Prelude.{
  ℕ, ◌≤◌, ◌<◌, ◌≡◌, refl, ◌≢◌, Bool, true, false, none, some, List, [], ◌∷◌, ◌++◌, arith, leb,
  if◌then◌else◌, All, inl, inr,
}
use ydbocto.Rocto.Bytes.{Bytes}
use ydbocto.Types.Operations.Arithmetic.{found}

abbrev pub NoPeriod : Bytes → Type 0
NoPeriod = All (λ c. c ≢ b'.')

until_period_all : (s : Bytes) → NoPeriod s → until_period s ≡ (s, none)
unfolding until_period
until_period_all [] h = refl
until_period_all (c ∷ s) h = let k = until_period_all s h.1 in ground (arith, k, h.0)

until_period-append : (s r : Bytes) → NoPeriod s → until_period (s ++ b'.' ∷ r) ≡ (s, some r)
unfolding until_period
until_period-append [] r h = refl
until_period-append (c ∷ s) r h = let k = until_period-append s r h.1 in ground (arith, k, h.0)

split_reference_plain :
    (s : Bytes) → NoPeriod s → split_reference s ≡ record { table_name = none; column_name = s }
unfolding split_reference
split_reference_plain s h = let k = until_period_all s h in ground (arith, k)

-- Of parts without periods: a name of one part is a column, one of two parts is a table and a column, and one
-- of three parts has a table of two parts.
split_reference-parts :
    (a b c : Bytes)
    → NoPeriod a
    → NoPeriod b
    → (split_reference a ≡ record { table_name = none; column_name = a })
      × (split_reference (a ++ b'.' ∷ b) ≡ record { table_name = some a; column_name = b })
      × (split_reference (a ++ b'.' ∷ (b ++ b'.' ∷ c))
          ≡ record { table_name = some (a ++ b'.' ∷ b); column_name = c })
unfolding split_reference
split_reference-parts a b c h k =
    let one = until_period_all a h in
    let two = until_period-append a b h in
    let rest = until_period_all b k in
    let three = until_period-append a (b ++ b'.' ∷ c) h in
    let last = until_period-append b c k in
    (ground (arith, one), ground (arith, two, rest), ground (arith, three, last))

-- The columns of the SELECT list that have the name.
unfoldable pub selected_named : Bytes → List Entry → List Entry
unfolding is_select_match is_named same_name
selected_named name [] = []
selected_named name (e ∷ es) =
    if is_select_match name e then e ∷ selected_named name es else selected_named name es

-- The rule of the clauses, of the columns of the SELECT list and what the tables have: ORDER BY takes the
-- former first, GROUP BY the latter.
unfoldable pub by_clause : Bool → List Entry → Qualified → Qualified
by_clause is_group_by [] by_column = by_column
by_clause false (e ∷ []) by_column = select_column e
by_clause true (e ∷ []) unknown_column_name = select_column e
by_clause true (e ∷ []) by_column = by_column
by_clause false (e ∷ f ∷ es) by_column = ambiguous_column_name
by_clause true (e ∷ f ∷ es) unknown_column_name = ambiguous_column_name
by_clause true (e ∷ f ∷ es) by_column = by_column

selected_of : List Entry → Selected
selected_of [] = nothing
selected_of (e ∷ []) = selected e
selected_of (e ∷ f ∷ es) = selected_twice e

select_again-selected_named :
    (name : Bytes) (found : Entry) (es : List Entry)
    → select_again name found es ≡ selected_of (found ∷ selected_named name es)
unfolding select_again selected_named selected_of
select_again-selected_named name found [] = refl
select_again-selected_named name found (e ∷ es) =
    let h = select_again-selected_named name found es in ground (arith, h)

find_select-selected_named :
    (name : Bytes) (es : List Entry) → find_select name es ≡ selected_of (selected_named name es)
unfolding find_select selected_named selected_of
find_select-selected_named name [] = refl
find_select-selected_named name (e ∷ es) =
    let h = find_select-selected_named name es in
    let k = select_again-selected_named name e es in ground (arith, h, k)

-- Where tables stand from the innermost query outwards, and none but those of the innermost query has the name
-- twice: a name of one part, that stands alone in an ORDER BY clause, is that of a column of the SELECT list, and
-- one in a GROUP BY clause that of a column of a table; only where there is none is it that of the other kind. Two columns
-- of the SELECT list make a name ambiguous that would be theirs.
pub qualify_column_name-by_clause :
    (depth : ℕ) (clause : Clause) (name : Bytes) (ts : List Table)
    → depth ≤ 3
    → NoPeriod name
    → IsNested ts
    → IsClear name ts
    → qualify_column_name false depth (some clause) name ts
      ≡ by_clause clause.is_group_by
          (selected_named name clause.columns)
          (resolved (candidates name ts))
unfolding qualify_column_name find_in_clause selected_of or_select by_clause
qualify_column_name-by_clause depth clause name ts d p n c =
    let a = split_reference_plain name p in
    let b = find_by_column-resolved name ts n c in
    let s = find_select-selected_named name clause.columns in
    let l : leb depth 3 ≡ true = ground (arith, d) in
    elim (columns_cases (selected_named name clause.columns)) [
      | inl x ↦ ground (arith, a, b, s, l, x)
      | inr (inl (e, x)) ↦ ground (arith, a, b, s, l, x)
      | inr (inr (e, f, g, x)) ↦ ground (arith, a, b, s, l, x)
    ]

-- Where tables stand from the innermost query outwards, and none but those of the innermost query has the name twice, a
-- name of one part outside of these clauses is that of the only column with the name in the closest query that
-- has one; it is ambiguous when that query has several, and unknown when no query has one.
pub qualify_column_name-resolved :
    (depth : ℕ) (name : Bytes) (ts : List Table)
    → NoPeriod name
    → IsNested ts
    → IsClear name ts
    → qualify_column_name false depth none name ts ≡ resolved (candidates name ts)
unfolding qualify_column_name
qualify_column_name-resolved depth name ts p n c =
    let a = split_reference_plain name p in
    let b = find_by_column-resolved name ts n c in ground (arith, a, b)

-- A column of the closest query that is the only one there is taken for ambiguous when the next table, of a query further
-- out, has the name twice.
qualify_column_name-outer :
    (depth : ℕ) (name : Bytes) (t u : Table) (e f g : Entry) (hs : List Entry)
    → NoPeriod name
    → t.level < u.level
    → columns_named name t.column_list ≡ e ∷ []
    → columns_named name u.column_list ≡ f ∷ g ∷ hs
    → (qualify_column_name false depth none name (t ∷ u ∷ []) ≡ ambiguous_column_name)
      × (resolved (candidates name (t ∷ u ∷ [])) ≡ column t e)
unfolding qualify_column_name find_by_column find_again match_of
qualify_column_name-outer depth name t u e f g hs p l a b =
    let s = split_reference_plain name p in
    let m = match_column_in_table-columns_named name t.column_list in
    let k = match_column_in_table-columns_named name u.column_list in
    let far = has_level_far name t.level (u ∷ []) (l, tt) in
    (ground (arith, s, a, b, m, k), resolved_single name t e (u ∷ []) a far)
