-- ===== src/Names.antt =====
-- The resolution of column names: src/qualify_column_name.c and src/match_column_in_table.c.
pub mod Closest
pub mod Clauses
use ydbocto.Prelude.{
  ℕ, Bool, true, false, ◌&&◌, ◌||◌, Option, none, some, List, [], ◌∷◌, ◌++◌, leb, ◌==◌,
  if◌then◌else◌,
}
use ydbocto.Rocto.Bytes.{Bytes}
use ydbocto.Types.Operations.Arithmetic.{found}

-- A name as it is written, cut into what names a table and what names a column.
pub record Reference : Type 0 where
  pub table_name : Option Bytes
  pub column_name : Bytes

-- `while ('\0' != *c && '.' != *c)`: what is in front of the first period, and what is behind it.
pub until_period : Bytes → Bytes × Option Bytes
until_period [] = ([], none)
until_period (c ∷ r) =
    let (before, rest) = until_period r in if c == b'.' then ([], some r) else (c ∷ before, rest)

-- A name of three parts has a database in front of its table, and both are taken for the table.
pub split_reference : Bytes → Reference
unfolding until_period
split_reference s =
    let (first, rest) = until_period s in
    elim rest [
      | none ↦ record { table_name = none; column_name = first }
      | some r ↦
          let (second, more) = until_period r in
          elim more [
            | none ↦ record { table_name = some first; column_name = r }
            | some last ↦ record { table_name = some (first ++ b'.' ∷ second); column_name = last }
          ]
    ]

-- `SqlColumnListAlias`, with its identity: the name under which a column is seen, whether the
-- user gave that name, and whether the column is itself a column of a table.
pub record Entry : Type 0 where
  pub id : ℕ
  pub alias : Option Bytes
  pub user_specified_alias : Bool
  pub is_column_alias : Bool

-- A table of the FROM list, with its identity. `level` stands for `parent_table_alias`: the query that the table
-- belongs to, numbered outwards from the innermost one.
pub record Table : Type 0 where
  pub id : ℕ
  pub alias : Option Bytes
  pub column_list : List Entry
  pub level : ℕ

-- `strlen` and `memcmp` on two names.
pub same_name : Bytes → Bytes → Bool
same_name [] [] = true
same_name (c ∷ s) (d ∷ t) = c == d && same_name s t
same_name _ _ = false

pub is_named : Bytes → Option Bytes → Bool
unfolding same_name
is_named name none = false
is_named name (some s) = same_name s name

-- The result of `match_column_in_table`, with `*ambiguous`.
pub data Match : Type 0 where
  no_match ambiguous : Match
  one_match : Entry → Match

-- The loop, once a column was found.
pub match_again : Bytes → Entry → List Entry → Match
unfolding is_named
match_again name found [] = one_match found
match_again name found (e ∷ es) =
    let rest = match_again name found es in if is_named name e.alias then ambiguous else rest

pub match_column_in_table : Bytes → List Entry → Match
unfolding match_again is_named
match_column_in_table name [] = no_match
match_column_in_table name (e ∷ es) =
    let rest = match_column_in_table name es in
    if is_named name e.alias then match_again name e es else rest

-- What comes of a name: a column of a table, the row of a table, a column of the SELECT list, or one of the errors.
pub data Qualified : Type 0 where
  column : Table → Entry → Qualified
  row : Table → Qualified
  select_column : Entry → Qualified
  ambiguous_column_name unknown_column_name missing_from_entry : Qualified

-- The loop over the tables for a name with a table.
pub find_by_table : Bool → Bytes → Bytes → List Table → Qualified
unfolding match_column_in_table is_named
find_by_table is_asterisk table_name name [] = missing_from_entry
find_by_table is_asterisk table_name name (t ∷ ts) =
    let rest = find_by_table is_asterisk table_name name ts in
    if is_named table_name t.alias
    then if is_asterisk then row t else elim (match_column_in_table name t.column_list) [
      | no_match ↦ unknown_column_name
      | ambiguous ↦ ambiguous_column_name
      | one_match e ↦ column t e
    ]
    else rest

-- The loop for a name with no table, once a column `e` of `t` was found: it ends at the next table that has
-- the name.
pub find_again : Bytes → Table → Entry → List Table → Qualified
unfolding match_column_in_table
find_again name t e [] = column t e
find_again name t e (u ∷ us) = elim (match_column_in_table name u.column_list) [
  | no_match ↦ find_again name t e us
  | ambiguous ↦ ambiguous_column_name
  | one_match f ↦ if u.level == t.level then ambiguous_column_name else column t e
]

pub find_by_column : Bytes → List Table → Qualified
unfolding match_column_in_table find_again
find_by_column name [] = unknown_column_name
find_by_column name (t ∷ ts) = elim (match_column_in_table name t.column_list) [
  | no_match ↦ find_by_column name ts
  | ambiguous ↦ ambiguous_column_name
  | one_match e ↦ find_again name t e ts
]

-- `ret_cla` is given in a GROUP BY or ORDER BY clause; then the SELECT list is `columns`.
pub record Clause : Type 0 where
  pub columns : List Entry
  pub is_group_by : Bool

-- Whether a column of the SELECT list has the name: not a name made up for an expression.
pub is_select_match : Bytes → Entry → Bool
unfolding is_named
is_select_match name e = is_named name e.alias && (e.user_specified_alias || e.is_column_alias)

-- The loop over the SELECT list, with the column found so far; a second match ends it.
pub data Selected : Type 0 where
  nothing : Selected
  selected : Entry → Selected
  selected_twice : Entry → Selected

pub select_again : Bytes → Entry → List Entry → Selected
unfolding is_select_match
select_again name found [] = selected found
select_again name found (e ∷ es) =
    let rest = select_again name found es in
    if is_select_match name e then selected_twice found else rest

pub find_select : Bytes → List Entry → Selected
unfolding select_again is_select_match
find_select name [] = nothing
find_select name (e ∷ es) =
    let rest = find_select name es in
    if is_select_match name e then select_again name e es else rest

-- Behind the loop over the tables, for GROUP BY: the column of the SELECT list, where no table has the name.
pub or_select : Qualified → Qualified → Qualified
or_select unknown_column_name other = other
or_select found other = found

-- A name with no table, in a GROUP BY or ORDER BY clause; `depth` is 3 where the name stands alone.
pub find_in_clause : ℕ → Clause → Bytes → List Table → Qualified
unfolding find_select find_by_column or_select
find_in_clause depth clause name tables =
    let by_column = find_by_column name tables in
    elim (find_select name clause.columns) [
      | nothing ↦ by_column
      | selected e ↦
          if leb depth 3
          then if clause.is_group_by then or_select by_column (select_column e) else select_column e
          else by_column
      | selected_twice e ↦
          if clause.is_group_by
          then if leb depth 3 then or_select by_column ambiguous_column_name else by_column
          else ambiguous_column_name
    ]

pub qualify_column_name : Bool → ℕ → Option Clause → Bytes → List Table → Qualified
unfolding split_reference find_by_table find_by_column find_in_clause
qualify_column_name is_asterisk depth clause name tables =
    let r : Reference = split_reference name in
    elim r.table_name [
      | some t ↦ find_by_table is_asterisk t r.column_name tables
      | none ↦ elim clause [
        | none ↦ find_by_column r.column_name tables
        | some c ↦ find_in_clause depth c r.column_name tables
      ]
    ]
