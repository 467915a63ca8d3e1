-- ===== src/Optimizer/Joins.antt =====
-- The order of CROSS JOINs, src/optimization_transforms/lp_optimize_cross_join.c.
pub mod Counts
pub mod Search
pub mod Order
pub mod Moves
pub mod Kept
pub mod Result
use ydbocto.Prelude.{
  ℕ, zero, suc, ◌+◌, Bool, true, false, not, ◌&&◌, ◌||◌, Option, none, some, List, [], ◌∷◌, ◌++◌,
  map, ◌==◌, if◌then◌else◌, length,
}
use ydbocto.Types.Operations.Arithmetic.{found}

-- `SqlJoinType`, as far as the function tells the types apart.
pub data JoinType : Type 0 where
  no_join cross_join natural_join other_join : JoinType

-- LP_TABLE_JOIN: how a table is joined to those in front of it, and the table's `unique_id`.
pub record Join : Type 0 where
  pub type : JoinType
  pub table : ℕ

abbrev pub is_cross_join : JoinType → Bool
is_cross_join cross_join = true
is_cross_join _ = false

-- IS_CROSS_JOIN_COMPATIBLE
abbrev pub is_compatible : JoinType → Bool
is_compatible cross_join = true
is_compatible natural_join = true
is_compatible _ = false

-- The CROSS JOINs that stand first, and the rest, which begins with a NATURAL JOIN; none where another type of
-- join is met.
pub leading : List Join → Option (List Join × List Join)
leading [] = some ([], [])
leading (j ∷ js) =
    let more = leading js in
    if is_cross_join j.type
    then elim more [ none ↦ none | some (cs, rest) ↦ some (j ∷ cs, rest) ]
    else if is_compatible j.type
    then some ([], j ∷ js)
    else none

-- The loop that takes the later CROSS JOINs out: those taken, what is left, and whether it came to the end. The moves that
-- were made stay when another type of join is met.
pub record Gathered : Type 0 where
  pub moved : List Join
  pub left : List Join
  pub at_end : Bool

pub gather : List Join → Gathered
gather [] = record { moved = []; left = []; at_end = true }
gather (j ∷ js) =
    let g : Gathered = gather js in
    if is_cross_join j.type
    then record g { moved = j ∷ g.moved }
    else if is_compatible j.type
    then record g { left = j ∷ g.left }
    else record { moved = []; left = j ∷ js; at_end = false }

-- How often a table is in a list.
abbrev pub count : ℕ → List ℕ → ℕ
count table [] = 0
count table (t ∷ tables) = (if t == table then 1 else 0) + count table tables

-- `equals_id1_id2`: the conditions of the WHERE clause that `lp_optimize_where_multi_equals_ands_helper` notes, each by
-- the ids of its operands, where a value has the id 0.
pub equals_id1_id2 : List (ℕ × ℕ) → ℕ → ℕ → Bool
equals_id1_id2 [] u v = false
equals_id1_id2 ((a, b) ∷ conditions) u v =
    (a == u && b == v || a == v && b == u) || equals_id1_id2 conditions u v

-- What the inner loop appends for `u`, from the id `j` on with `n` ids to go: the tables that are not seen yet, and that a
-- condition ties to `u`.
pub news : List (ℕ × ℕ) → List ℕ → ℕ → ℕ → ℕ → List ℕ → List ℕ
unfolding equals_id1_id2
news conditions tables zero j u sorted = []
news conditions tables (suc n) j u sorted =
    let rest = news conditions tables n (suc j) u sorted in
    if count j sorted == 0 && not (count j tables == 0) && equals_id1_id2 conditions u j
    then j ∷ rest
    else rest

-- The outer loop, on fuel: `sorted_array`, and its part from the index on.
pub sort_loop : List (ℕ × ℕ) → List ℕ → ℕ → ℕ → List ℕ → List ℕ → Option (List ℕ)
unfolding news
sort_loop conditions tables max_unique_id fuel sorted [] = some sorted
sort_loop conditions tables max_unique_id zero sorted (u ∷ rest) = none
sort_loop conditions tables max_unique_id (suc fuel) sorted (u ∷ rest) =
    let found = news conditions tables max_unique_id 0 u sorted in
    sort_loop conditions tables max_unique_id fuel (sorted ++ found) (rest ++ found)

-- A table takes the place of another one behind the current node.
pub replace : ℕ → ℕ → List ℕ → List ℕ
replace d c [] = []
replace d c (x ∷ xs) = if x == d then c ∷ xs else x ∷ replace d c xs

-- The tables are swapped into their sorted places; `table_join_array` is where each of them is.
pub place : List ℕ → List ℕ → List ℕ
unfolding replace
place [] tables = tables
place (d ∷ ds) [] = []
place (d ∷ ds) (c ∷ cs) =
    (if c == d then c else d) ∷ place ds (if c == d then cs else replace d c cs)

abbrev pub tables_of : List Join → List ℕ
tables_of = map (λ (j : Join). j.table)

-- The nodes keep the types of their joins.
pub with_tables : List Join → List ℕ → List Join
with_tables [] ts = []
with_tables (j ∷ js) [] = j ∷ js
with_tables (j ∷ js) (t ∷ ts) = record j { table = t } ∷ with_tables js ts

-- The reordering of the tables of the first join and the CROSS JOINs behind it.
pub reorder : List (ℕ × ℕ) → ℕ → List Join → List Join → Option (List Join)
unfolding sort_loop place with_tables
reorder conditions max_unique_id front rest =
    let tables = tables_of front in
    elim (sort_loop conditions tables max_unique_id (suc (length tables)) (0 ∷ []) (0 ∷ [])) [
      | none ↦ none
      | some [] ↦ some (front ++ rest)
      | some (_ ∷ sorted) ↦ some (with_tables front (place sorted tables) ++ rest)
    ]

-- The result; none where the fuel runs out.
pub lp_optimize_cross_join : List (ℕ × ℕ) → ℕ → List Join → Option (List Join)
unfolding leading gather reorder
lp_optimize_cross_join conditions max_unique_id [] = some []
lp_optimize_cross_join conditions max_unique_id (first ∷ joins) = elim (leading joins) [
  | none ↦ some (first ∷ joins)
  | some (cs, []) ↦
      if length cs == 0
      then some (first ∷ joins)
      else reorder conditions max_unique_id (first ∷ cs) []
  | some (cs, (start ∷ rest)) ↦
      (let g : Gathered = gather rest in
        let front = first ∷ (cs ++ g.moved) in
        if not g.at_end
        then some (front ++ (start ∷ g.left))
        else if length (cs ++ g.moved) == 0
        then some (first ∷ joins)
        else reorder conditions max_unique_id front (start ∷ g.left))
]
