-- ===== src/Tests/Naming.antt =====
-- Names for src/qualify_column_name.c.
use ydbocto.Names.{Entry, Table, Clause, qualify_column_name}
use ydbocto.Names.Closest.{candidates, resolved, columns_named}
use ydbocto.Names.Clauses.{
  by_clause, selected_named, qualify_column_name-by_clause, qualify_column_name-resolved,
}
use ydbocto.Rocto.Bytes.{codes, Bytes}
use ydbocto.Prelude.{ℕ, ◌≡◌, refl, inl, inr, true, false, none, some, [], ◌∷◌, arith}

abbrev entry : ℕ → Bytes → Entry
entry n s = record { id = n; alias = some s; user_specified_alias = true; is_column_alias = false }

-- One table of the query, and one of the query around it.
abbrev customers : Table
customers = record {
  id = 1;
  alias = some (codes "c");
  column_list = entry 1 (codes "id") ∷ entry 2 (codes "name") ∷ [];
  level = 0;
}

abbrev orders : Table
orders = record {
  id = 2;
  alias = some (codes "o");
  column_list = entry 3 (codes "id") ∷ entry 4 (codes "total") ∷ [];
  level = 1;
}

qualify_column_name-resolved_example :
    qualify_column_name false 3 none (codes "id") (customers ∷ orders ∷ [])
    ≡ resolved (candidates (codes "id") (customers ∷ orders ∷ []))
unfolding columns_named
qualify_column_name-resolved_example =
    qualify_column_name-resolved 3 (codes "id") (customers ∷ orders ∷ [])
      (ground arith, (ground arith, tt)) ((omega arith, tt), (tt, tt))
      (inl refl, (inr (omega arith), tt))

abbrev order_by : Clause
order_by = record { columns = entry 5 (codes "total") ∷ []; is_group_by = false }

qualify_column_name-by_clause_example :
    qualify_column_name false 3 (some order_by) (codes "id") (customers ∷ orders ∷ [])
    ≡ by_clause false
        (selected_named (codes "id") order_by.columns)
        (resolved (candidates (codes "id") (customers ∷ orders ∷ [])))
unfolding columns_named
qualify_column_name-by_clause_example =
    qualify_column_name-by_clause 3 order_by (codes "id") (customers ∷ orders ∷ []) (omega arith)
      (ground arith, (ground arith, tt)) ((omega arith, tt), (tt, tt))
      (inl refl, (inr (omega arith), tt))
