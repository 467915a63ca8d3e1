-- ===== src/Tests/Joining.antt =====
-- CROSS JOINs for src/optimization_transforms/lp_optimize_cross_join.c.
use ydbocto.Optimizer.Joins.{
  no_join, cross_join, natural_join, other_join, Join, lp_optimize_cross_join, tables_of,
  with_tables,
}
use ydbocto.Optimizer.Joins.Moves.{crosses, fixed}
use ydbocto.Optimizer.Joins.Order.{Sorted}
use ydbocto.Optimizer.Joins.Kept.{IsKept}
use ydbocto.Optimizer.Joins.Result.{lp_optimize_cross_join-Sorted, lp_optimize_cross_join-IsKept}
use ydbocto.Prelude.{ℕ, ◌≡◌, refl, some, List, [], ◌∷◌, ◌++◌, arith}

-- FROM t1 CROSS JOIN t2 NATURAL JOIN t3 CROSS JOIN t4
abbrev first : Join
first = record { type = no_join; table = 1 }

abbrev joins : List Join
joins =
    record { type = cross_join; table = 2 }
    ∷ record { type = natural_join; table = 3 }
    ∷ record { type = cross_join; table = 4 }
    ∷ []

-- WHERE t4.c = 7 AND t4.d = t2.e
abbrev conditions : List (ℕ × ℕ)
conditions = (4, 0) ∷ (4, 2) ∷ []

lp_optimize_cross_join-Sorted_example :
    (s : Sorted conditions (tables_of (first ∷ crosses joins))) × (lp_optimize_cross_join conditions
        5
        (first ∷ joins)
      ≡ some (with_tables (first ∷ crosses joins) (s.tied ++ s.others) ++ fixed joins))
lp_optimize_cross_join-Sorted_example =
    lp_optimize_cross_join-Sorted conditions 5 first joins refl refl (omega arith)

-- An INNER JOIN behind a CROSS JOIN that is moved.
abbrev mixed : List Join
mixed =
    record { type = natural_join; table = 2 }
    ∷ record { type = cross_join; table = 3 }
    ∷ record { type = other_join; table = 4 }
    ∷ []

lp_optimize_cross_join-IsKept_example :
    (result : List Join) × (lp_optimize_cross_join conditions 5 (first ∷ mixed) ≡ some result)
    × IsKept (first ∷ mixed) result
lp_optimize_cross_join-IsKept_example =
    lp_optimize_cross_join-IsKept conditions 5 first mixed refl refl
