-- ===== src/Optimizer/Joins/Result.antt =====
-- The whole function lp_optimize_cross_join: the order that it leaves, and what it keeps in any case.
use mathlib.Core.Path.{subst}
use ydbocto.Optimizer.Joins.Kept.{IsKept, IsKept-Sorted, IsKept-gathered, fixed-Leading}
use ydbocto.Optimizer.Joins.{
  no_join, Join, gather, leading, tables_of, with_tables, lp_optimize_cross_join, reorder,
}
use ydbocto.Optimizer.Joins.Moves.{
  fixed, crosses, are_compatible, Leading, leading_lem, gather_lem, count-fixed-crosses,
  gather-stops,
}
use ydbocto.Prelude.{
  ℕ, ◌<◌, ◌≡◌, refl, ap, true, some, List, [], ◌∷◌, ◌++◌, arith, length, inl, inr, append-nil, ◌==◌,
  if◌then◌else◌, ◌∙◌, false, none, Bool-cases,
}
use ydbocto.Optimizer.Joins.Counts.{Within}
use ydbocto.Optimizer.Joins.Order.{is_numbered, is_numbered-bounds, reorder_lem, Sorted}

-- Fewer tables are numbered too.
is_numbered-fewer :
    (n : ℕ) (xs ys : List ℕ) → Within xs ys → is_numbered n ys ≡ true → is_numbered n xs ≡ true
is_numbered-fewer n [] ys w h = refl
is_numbered-fewer n (x ∷ xs) ys w h =
    let b = is_numbered-bounds n ys h x in
    let k = is_numbered-fewer n xs ys (λ a. ground (arith, w a)) h in ground (arith, k, b, w x)

module _ (conditions : List (ℕ × ℕ)) (n : ℕ) (first : Join) (joins : List Join) where
  lp_optimize_cross_join_stopped :
      leading joins ≡ none
      → lp_optimize_cross_join conditions n (first ∷ joins) ≡ some (first ∷ joins)
  unfolding lp_optimize_cross_join
  lp_optimize_cross_join_stopped e = ground (arith, e)

  lp_optimize_cross_join_all :
      (cs : List Join)
      → leading joins ≡ some (cs, [])
      → lp_optimize_cross_join conditions n (first ∷ joins)
        ≡ (if length cs == 0 then some (first ∷ joins) else reorder conditions n (first ∷ cs) [])
  unfolding lp_optimize_cross_join
  lp_optimize_cross_join_all cs e = rw (e, lp_optimize_cross_join) refl

  lp_optimize_cross_join_moved :
      (cs : List Join) (start : Join) (rest moved left : List Join)
      → leading joins ≡ some (cs, (start ∷ rest))
      → gather rest ≡ record { moved = moved; left = left; at_end = true }
      → lp_optimize_cross_join conditions n (first ∷ joins) ≡ (
          if length (cs ++ moved) == 0
          then some (first ∷ joins)
          else reorder conditions n (first ∷ (cs ++ moved)) (start ∷ left))
  unfolding lp_optimize_cross_join
  lp_optimize_cross_join_moved cs start rest moved left e g = rw (e, lp_optimize_cross_join, g) refl

  lp_optimize_cross_join_kept :
      (cs : List Join) (start : Join) (rest : List Join)
      → leading joins ≡ some (cs, (start ∷ rest))
      → (gather rest).at_end ≡ false
      → lp_optimize_cross_join conditions n (first ∷ joins)
        ≡ some ((first ∷ (cs ++ (gather rest).moved)) ++ (start ∷ (gather rest).left))
  unfolding lp_optimize_cross_join
  lp_optimize_cross_join_kept cs start rest e g = rw (e, lp_optimize_cross_join, g) refl

lp_optimize_cross_join-reorder :
    (conditions : List (ℕ × ℕ)) (n : ℕ) (first : Join) (joins : List Join)
    → are_compatible joins ≡ true
    → (lp_optimize_cross_join conditions n (first ∷ joins) ≡ (
        if length (crosses joins) == 0
        then some (first ∷ joins)
        else reorder conditions n (first ∷ crosses joins) (fixed joins)))
lp_optimize_cross_join-reorder conditions n first joins h = elim (leading_lem joins) [
  | inl (_, c) ↦ absurd (ground (arith, c, h))
  | inr (cs, rest, l) ↦
      let f = fixed-Leading joins cs rest l in
      elim l.starts_natural [
        | inl e ↦
            let a = append-nil cs in
            let k =
              lp_optimize_cross_join_all conditions n first joins cs
                (l.is_leading ∙ ap (λ x. some (cs, x)) e) in
            let c : crosses joins ≡ cs = ground (arith, l.all_crosses, e, a) in
            let d : fixed joins ≡ [] = ground (arith, f, e) in rw (c, d) k
        | inr (s, r, e, t) ↦
            let g = gather_lem r (ground (arith, l.is_as_compatible, e, h)) in
            let k =
              lp_optimize_cross_join_moved conditions n first joins cs s r (crosses r) (fixed r)
                (l.is_leading ∙ ap (λ x. some (cs, x)) e) g in
            let c : crosses joins ≡ cs ++ crosses r = ground (arith, l.all_crosses, e, t) in
            let d : fixed joins ≡ s ∷ fixed r = ground (arith, f, e, t) in rw (c, d) k
      ]
]

-- When every join is a CROSS JOIN or a NATURAL JOIN, at least one is a CROSS JOIN, and the ids are distinct, the CROSS
-- JOINs stand in front, and the tables there are in a new order: those that conditions tie to a value or to an earlier
-- table, then the others, of which no condition ties one to a value or to one of the former.
pub lp_optimize_cross_join-Sorted :
    (conditions : List (ℕ × ℕ)) (n : ℕ) (first : Join) (joins : List Join)
    → is_numbered n (tables_of (first ∷ joins)) ≡ true
    → are_compatible joins ≡ true
    → 0 < length (crosses joins)
    → (s : Sorted conditions (tables_of (first ∷ crosses joins))) × (lp_optimize_cross_join
          conditions n
          (first ∷ joins)
        ≡ some (with_tables (first ∷ crosses joins) (s.tied ++ s.others) ++ fixed joins))
lp_optimize_cross_join-Sorted conditions n first joins h c l =
    let few : Within (tables_of (first ∷ crosses joins)) (tables_of (first ∷ joins)) =
      λ a. let k = count-fixed-crosses a joins c in ground (arith, k) in
    let numbered =
      is_numbered-fewer n (tables_of (first ∷ crosses joins)) (tables_of (first ∷ joins)) few h in
    let (s, e) = reorder_lem conditions n (first ∷ crosses joins) (fixed joins) numbered in
    let k = lp_optimize_cross_join-reorder conditions n first joins c in
    (s, ground (arith, k, l, e))

-- Whatever the joins are, if their ids are distinct and the first one is no join, the function ends with a list that has
-- the same tables, and the joins that are no CROSS JOINs in the same order.
pub lp_optimize_cross_join-IsKept :
    (conditions : List (ℕ × ℕ)) (n : ℕ) (first : Join) (joins : List Join)
    → first.type ≡ no_join
    → is_numbered n (tables_of (first ∷ joins)) ≡ true
    → (result : List Join) × (lp_optimize_cross_join conditions n (first ∷ joins) ≡ some result)
      × IsKept (first ∷ joins) result
lp_optimize_cross_join-IsKept conditions n first joins t h =
    let same : IsKept (first ∷ joins) (first ∷ joins) = record {
      is_fixed_order = refl;
      is_same_tables = (λ a. refl);
    } in
    elim (Bool-cases (are_compatible joins)) [
      | inl c ↦ elim (Bool-cases (length (crosses joins) == 0)) [
        | inl z ↦
            let k = lp_optimize_cross_join-reorder conditions n first joins c in
            (first ∷ joins, ground (arith, k, z), same)
        | inr p ↦
            let (s, e) =
              lp_optimize_cross_join-Sorted conditions n first joins h c (ground (arith, p)) in
            (
              with_tables (first ∷ crosses joins) (s.tied ++ s.others) ++ fixed joins,
              e,
              IsKept-Sorted conditions first joins t c s,
            )
      ]
      | inr c ↦ elim (leading_lem joins) [
        | inl (e, _) ↦
            (first ∷ joins, lp_optimize_cross_join_stopped conditions n first joins e, same)
        | inr (cs, rest, l) ↦ elim l.starts_natural [
          | inl e ↦ absurd (ground (arith, l.is_as_compatible, e, c))
          | inr (s, r, e, u) ↦
              let l' = subst (λ x. Leading joins cs x) e l in
              (
                (first ∷ (cs ++ (gather r).moved)) ++ (s ∷ (gather r).left),
                lp_optimize_cross_join_kept conditions n first joins cs s r l'.is_leading
                    (gather-stops r (ground (arith, l.is_as_compatible, e, u, c))),
                IsKept-gathered first joins cs s r t l',
              )
        ]
      ]
    ]
