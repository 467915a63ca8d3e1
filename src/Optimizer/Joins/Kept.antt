-- ===== src/Optimizer/Joins/Kept.antt =====
-- What the function keeps whatever it does: the tables, and the order of the joins that are no CROSS JOINs.
use ydbocto.Optimizer.Joins.{no_join, Join, Gathered, gather, tables_of, with_tables, count}
use ydbocto.Optimizer.Joins.Moves.{
  fixed, crosses, are_compatible, Leading, fixed-append, count-fixed-crosses, fixed-crosses,
  gather-fixed,
}
use ydbocto.Prelude.{ℕ, ◌+◌, ◌≡◌, refl, ap, ◌∙◌, true, List, [], ◌∷◌, ◌++◌, arith, length-map}
use ydbocto.Optimizer.Joins.Counts.{count-append}
use ydbocto.Optimizer.Joins.Order.{tables_of-with_tables, Sorted}

tables_of-append : (xs ys : List Join) → tables_of (xs ++ ys) ≡ tables_of xs ++ tables_of ys
tables_of-append [] ys = refl
tables_of-append (x ∷ xs) ys = ap (◌∷◌ x.table) (tables_of-append xs ys)

fixed-with_tables : (js : List Join) (ts : List ℕ) → fixed js ≡ [] → fixed (with_tables js ts) ≡ []
unfolding with_tables
fixed-with_tables [] ts h = refl
fixed-with_tables (j ∷ js) [] h = h
fixed-with_tables (j ∷ js) (t ∷ ts) h = let k = fixed-with_tables js ts in ground (arith, k, h)

fixed-fixed : (js : List Join) → fixed (fixed js) ≡ fixed js
fixed-fixed [] = refl
fixed-fixed (j ∷ js) = let k = fixed-fixed js in ground (arith, k)

pub fixed-Leading : (joins cs rest : List Join) → Leading joins cs rest → fixed joins ≡ fixed rest
fixed-Leading joins cs rest l =
    let k = fixed-append cs rest in ground (arith, l.parts, l.none_fixed, k)

-- The lists have the same tables, and the joins that are no CROSS JOINs in the same order.
pub record IsKept (before after : List Join) : Type 0 where
  pub is_fixed_order : fixed after ≡ fixed before
  pub is_same_tables : (a : ℕ) → count a (tables_of after) ≡ count a (tables_of before)

count-tables_of :
    (a : ℕ) (xs ys : List Join)
    → count a (tables_of (xs ++ ys)) ≡ count a (tables_of xs) + count a (tables_of ys)
count-tables_of a xs ys =
    ap (count a) (tables_of-append xs ys) ∙ count-append a (tables_of xs) (tables_of ys)

pub IsKept-Sorted :
    (conditions : List (ℕ × ℕ)) (first : Join) (joins : List Join)
    → first.type ≡ no_join
    → are_compatible joins ≡ true
    → (s : Sorted conditions (tables_of (first ∷ crosses joins)))
    → IsKept
        (first ∷ joins)
        (with_tables (first ∷ crosses joins) (s.tied ++ s.others) ++ fixed joins)
IsKept-Sorted conditions first joins t c s =
    let front = with_tables (first ∷ crosses joins) (s.tied ++ s.others) in
    record {
      is_fixed_order =
          (let z = fixed-crosses joins in
            let k =
              fixed-with_tables (first ∷ crosses joins) (s.tied ++ s.others)
                (ground (arith, z, t)) in
            let i = fixed-fixed joins in
            let a = fixed-append front (fixed joins) in ground (arith, a, k, i, t));
      is_same_tables = (λ a.
          let k = count-tables_of a front (fixed joins) in
          let w = ap (count a) (
            tables_of-with_tables (first ∷ crosses joins) (s.tied ++ s.others)
              (s.is_same_length ∙ length-map (λ (j : Join). j.table) (first ∷ crosses joins))) in
          let f = count-fixed-crosses a joins c in
          k
          ∙ ap (λ x. x + count a (tables_of (fixed joins))) (w ∙ s.is_same_tables a)
          ∙ omega (arith, f));
    }

-- The moves that are made before another type of join is met.
pub IsKept-gathered :
    (first : Join) (joins cs : List Join) (start : Join) (rest : List Join)
    → first.type ≡ no_join
    → Leading joins cs (start ∷ rest)
    → IsKept (first ∷ joins) ((first ∷ (cs ++ (gather rest).moved)) ++ (start ∷ (gather rest).left))
IsKept-gathered first joins cs start rest t l =
    let (m, o, c) = gather-fixed rest in
    let g : Gathered = gather rest in
    record {
      is_fixed_order =
          (let f = fixed-Leading joins cs (start ∷ rest) l in
            let a = fixed-append (cs ++ g.moved) (start ∷ g.left) in
            let b = fixed-append cs g.moved in ground (arith, f, a, b, m, o, t, l.none_fixed));
      is_same_tables = (λ a.
          let p = ap (λ js. count a (tables_of js)) l.parts ∙ count-tables_of a cs (start ∷ rest) in
          let q = count-tables_of a (cs ++ g.moved) (start ∷ g.left) in
          let r = count-tables_of a cs g.moved in omega (arith, p, q, r, c a));
    }
