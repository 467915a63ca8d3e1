-- ===== src/Optimizer/Joins/Order.antt =====
-- The tables behind `reorder`: their ids, the nodes that take them, and their new order.
use ydbocto.Optimizer.Joins.{Join, reorder, with_tables, tables_of, count, equals_id1_id2, place}
use ydbocto.Optimizer.Joins.Search.{IsSorting, is_chain, is_tied, sort_loop_lem}
use ydbocto.Prelude.{
  ℕ, suc, ◌<◌, ◌≡◌, refl, ap, inl, inr, Bool, true, false, ◌&&◌, some, List, [], ◌∷◌, ◌++◌, arith,
  ltb, ◌==◌, Bool-cases, length, All, sym, ◌∙◌,
}
use ydbocto.Optimizer.Joins.Counts.{Within, count-place, place-append, length-place, count-append}

-- The ids are distinct, and between 0 and the first one that is not in use.
abbrev pub is_numbered : ℕ → List ℕ → Bool
is_numbered n [] = true
is_numbered n (a ∷ ts) = ltb 0 a && ltb a n && count a ts == 0 && is_numbered n ts

pub is_numbered-bounds :
    (n : ℕ) (ts : List ℕ)
    → is_numbered n ts ≡ true
    → (a : ℕ) → 0 < count a ts
    → (0 < a) × (a < n) × (count a ts ≡ 1)
is_numbered-bounds n [] h a l = absurd (omega arith)
is_numbered-bounds n (t ∷ ts) h a l =
    let k = is_numbered-bounds n ts (ground (arith, h)) a in
    (ground (arith, h, k, l), ground (arith, h, k, l), ground (arith, h, k, l))

pub tables_of-with_tables :
    (js : List Join) (ts : List ℕ) → length ts ≡ length js → tables_of (with_tables js ts) ≡ ts
unfolding with_tables
tables_of-with_tables [] [] h = refl
tables_of-with_tables [] (t ∷ ts) h = absurd (omega (arith, h))
tables_of-with_tables (j ∷ js) [] h = absurd (omega (arith, h))
tables_of-with_tables (j ∷ js) (t ∷ ts) h =
    ap (◌∷◌ t) (tables_of-with_tables js ts (omega (arith, h)))

-- The tables in their new order: those that a chain of conditions ties to a value, and the others.
pub record Sorted (conditions : List (ℕ × ℕ)) (tables : List ℕ) : Type 0 where
  pub tied : List ℕ
  pub others : List ℕ
  pub is_same_tables : (a : ℕ) → count a (tied ++ others) ≡ count a tables
  pub is_same_length : length (tied ++ others) ≡ length tables
  pub is_tied_chain : is_chain conditions (0 ∷ []) tied ≡ true
  pub are_not_tied : All (λ a. is_tied conditions (0 ∷ tied) a ≡ false) others

All-count : (P : ℕ → Type 0) (xs : List ℕ) → ((a : ℕ) → 0 < count a xs → P a) → All P xs
All-count P [] h = tt
All-count P (x ∷ xs) h = (h x (ground arith), All-count P xs (λ a l. h a (ground (arith, l))))

is_tied-member :
    (conditions : List (ℕ × ℕ)) (us : List ℕ) (a : ℕ)
    → is_tied conditions us a ≡ true
    → (u : ℕ) × (0 < count u us) × (equals_id1_id2 conditions u a ≡ true)
is_tied-member conditions [] a h = absurd (ground (arith, h))
is_tied-member conditions (x ∷ us) a h = elim (Bool-cases (equals_id1_id2 conditions x a)) [
  | inl e ↦ (x, ground arith, e)
  | inr e ↦
      let (u, m, t) = is_tied-member conditions us a (ground (arith, h, e)) in
      (u, ground (arith, m), t)
]

-- What is behind the sorted tables is tied to none of them.
Sorted-place :
    (conditions : List (ℕ × ℕ)) (n : ℕ) (tables ds : List ℕ)
    → is_numbered n tables ≡ true
    → IsSorting conditions tables ds []
    → (s : Sorted conditions tables) × (place ds tables ≡ s.tied ++ s.others) × (s.tied ≡ ds)
Sorted-place conditions n tables ds h i =
    let b = is_numbered-bounds n tables h in
    let w : Within ds tables = λ a. ground (arith, i.are_tables a) in
    let (others, e) = place-append ds tables w in
    let counts : (a : ℕ) → count a (ds ++ others) ≡ count a tables =
      λ a. ap (count a) (sym e) ∙ count-place a ds tables w in
    let untied : (a : ℕ) → 0 < count a others → is_tied conditions (0 ∷ ds) a ≡ false = λ a l.
      elim (Bool-cases (is_tied conditions (0 ∷ ds) a)) [
        | inl y ↦
            let (u, m, t) = is_tied-member conditions (0 ∷ ds) a y in
            let c = count-append a ds others in
            absurd (ground (arith, i.are_closed u a m, t, counts a, c, b a, l))
        | inr y ↦ y
      ] in
    (
      record {
        tied = ds;
        others = others;
        is_same_tables = counts;
        is_same_length = ap length (sym e) ∙ length-place ds tables;
        is_tied_chain = i.are_chained;
        are_not_tied = All-count (λ a. is_tied conditions (0 ∷ ds) a ≡ false) others untied;
      },
      e,
      refl,
    )

pub reorder_lem :
    (conditions : List (ℕ × ℕ)) (n : ℕ) (front rest : List Join)
    → is_numbered n (tables_of front) ≡ true
    → (s : Sorted conditions (tables_of front)) × (reorder conditions n front rest
        ≡ some (with_tables front (s.tied ++ s.others) ++ rest))
unfolding reorder
reorder_lem conditions n front rest h =
    let tables = tables_of front in
    let b = is_numbered-bounds n tables h in
    let start : IsSorting conditions tables [] (0 ∷ []) = record {
      are_tables = (λ a. ground arith);
      are_pending = (λ a. ground arith);
      are_closed = (λ u a m t e. inl m);
      are_chained = refl;
    } in
    let (ds, k, i) =
      sort_loop_lem conditions tables n (suc (length tables)) [] (0 ∷ []) (λ a l. (b a l).1) start
        (omega arith) in
    let (s, e, t) = Sorted-place conditions n tables ds h i in (s, ground (arith, k, e))
