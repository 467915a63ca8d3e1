-- ===== src/Optimizer/Joins/Moves.antt =====
-- What is in front after the CROSS JOINs are moved, and what is left behind them.
use ydbocto.Optimizer.Joins.{
  JoinType, no_join, cross_join, natural_join, other_join, Join, gather, leading, tables_of,
  is_cross_join, is_compatible, count,
}
use ydbocto.Prelude.{
  ℕ, ◌+◌, ◌≡◌, refl, ◌⊎◌, inl, inr, Bool, true, false, ◌&&◌, some, List, [], ◌∷◌, ◌++◌, arith,
  if◌then◌else◌, ap, none,
}

-- The joins of the other types, whose order matters.
abbrev pub is_fixed : JoinType → Bool
is_fixed natural_join = true
is_fixed other_join = true
is_fixed _ = false

abbrev pub fixed : List Join → List Join
fixed [] = []
fixed (j ∷ js) = if is_fixed j.type then j ∷ fixed js else fixed js

abbrev pub crosses : List Join → List Join
crosses [] = []
crosses (j ∷ js) = if is_cross_join j.type then j ∷ crosses js else crosses js

abbrev pub are_compatible : List Join → Bool
are_compatible [] = true
are_compatible (j ∷ js) = is_compatible j.type && are_compatible js

type-cases :
    (t : JoinType) → (t ≡ no_join) ⊎ (t ≡ cross_join) ⊎ (t ≡ natural_join) ⊎ (t ≡ other_join)
type-cases no_join = inl refl
type-cases cross_join = inr (inl refl)
type-cases natural_join = inr (inr (inl refl))
type-cases other_join = inr (inr (inr refl))

pub fixed-append : (xs ys : List Join) → fixed (xs ++ ys) ≡ fixed xs ++ fixed ys
fixed-append [] ys = refl
fixed-append (x ∷ xs) ys = let k = fixed-append xs ys in ground (arith, k)

pub count-fixed-crosses :
    (a : ℕ) (js : List Join)
    → are_compatible js ≡ true
    → count a (tables_of (crosses js)) + count a (tables_of (fixed js)) ≡ count a (tables_of js)
count-fixed-crosses a [] h = refl
count-fixed-crosses a (j ∷ js) h =
    let k = count-fixed-crosses a js in ground (arith, k, h, type-cases j.type)

pub fixed-crosses : (js : List Join) → fixed (crosses js) ≡ []
fixed-crosses [] = refl
fixed-crosses (j ∷ js) = let k = fixed-crosses js in ground (arith, k, type-cases j.type)

pub gather_lem :
    (js : List Join)
    → are_compatible js ≡ true
    → gather js ≡ record { moved = crosses js; left = fixed js; at_end = true }
unfolding gather
gather_lem [] h = refl
gather_lem (j ∷ js) h = let k = gather_lem js in ground (arith, k, h, type-cases j.type)

-- Another type of join ends the loop early.
pub gather-stops : (js : List Join) → are_compatible js ≡ false → (gather js).at_end ≡ false
unfolding gather
gather-stops [] h = absurd (ground (arith, h))
gather-stops (j ∷ js) h = let k = gather-stops js in ground (arith, k, h, type-cases j.type)

pub gather-fixed :
    (js : List Join)
    → (fixed (gather js).moved ≡ [])
      × (fixed (gather js).left ≡ fixed js)
      × ((a : ℕ)
          → count a (tables_of (gather js).moved) + count a (tables_of (gather js).left)
            ≡ count a (tables_of js))
unfolding gather
gather-fixed [] = (refl, refl, λ a. refl)
gather-fixed (j ∷ js) =
    let (m, l, c) = gather-fixed js in
    let t = type-cases j.type in
    (ground (arith, m, t), ground (arith, l, t), λ a. ground (arith, c a, t))

-- The CROSS JOINs that stand first, as a part of the list.
pub record Leading (js cs rest : List Join) : Type 0 where
  pub is_leading : leading js ≡ some (cs, rest)
  pub parts : js ≡ cs ++ rest
  pub none_fixed : fixed cs ≡ []
  pub is_as_compatible : are_compatible js ≡ are_compatible rest
  pub all_crosses : cs ++ crosses rest ≡ crosses js
  pub starts_natural :
      (rest ≡ []) ⊎ ((s : Join) × (r : List Join) × (rest ≡ s ∷ r) × (s.type ≡ natural_join))

Leading-cross :
    (j : Join) (js cs rest : List Join)
    → j.type ≡ cross_join
    → Leading js cs rest
    → Leading (j ∷ js) (j ∷ cs) rest
unfolding leading
Leading-cross j js cs rest t l = record {
  is_leading = ground (arith, l.is_leading, t);
  parts = ap (◌∷◌ j) l.parts;
  none_fixed = ground (arith, l.none_fixed, t);
  is_as_compatible = ground (arith, l.is_as_compatible, t);
  all_crosses = ground (arith, l.all_crosses, t);
  starts_natural = l.starts_natural;
}

Leading-natural : (j : Join) (js : List Join) → j.type ≡ natural_join → Leading (j ∷ js) [] (j ∷ js)
unfolding leading
Leading-natural j js t = record {
  is_leading = ground (arith, t);
  parts = refl;
  none_fixed = refl;
  is_as_compatible = refl;
  all_crosses = refl;
  starts_natural = inr (j, js, refl, t);
}

pub leading_lem :
    (js : List Join)
    → ((leading js ≡ none) × (are_compatible js ≡ false))
      ⊎ ((cs : List Join) × (rest : List Join) × Leading js cs rest)
unfolding leading
leading_lem [] = inr (
  [],
  [],
  record {
    is_leading = refl;
    parts = refl;
    none_fixed = refl;
    is_as_compatible = refl;
    all_crosses = refl;
    starts_natural = inl refl;
  },
)
leading_lem (j ∷ js) =
    let ih = leading_lem js in
    elim (type-cases j.type) [
      | inl t ↦ inl (ground (arith, t), ground (arith, t))
      | inr (inl t) ↦ elim ih [
        | inl (e, c) ↦ inl (ground (arith, t, e), ground (arith, t, c))
        | inr (cs, rest, l) ↦ inr (j ∷ cs, rest, Leading-cross j js cs rest t l)
      ]
      | inr (inr (inl t)) ↦ inr ([], j ∷ js, Leading-natural j js t)
      | inr (inr (inr t)) ↦ inl (ground (arith, t), ground (arith, t))
    ]
