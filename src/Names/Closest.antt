-- ===== src/Names/Closest.antt =====
-- A name with no table is that of the one column with the name in the closest query that has it.
use ydbocto.Names.{
  Entry, Table, Match, no_match, ambiguous, one_match, column, ambiguous_column_name,
  unknown_column_name, same_name, is_named, match_again, match_column_in_table, Qualified,
  find_again, find_by_column,
}
use ydbocto.Prelude.{
  ℕ, ◌≤◌, ◌≡◌, refl, Bool, false, ◌||◌, List, [], ◌∷◌, ◌++◌, map, arith, ◌==◌, if◌then◌else◌,
  length, All, ◌<◌, ap, ◌∙◌, ◌⊎◌, inl, inr, ◌&&◌, ltb, Bool-cases,
}
use ydbocto.Rocto.Bytes.{Bytes}
use ydbocto.Types.Operations.Arithmetic.{found}

-- The columns of a table that have the name.
unfoldable pub columns_named : Bytes → List Entry → List Entry
unfolding is_named same_name
columns_named name [] = []
columns_named name (e ∷ es) =
    if is_named name e.alias then e ∷ columns_named name es else columns_named name es

-- Every column with the name, of all the tables in order.
unfoldable pub candidates : Bytes → List Table → List (Table × Entry)
unfolding columns_named
candidates name [] = []
candidates name (t ∷ ts) =
    map (λ e. (t, e)) (columns_named name t.column_list) ++ candidates name ts

-- Whether one of the candidates belongs to the query.
unfoldable pub has_level : ℕ → List (Table × Entry) → Bool
has_level n [] = false
has_level n ((t, e) ∷ cs) = t.level == n || has_level n cs

-- The rule: the first candidate is in the closest query, and has to be the only one there.
unfoldable pub resolved : List (Table × Entry) → Qualified
unfolding has_level
resolved [] = unknown_column_name
resolved ((t, e) ∷ cs) = if has_level t.level cs then ambiguous_column_name else column t e

-- The tables stand from the innermost query outwards.
abbrev pub IsNested : List Table → Type 0
IsNested [] = Unit
IsNested (t ∷ ts) = All (λ u. t.level ≤ u.level) ts × IsNested ts

-- No table outside of the innermost query, which is number 0, has the name twice.
abbrev pub IsClear : Bytes → List Table → Type 0
IsClear name = All (λ t. (t.level ≡ 0) ⊎ (length (columns_named name t.column_list) ≤ 1))

-- What the columns with the name say of `match_column_in_table`.
unfoldable pub match_of : List Entry → Match
match_of [] = no_match
match_of (e ∷ []) = one_match e
match_of (e ∷ f ∷ es) = ambiguous

match_again-columns_named :
    (name : Bytes) (found : Entry) (es : List Entry)
    → match_again name found es ≡ match_of (found ∷ columns_named name es)
unfolding match_again columns_named match_of
match_again-columns_named name found [] = refl
match_again-columns_named name found (e ∷ es) =
    let h = match_again-columns_named name found es in ground (arith, h)

pub match_column_in_table-columns_named :
    (name : Bytes) (es : List Entry)
    → match_column_in_table name es ≡ match_of (columns_named name es)
unfolding match_column_in_table columns_named match_of
match_column_in_table-columns_named name [] = refl
match_column_in_table-columns_named name (e ∷ es) =
    let h = match_column_in_table-columns_named name es in
    let k = match_again-columns_named name e es in ground (arith, h, k)

has_level-append :
    (n : ℕ) (cs ds : List (Table × Entry))
    → has_level n (cs ++ ds) ≡ (has_level n cs || has_level n ds)
unfolding has_level
has_level-append n [] ds = refl
has_level-append n ((t, e) ∷ cs) ds = let h = has_level-append n cs ds in ground (arith, h)

has_level-map :
    (n : ℕ) (t : Table) (es : List Entry)
    → has_level n (map (λ e. (t, e)) es) ≡ (t.level == n && ltb 0 (length es))
unfolding has_level
has_level-map n t [] = ground arith
has_level-map n t (e ∷ es) = let h = has_level-map n t es in ground (arith, h)

has_level-candidates :
    (name : Bytes) (n : ℕ) (t : Table) (ts : List Table)
    → has_level n (candidates name (t ∷ ts)) ≡ (
        (t.level == n && ltb 0 (length (columns_named name t.column_list)))
        || has_level n (candidates name ts))
unfolding candidates
has_level-candidates name n t ts =
    has_level-append n (map (λ e. (t, e)) (columns_named name t.column_list)) (candidates name ts)
    ∙ ap (λ b. b || has_level n (candidates name ts))
        (has_level-map n t (columns_named name t.column_list))

pub has_level_far :
    (name : Bytes) (n : ℕ) (ts : List Table)
    → All (λ t. n < t.level) ts
    → has_level n (candidates name ts) ≡ false
unfolding has_level candidates
has_level_far name n [] h = refl
has_level_far name n (t ∷ ts) h =
    let a = has_level-candidates name n t ts in
    let b = has_level_far name n ts h.1 in ground (arith, a, b, h.0)

-- Three ways for the columns of a table that have the name.
pub columns_cases :
    (es : List Entry)
    → (es ≡ [])
      ⊎ ((e : Entry) × (es ≡ e ∷ []))
      ⊎ ((e : Entry) × (f : Entry) × (gs : List Entry) × (es ≡ e ∷ f ∷ gs))
columns_cases [] = inl refl
columns_cases (e ∷ []) = inr (inl (e, refl))
columns_cases (e ∷ f ∷ gs) = inr (inr (e, f, gs, refl))

All_lt : (m n : ℕ) (ts : List Table) → m < n → All (λ u. n ≤ u.level) ts → All (λ u. m < u.level) ts
All_lt m n [] h a = tt
All_lt m n (t ∷ ts) h a = (omega (arith, h, a.0), All_lt m n ts h a.1)

find_again-has_level :
    (name : Bytes) (t : Table) (e : Entry) (us : List Table)
    → IsNested (t ∷ us)
    → IsClear name us
    → find_again name t e us
      ≡ (if has_level t.level (candidates name us) then ambiguous_column_name else column t e)
unfolding find_again match_of
find_again-has_level name t e [] n c = let h = has_level_far name t.level [] tt in rw h refl
find_again-has_level name t e (u ∷ us) n c =
    let m = match_column_in_table-columns_named name u.column_list in
    let l = has_level-candidates name t.level u us in
    elim (columns_cases (columns_named name u.column_list)) [
      | inl a ↦
          let h = find_again-has_level name t e us (n.0.1, n.1.1) c.1 in ground (arith, a, m, l, h)
      | inr (inl (f, a)) ↦
          let far = λ (x : t.level < u.level).
            has_level_far name t.level us (All_lt t.level u.level us x n.1.0) in
          elim (Bool-cases (u.level == t.level)) [
            | inl x ↦ ground (arith, a, m, l, x)
            | inr x ↦ let y = far (ground (arith, x, n.0.0)) in ground (arith, a, m, l, x, y)
          ]
      | inr (inr (f, g, gs, a)) ↦ ground (arith, a, m, l, c.0, n.0.0)
    ]

-- Where tables stand from the innermost query outwards, and none but those of the innermost query has the name twice, a
-- name with no table is that of the only column with the name in the closest query that has one; it is
-- ambiguous when that query has several, and unknown when no query has one.
pub find_by_column-resolved :
    (name : Bytes) (ts : List Table)
    → IsNested ts
    → IsClear name ts
    → find_by_column name ts ≡ resolved (candidates name ts)
unfolding find_by_column resolved candidates has_level match_of
find_by_column-resolved name [] n c = refl
find_by_column-resolved name (t ∷ ts) n c =
    let m = match_column_in_table-columns_named name t.column_list in
    elim (columns_cases (columns_named name t.column_list)) [
      | inl a ↦ let h = find_by_column-resolved name ts n.1 c.1 in ground (arith, a, m, h)
      | inr (inl (f, a)) ↦ let h = find_again-has_level name t f ts n c.1 in ground (arith, a, m, h)
      | inr (inr (f, g, gs, a)) ↦ ground (arith, a, m)
    ]

pub resolved_single :
    (name : Bytes) (t : Table) (e : Entry) (ts : List Table)
    → columns_named name t.column_list ≡ e ∷ []
    → has_level t.level (candidates name ts) ≡ false
    → resolved (candidates name (t ∷ ts)) ≡ column t e
unfolding resolved candidates
resolved_single name t e ts a h = rw (a, h) refl
