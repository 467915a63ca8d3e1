-- ===== src/Optimizer/Joins/Counts.antt =====
-- Lists of tables, counted: what appending, replacing and swapping do to them.
use ydbocto.Optimizer.Joins.{count, replace, place}
use ydbocto.Prelude.{
  ℕ, suc, ◌+◌, ◌≤◌, ◌<◌, ◌≡◌, refl, inl, inr, false, List, [], ◌∷◌, ◌++◌, arith, ◌==◌,
  if◌then◌else◌, Bool-cases, length,
}

-- Every table is in the one list at most as often as in the other.
abbrev pub Within : List ℕ → List ℕ → Type 0
Within xs ys = (a : ℕ) → count a xs ≤ count a ys

-- A table is in two lists together as often as in each.
pub count-append :
    (table : ℕ) (front back : List ℕ)
    → count table (front ++ back) ≡ count table front + count table back
count-append table [] back = omega arith
count-append table (t ∷ front) back = let h = count-append table front back in omega (arith, h)

count-replace :
    (a d c : ℕ) (xs : List ℕ)
    → 0 < count d xs
    → count a (replace d c xs) + (if d == a then 1 else 0) ≡ count a xs + (if c == a then 1 else 0)
unfolding replace
count-replace a d c [] h = absurd (omega arith)
count-replace a d c (x ∷ xs) h = ground (arith, count-replace a d c xs)

length-replace : (d c : ℕ) (xs : List ℕ) → length (replace d c xs) ≡ length xs
unfolding replace
length-replace d c [] = refl
length-replace d c (x ∷ xs) = let h = length-replace d c xs in ground (arith, h)

Within-replace :
    (d c : ℕ) (ds cs : List ℕ)
    → (c == d) ≡ false
    → Within (d ∷ ds) (c ∷ cs)
    → (0 < count d cs) × Within ds (replace d c cs)
Within-replace d c ds cs n h =
    let e : 0 < count d cs = ground (arith, h d, n) in
    (e, λ a. let k = count-replace a d c cs e in ground (arith, h a, k))

pub count-place : (a : ℕ) (ds cs : List ℕ) → Within ds cs → count a (place ds cs) ≡ count a cs
unfolding place
count-place a [] cs h = refl
count-place a (d ∷ ds) [] h = ground (arith, h d)
count-place a (d ∷ ds) (c ∷ cs) h = elim (Bool-cases (c == d)) [
  | inl e ↦ let k = count-place a ds cs (λ x. ground (arith, h x, e)) in ground (arith, e, k)
  | inr e ↦
      let w = Within-replace d c ds cs e h in
      let k = count-place a ds (replace d c cs) w.1 in
      let l = count-replace a d c cs w.0 in ground (arith, e, k, l)
]

-- The sorted tables come first.
pub place-append : (ds cs : List ℕ) → Within ds cs → (rest : List ℕ) × (place ds cs ≡ ds ++ rest)
unfolding place
place-append [] cs h = (cs, refl)
place-append (d ∷ ds) [] h = absurd (ground (arith, h d))
place-append (d ∷ ds) (c ∷ cs) h = elim (Bool-cases (c == d)) [
  | inl e ↦
      (let (rest, k) = place-append ds cs (λ x. ground (arith, h x, e)) in
        (rest, ground (arith, e, k)))
  | inr e ↦
      (let w = Within-replace d c ds cs e h in
        let (rest, k) = place-append ds (replace d c cs) w.1 in (rest, ground (arith, e, k)))
]

pub length-place : (ds cs : List ℕ) → length (place ds cs) ≡ length cs
unfolding place
length-place [] cs = refl
length-place (d ∷ ds) [] = refl
length-place (d ∷ ds) (c ∷ cs) = elim (Bool-cases (c == d)) [
  | inl e ↦ let k = length-place ds cs in ground (arith, e, k)
  | inr e ↦
      let k = length-place ds (replace d c cs) in
      let l = length-replace d c cs in ground (arith, e, k, l)
]

remove : ℕ → List ℕ → List ℕ
remove d [] = []
remove d (x ∷ xs) = if x == d then xs else x ∷ remove d xs

count-remove :
    (a d : ℕ) (xs : List ℕ)
    → 0 < count d xs
    → count a (remove d xs) + (if d == a then 1 else 0) ≡ count a xs
unfolding remove
count-remove a d [] h = absurd (omega arith)
count-remove a d (x ∷ xs) h = ground (arith, count-remove a d xs)

length-remove : (d : ℕ) (xs : List ℕ) → 0 < count d xs → suc (length (remove d xs)) ≡ length xs
unfolding remove
length-remove d [] h = absurd (omega arith)
length-remove d (x ∷ xs) h = ground (arith, length-remove d xs)

-- A list within another one is not longer.
pub length-Within : (xs ys : List ℕ) → Within xs ys → length xs ≤ length ys
length-Within [] ys h = omega arith
length-Within (x ∷ xs) ys h =
    let e : 0 < count x ys = ground (arith, h x) in
    let k =
      length-Within xs (remove x ys)
        (λ a. let c = count-remove a x ys e in ground (arith, h a, c)) in
    let l = length-remove x ys e in omega (arith, k, l)
