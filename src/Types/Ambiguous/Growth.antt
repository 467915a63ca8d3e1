-- ===== src/Types/Ambiguous/Growth.antt =====
-- The array of parameter types grows in front of a write: the note of a type is within the array.
use ydbocto.Types.{PsqlTypeOid, SqlValueType, get_psql_type_from_sqlvaluetype}
use ydbocto.Types.Ambiguous.{
  ParseContext, note_parameter, int16_max, unset, double_array_allocation, expand_array_allocation,
  grown, set_type,
}
use ydbocto.Prelude.{
  [], ℕ, zero, suc, ◌-◌, ◌≤◌, ◌<◌, ◌≡◌, refl, ap, ◌∙◌, Option, some, List, ◌∷◌, ◌++◌, arith, length,
  ◌*◌, ◌⊎◌, inl, inr, true, false, ltb, leb, ◌==◌, if◌then◌else◌, Bool-cases, length-append, sym,
  none,
}

length-unset : (n : ℕ) → length (unset n) ≡ n
unfolding unset
length-unset zero = refl
length-unset (suc n) = ap suc (length-unset n)

length-double_array_allocation :
    (types : List (Option PsqlTypeOid))
    → length types ≤ int16_max
    → (length (double_array_allocation types) ≤ int16_max)
      × ((length (double_array_allocation types) ≡ int16_max)
          ⊎ (length (double_array_allocation types) ≡ length types * 2))
unfolding double_array_allocation
length-double_array_allocation types h =
    let size = length types in
    let new_size = if ltb int16_max (size * 2) then int16_max else size * 2 in
    let a = length-append types (unset (new_size - size)) in
    let b = length-unset (new_size - size) in ground (arith, a, b)

length-expand_array_allocation :
    (num : ℕ) (types : List (Option PsqlTypeOid))
    → length types ≤ num
    → length (expand_array_allocation num types) ≡ num
unfolding expand_array_allocation
length-expand_array_allocation num types h =
    let a = length-append types (unset (num - length types)) in
    let b = length-unset (num - length types) in ground (arith, a, b)

length-grown :
    (num : ℕ) (types : List (Option PsqlTypeOid))
    → 0 < num
    → num ≤ int16_max
    → 0 < length types
    → length types ≤ int16_max
    → (num ≤ length (grown num types)) × (length (grown num types) ≤ int16_max)
unfolding grown
length-grown num types a b c d =
    let p = length-double_array_allocation types d in
    let k : ltb (2 * length types) num ≡ true → length types ≤ num = λ x. ground (arith, x) in
    let q =
      λ (x : ltb (2 * length types) num ≡ true). length-expand_array_allocation num types (k x) in
    let r = λ (x : ltb (2 * length types) num ≡ true).
      length-double_array_allocation (expand_array_allocation num types) (omega (arith, q x, b)) in
    elim (Bool-cases (ltb (2 * length types) num)) [
      | inl x ↦ let y = q x in let z = r x in ground (arith, x, y, z)
      | inr x ↦ ground (arith, x, p)
    ]

-- The type that the array has for a parameter, by the index: none where it is not known, as behind the end.
pub slot : List (Option PsqlTypeOid) → ℕ → Option PsqlTypeOid
slot [] i = none
slot (x ∷ xs) zero = x
slot (x ∷ xs) (suc i) = slot xs i

slot-unset : (n i : ℕ) → slot (unset n) i ≡ none
unfolding slot unset
slot-unset zero i = refl
slot-unset (suc n) zero = refl
slot-unset (suc n) (suc i) = slot-unset n i

slot-append : (xs : List (Option PsqlTypeOid)) (n i : ℕ) → slot (xs ++ unset n) i ≡ slot xs i
unfolding slot
slot-append [] n i = slot-unset n i
slot-append (x ∷ xs) n zero = refl
slot-append (x ∷ xs) n (suc i) = slot-append xs n i

slot-double_array_allocation :
    (types : List (Option PsqlTypeOid)) (i : ℕ)
    → slot (double_array_allocation types) i ≡ slot types i
unfolding double_array_allocation
slot-double_array_allocation types i =
    slot-append types
      ((if ltb int16_max (length types * 2) then int16_max else length types * 2) - length types) i

slot-grown :
    (num : ℕ) (types : List (Option PsqlTypeOid)) (i : ℕ) → slot (grown num types) i ≡ slot types i
unfolding grown expand_array_allocation
slot-grown num types i =
    let more = types ++ unset (num - length types) in
    let a = slot-append types (num - length types) i in
    let b = slot-double_array_allocation more i in
    let c = slot-double_array_allocation types i in
    elim (Bool-cases (leb (length types) num)) [
      | inl y ↦ elim (Bool-cases (ltb (2 * length types) num)) [
        | inl z ↦ rw (y, z) (b ∙ a)
        | inr z ↦ rw (y, z) c
      ]
      | inr y ↦ rw (y) refl
    ]

-- A write within the array, and what it leaves as it was.
record Written (i : ℕ) (t : PsqlTypeOid) (xs : List (Option PsqlTypeOid)) : Type 0 where
  ys : List (Option PsqlTypeOid)
  written : set_type i t xs ≡ some ys
  size : length ys ≡ length xs
  slots : (j : ℕ) → slot ys j ≡ (if j == i then some t else slot xs j)

slot-cons :
    (i j : ℕ) (t : PsqlTypeOid) (x : Option PsqlTypeOid) (xs ys : List (Option PsqlTypeOid))
    → ((k : ℕ) → slot ys k ≡ (if k == i then some t else slot xs k))
    → slot (x ∷ ys) j ≡ (if j == suc i then some t else slot (x ∷ xs) j)
unfolding slot
slot-cons i zero t x xs ys h = ground arith
slot-cons i (suc j) t x xs ys h = ground (arith, h j)

slot-first :
    (j : ℕ) (t : PsqlTypeOid) (x : Option PsqlTypeOid) (xs : List (Option PsqlTypeOid))
    → slot (some t ∷ xs) j ≡ (if j == 0 then some t else slot (x ∷ xs) j)
unfolding slot
slot-first zero t x xs = ground arith
slot-first (suc j) t x xs = ground arith

set_type-Written :
    (i : ℕ) (t : PsqlTypeOid) (xs : List (Option PsqlTypeOid)) → i < length xs → Written i t xs
unfolding set_type
set_type-Written i t [] h = ground (arith, h)
set_type-Written zero t (x ∷ xs) h = record {
  ys = some t ∷ xs;
  written = refl;
  size = refl;
  slots = λ j. slot-first j t x xs;
}
set_type-Written (suc i) t (x ∷ xs) h =
    let r = set_type-Written i t xs (ground (arith, h)) in
    record {
      ys = x ∷ r.ys;
      written = ground (arith, r.written);
      size = ap suc r.size;
      slots = λ j. slot-cons i j t x xs r.ys r.slots;
    }

-- The type of a parameter, numbered from 1 to INT16_MAX, is noted within an array that was not empty nor longer than
-- INT16_MAX; the array then has that type for this parameter, what it had for any other one, and none for a
-- parameter behind its old end, and does not outgrow INT16_MAX.
pub note_parameter_lem :
    (context : ParseContext) (t : SqlValueType) (i : ℕ)
    → 0 < context.cur_param_num
    → context.cur_param_num ≤ int16_max
    → 0 < length context.types
    → length context.types ≤ int16_max
    → (after : ParseContext) × (note_parameter context t ≡ some after)
      × (slot after.types i ≡ (
          if i == context.cur_param_num - 1
          then some (get_psql_type_from_sqlvaluetype t)
          else slot context.types i))
      × (context.cur_param_num ≤ length after.types)
      × (length after.types ≤ int16_max)
unfolding note_parameter
note_parameter_lem c t i a b d e =
    let l = length-grown c.cur_param_num c.types a b d e in
    let k = slot-grown c.cur_param_num c.types i in
    let r =
      set_type-Written (c.cur_param_num - 1) (get_psql_type_from_sqlvaluetype t)
        (grown c.cur_param_num c.types) (omega (arith, l, a)) in
    let not_zero : (c.cur_param_num == 0) ≡ false = ground (arith, a) in
    (
      record c { types = r.ys },
      rw (not_zero, r.written) refl,
      rw (sym k) (r.slots i),
      omega (arith, r.size, l),
      omega (arith, r.size, l),
    )
