-- ===== src/Dates/Zones.antt =====
-- Time zones: a sign and hours, with minutes and seconds or without, of at most 15:59:59.
use mathlib.Core.Path.{subst}
use ydbocto.Prelude.{
  [], ℕ, ◌+◌, ◌-◌, ◌*◌, ◌/◌, ◌%◌, ◌≤◌, ◌≡◌, ◌↔◌, true, some, ◌∷◌, suc, refl, ap, ◌⊎◌, inl, inr,
  arith, Option-cases,
}
use ydbocto.Dates.{is_number, is_gmt_offset, is_time_zone, zone_char, zone_loop}
use ydbocto.Rocto.Bytes.{Bytes}
use ydbocto.Dates.Ranges.{two}

pub data IsZone (r : Bytes) : Type 0 where
  absent : r ≡ [] → IsZone r
  hours : (s h : ℕ) → is_gmt_offset s ≡ true → h ≤ 15 → r ≡ s ∷ two h [] → IsZone r
  minutes :
      (s h m : ℕ)
      → is_gmt_offset s ≡ true
      → h ≤ 15
      → m ≤ 59
      → r ≡ s ∷ two h (b':' ∷ two m [])
      → IsZone r
  seconds :
      (s h m k : ℕ)
      → is_gmt_offset s ≡ true
      → h ≤ 15
      → m ≤ 59
      → k ≤ 59
      → r ≡ s ∷ two h (b':' ∷ two m (b':' ∷ two k []))
      → IsZone r

abbrev number : ℕ → ℕ → ℕ
number a b = (a - b'0') * 10 + (b - b'0')

is_number-bounds : (a : ℕ) → is_number a ≡ true → (48 ≤ a) × (a ≤ 57)
is_number-bounds a h = ground arith

two-number :
    (a b : ℕ) (r : Bytes) → is_number a ≡ true → is_number b ≡ true → two (number a b) r ≡ a ∷ b ∷ r
two-number a b r h k =
    let (la, ua) = is_number-bounds a h in
    let (lb, ub) = is_number-bounds b k in
    let p : number a b / 10 + b'0' ≡ a = omega arith in
    let q : number a b % 10 + b'0' ≡ b = omega arith in rw (p, q)

-- What the tests of two digits at the index `i` leave behind.
record Digits (high a b : ℕ) : Type 0 where
  first : is_number a ≡ true
  second : is_number b ≡ true
  small : number a b ≤ high

zone_char-hour : (p a b : ℕ) → zone_char 0 p a ≡ true → zone_char 1 a b ≡ true → Digits 15 a b
unfolding zone_char
zone_char-hour p a b h k = record {
  first = ground arith;
  second = ground arith;
  small = ground arith;
}

zone_char-minute : (p a b : ℕ) → zone_char 3 p a ≡ true → zone_char 4 a b ≡ true → Digits 59 a b
unfolding zone_char
zone_char-minute p a b h k = record {
  first = ground arith;
  second = ground arith;
  small = ground arith;
}

zone_char-second : (p a b : ℕ) → zone_char 6 p a ≡ true → zone_char 7 a b ≡ true → Digits 59 a b
unfolding zone_char
zone_char-second p a b h k = record {
  first = ground arith;
  second = ground arith;
  small = ground arith;
}

zone_char-colon : (i p c : ℕ) → (i ≡ 2) ⊎ (i ≡ 5) → zone_char i p c ≡ true → c ≡ b':'
unfolding zone_char
zone_char-colon i p c h k = ground arith

zone_loop-cons :
    (n i p c : ℕ) (r t : Bytes)
    → zone_loop (suc n) i p (c ∷ r) ≡ some t
    → (zone_char i p c ≡ true) × (zone_loop n (i + 1) c r ≡ some t)
unfolding zone_loop
zone_loop-cons n i p c r t h = ground arith

pub is_time_zone-loop :
    (s : ℕ) (r : Bytes)
    → is_time_zone (s ∷ r) ≡ some []
    → (is_gmt_offset s ≡ true) × (zone_loop 8 0 0 r ≡ some [])
unfolding is_time_zone
is_time_zone-loop s r h = elim (Option-cases (zone_loop 8 0 0 r)) [
  | inl x ↦ ground (arith, x)
  | inr ([], x) ↦ ground (arith, x)
  | inr (c ∷ t, x) ↦ ground (arith, x)
]

zone_loop-nil : (n i p : ℕ) → zone_loop (suc n) i p [] ≡ some [] → (i ≡ 2) ⊎ (i ≡ 5)
unfolding zone_loop
zone_loop-nil n i p h = ground arith

seconds_sound :
    (s h m p : ℕ) (r : Bytes)
    → is_gmt_offset s ≡ true
    → h ≤ 15
    → m ≤ 59
    → zone_loop 3 5 p r ≡ some []
    → IsZone (s ∷ two h (b':' ∷ two m r))
unfolding zone_loop
seconds_sound s h m p [] g a b e = minutes s h m g a b refl
seconds_sound s h m p (c ∷ []) g a b e = absurd (ground arith)
seconds_sound s h m p (c ∷ x ∷ []) g a b e = absurd (ground arith)
seconds_sound s h m p (c ∷ x ∷ y ∷ r) g a b e =
    let (k0, e0) = zone_loop-cons 2 5 p c (x ∷ y ∷ r) [] e in
    let (k1, e1) = zone_loop-cons 1 6 c x (y ∷ r) [] e0 in
    let (k2, e2) = zone_loop-cons 0 7 x y r [] e1 in
    let d = zone_char-second c x y k1 k2 in
    let l : r ≡ [] = ground (arith, e2) in
    let z : c ≡ b':' = zone_char-colon 5 p c (inr refl) k0 in
    seconds s h m (number x y) g a b d.small
      (ap (λ t. s ∷ two h (b':' ∷ two m t)) (rw (z, l, two-number x y [] d.first d.second)))

minutes_sound :
    (s h p : ℕ) (r : Bytes)
    → is_gmt_offset s ≡ true
    → h ≤ 15
    → zone_loop 6 2 p r ≡ some []
    → IsZone (s ∷ two h r)
unfolding zone_loop
minutes_sound s h p [] g a e = hours s h g a refl
minutes_sound s h p (c ∷ []) g a e = absurd (ground arith)
minutes_sound s h p (c ∷ x ∷ []) g a e = absurd (ground arith)
minutes_sound s h p (c ∷ x ∷ y ∷ r) g a e =
    let (k0, e0) = zone_loop-cons 5 2 p c (x ∷ y ∷ r) [] e in
    let (k1, e1) = zone_loop-cons 4 3 c x (y ∷ r) [] e0 in
    let (k2, e2) = zone_loop-cons 3 4 x y r [] e1 in
    let d = zone_char-minute c x y k1 k2 in
    let z : c ≡ b':' = zone_char-colon 2 p c (inl refl) k0 in
    let same : b':' ∷ two (number x y) r ≡ c ∷ x ∷ y ∷ r =
      rw (z, two-number x y r d.first d.second) in
    subst (λ t. IsZone (s ∷ two h t)) same (seconds_sound s h (number x y) y r g a d.small e2)

hours_sound :
    (s : ℕ) (r : Bytes) → is_gmt_offset s ≡ true → zone_loop 8 0 0 r ≡ some [] → IsZone (s ∷ r)
unfolding zone_loop
hours_sound s [] g h = absurd (ground arith)
hours_sound s (a ∷ []) g h = absurd (ground arith)
hours_sound s (a ∷ b ∷ r) g h =
    let (x, h1) = zone_loop-cons 7 0 0 a (b ∷ r) [] h in
    let (y, h2) = zone_loop-cons 6 1 a b r [] h1 in
    let d = zone_char-hour 0 a b x y in
    subst (λ t. IsZone (s ∷ t)) (two-number a b r d.first d.second)
      (minutes_sound s (number a b) b r g d.small h2)

is_time_zone_sound : (r : Bytes) → is_time_zone r ≡ some [] → IsZone r
is_time_zone_sound [] h = absent refl
is_time_zone_sound (s ∷ r) h = let (g, e) = is_time_zone-loop s r h in hours_sound s r g e

zone_char-two :
    (i prev high n : ℕ)
    → ((i ≡ 0) × (high ≡ 15)) ⊎ (((i ≡ 3) ⊎ (i ≡ 6)) × (high ≡ 59))
    → n ≤ high
    → (zone_char i prev (n / 10 + b'0') ≡ true)
      × (zone_char (i + 1) (n / 10 + b'0') (n % 10 + b'0') ≡ true)
unfolding zone_char
zone_char-two i prev high n k h =
    let a : n / 10 ≤ 9 = ground arith in
    let b : n % 10 ≤ 9 = omega arith in
    let c : n / 10 * 10 + n % 10 ≡ n = omega arith in ground arith

zone_loop-two :
    (left i prev high n : ℕ) (r : Bytes)
    → ((i ≡ 0) × (high ≡ 15)) ⊎ (((i ≡ 3) ⊎ (i ≡ 6)) × (high ≡ 59))
    → n ≤ high
    → zone_loop (suc (suc left)) i prev (two n r) ≡ zone_loop left (i + 2) (n % 10 + b'0') r
unfolding zone_loop
zone_loop-two left i prev high n r k h =
    let (x, y) = zone_char-two i prev high n k h in ground (arith, x, y)

zone_loop-colon :
    (left i prev : ℕ) (r : Bytes)
    → (i ≡ 2) ⊎ (i ≡ 5)
    → zone_loop (suc left) i prev (b':' ∷ r) ≡ zone_loop left (i + 1) b':' r
unfolding zone_loop zone_char
zone_loop-colon left i prev r k = ground arith

is_time_zone_complete : (r : Bytes) → IsZone r → is_time_zone r ≡ some []
unfolding is_time_zone zone_loop
is_time_zone_complete r (absent e) = rw e
is_time_zone_complete r (hours s h g a e) =
    let x = zone_loop-two 6 0 0 15 h [] (inl (refl, refl)) a in ground (arith, e, g, x)
is_time_zone_complete r (minutes s h m g a b e) =
    let x = zone_loop-two 6 0 0 15 h (b':' ∷ two m []) (inl (refl, refl)) a in
    let y = zone_loop-colon 5 2 (h % 10 + b'0') (two m []) (inl refl) in
    let z = zone_loop-two 3 3 b':' 59 m [] (inr (inl refl, refl)) b in ground (arith, e, g, x, y, z)
is_time_zone_complete r (seconds s h m k g a b c e) =
    let x = zone_loop-two 6 0 0 15 h (b':' ∷ two m (b':' ∷ two k [])) (inl (refl, refl)) a in
    let y = zone_loop-colon 5 2 (h % 10 + b'0') (two m (b':' ∷ two k [])) (inl refl) in
    let z = zone_loop-two 3 3 b':' 59 m (b':' ∷ two k []) (inr (inl refl, refl)) b in
    let u = zone_loop-colon 2 5 (m % 10 + b'0') (two k []) (inr refl) in
    let v = zone_loop-two 0 6 b':' 59 k [] (inr (inr refl, refl)) c in
    ground (arith, e, g, x, y, z, u, v)

-- A literal has a zone, or none, exactly if the rest of it is empty, or is a zone.
pub is_time_zone_iff : (r : Bytes) → (is_time_zone r ≡ some []) ↔ IsZone r
is_time_zone_iff r = (is_time_zone_sound r, is_time_zone_complete r)
