-- ===== src/Rocto/Startup/Passes.antt =====
-- The two passes over the parameters of a StartupMessage agree.
use ydbocto.Prelude.{
  ℕ, zero, suc, ◌+◌, ◌<◌, ◌≡◌, refl, ◌≢◌, inl, inr, some, List, [], ◌∷◌, arith, Option-cases,
  length, length-append, ap, ◌++◌, All, ◌⊎◌, ◌^◌,
}
use ydbocto.Rocto.Startup.{count_parms, fill_parms, check_end, Parm, read_startup_message}
use ydbocto.Rocto.Message.{Result-cases, ok, stray}
use ydbocto.Rocto.Bytes.{Bytes, take_string, take_string_sound, NoNul}
use ydbocto.Rocto.Read.Encode.{cstring}
use ydbocto.Optimizer.Joins.{count}

-- The parameters as the protocol lays them out.
abbrev pub put_parms : List Parm → Bytes → Bytes
put_parms [] rest = rest
put_parms (p ∷ ps) rest = cstring p.name (cstring p.value (put_parms ps rest))

pub record IsParm (p : Parm) : Type 0 where
  pub name_string : NoNul p.name
  pub name_ne_nil : 0 < length p.name
  pub value_string : NoNul p.value

-- What the second pass makes of a body that the first one counted.
pub record Filled (fuel count : ℕ) (body rest : Bytes) (ps : List Parm) : Type 0 where
  pub fills : fill_parms fuel count body ≡ ok ps
  pub counts : length ps ≡ count
  pub layout : body ≡ put_parms ps rest
  pub names : All IsParm ps
  pub stops : (rest ≡ []) ⊎ ((t : Bytes) × (rest ≡ 0 ∷ t))

string-pos : (n : Bytes) (c : ℕ) (b r : Bytes) → suc c ∷ b ≡ n ++ 0 ∷ r → 0 < length n
string-pos [] c b r h = absurd (ground arith)
string-pos (x ∷ n) c b r h = omega arith

Filled-cons :
    (fuel count c : ℕ) (b n r1 v r2 rest : Bytes) (ps : List Parm)
    → take_string (suc c ∷ b) ≡ some (n, r1)
    → take_string r1 ≡ some (v, r2)
    → Filled fuel count r2 rest ps
    → Filled (suc fuel) (suc count) (suc c ∷ b) rest (record { name = n; value = v } ∷ ps)
unfolding fill_parms
Filled-cons fuel count c b n r1 v r2 rest ps x1 x2 f =
    let (l1, n1) = take_string_sound (suc c ∷ b) x1 in
    let (l2, n2) = take_string_sound r1 x2 in
    record {
      fills = ground (arith, x1, x2, f.fills);
      counts = ap suc f.counts;
      layout = ground (arith, l1, l2, f.layout);
      stops = f.stops;
      names = (
        record { name_string = n1; name_ne_nil = string-pos n c b r1 l1; value_string = n2 },
        f.names,
      );
    }

pub count_parms-Filled :
    (fuel : ℕ) (body : Bytes) (count : ℕ) (rest : Bytes)
    → count_parms fuel body ≡ ok (count, rest)
    → (ps : List Parm) × Filled fuel count body rest ps
unfolding count_parms
count_parms-Filled zero b count rest h = absurd (ground arith)
count_parms-Filled (suc fuel) [] count rest h = (
  [],
  unfold fill_parms in
      record {
        fills = refl;
        counts = ground arith;
        layout = ground arith;
        names = tt;
        stops = inl (ground arith);
      },
)
count_parms-Filled (suc fuel) (zero ∷ b) count rest h = (
  [],
  unfold fill_parms in
      record {
        fills = refl;
        counts = ground arith;
        layout = ground arith;
        names = tt;
        stops = inr (b, ground arith);
      },
)
count_parms-Filled (suc fuel) (suc c ∷ b) count rest h =
    elim (Option-cases (take_string (suc c ∷ b))) [
      | inl x ↦ absurd (ground (arith, x))
      | inr ((n, r1), x1) ↦ elim (Option-cases (take_string r1)) [
        | inl x ↦ absurd (ground (arith, x1, x))
        | inr ((v, r2), x2) ↦ elim (Result-cases (count_parms fuel r2)) [
          | inr (inl (e, x)) ↦ absurd (ground (arith, x1, x2, x))
          | inr (inr x) ↦ absurd (ground (arith, x1, x2, x))
          | inl ((k, u), x3) ↦
              let (ps, f) = count_parms-Filled fuel r2 k u x3 in
              let e : (count ≡ suc k) × (rest ≡ u) = ground (arith, x1, x2, x3) in
              (
                record { name = n; value = v } ∷ ps,
                rw (e.0, e.1) (Filled-cons fuel k c b n r1 v r2 u ps x1 x2 f),
              )
        ]
      ]
    ]

take_string-shorter : (b : Bytes) {s r : Bytes} → take_string b ≡ some (s, r) → length r < length b
take_string-shorter b {s} {r} h = ground (arith, take_string_sound b h, length-append s (0 ∷ r))

-- With more fuel than bytes the first pass comes to an end.
count_parms-ne-stray :
    (fuel : ℕ) (body : Bytes) → length body < fuel → count_parms fuel body ≢ stray
unfolding count_parms
count_parms-ne-stray zero b l = absurd (omega arith)
count_parms-ne-stray (suc fuel) [] l = λ h. cc
count_parms-ne-stray (suc fuel) (c ∷ b) l = elim (Option-cases (take_string (c ∷ b))) [
  | inl x ↦ ground (arith, x)
  | inr ((n, r1), x1) ↦ elim (Option-cases (take_string r1)) [
    | inl x ↦ ground (arith, x1, x)
    | inr ((v, r2), x2) ↦ ground (
      arith,
      x1,
      x2,
      take_string-shorter (c ∷ b) x1,
      take_string-shorter r1 x2,
      count_parms-ne-stray fuel r2,
    )
  ]
]

check_end-ne-stray : (count : ℕ) (rest : Bytes) → check_end count rest ≢ stray
unfolding check_end
check_end-ne-stray count [] = λ h. cc
check_end-ne-stray count (c ∷ rest) = ground arith

-- On a message whose body is as long as its length field says, which is below 2^31, no read or write leaves its block:
-- the second pass fills exactly the array that the first one counted.
pub read_startup_message-ne-stray :
    (version : ℕ) (body : Bytes)
    → length body + 8 < 2 ^ 31
    → read_startup_message (length body + 8) version body ≢ stray
unfolding read_startup_message
read_startup_message-ne-stray version body l =
    elim (Result-cases (count_parms (suc (length body)) body)) [
      | inl ((count, rest), x) ↦
          let (ps, f) = count_parms-Filled (suc (length body)) body count rest x in
          ground (arith, x, f.fills, check_end-ne-stray count rest)
      | inr (inl (e, x)) ↦ ground (arith, x)
      | inr (inr x) ↦ ground (arith, x, count_parms-ne-stray (suc (length body)) body (omega arith))
    ]
