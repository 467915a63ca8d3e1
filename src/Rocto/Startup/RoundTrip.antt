-- ===== src/Rocto/Startup/RoundTrip.antt =====
-- A StartupMessage is accepted exactly if the protocol lays it out.
use ydbocto.Prelude.{
  ℕ, zero, suc, ◌+◌, ◌<◌, ◌≡◌, refl, ◌↔◌, List, [], ◌∷◌, ◌++◌, arith, length, All, length-append,
  ◌⊎◌, inl, inr, ◌^◌,
}
use ydbocto.Rocto.Startup.{
  read_parms, Parm, count_parms, fill_parms, read_startup_message, ok, check_end,
}
use ydbocto.Rocto.Bytes.{Bytes, NoNul, take_string-append}
use ydbocto.Rocto.Startup.Passes.{IsParm, put_parms, count_parms-Filled}
use ydbocto.Rocto.Read.Encode.{cstring}
use ydbocto.Rocto.Message.{Result-cases, ◌>>◌}
use ydbocto.Optimizer.Joins.{count}

-- The parameters, and the NUL that ends their list.
abbrev pub startup_body : List Parm → Bytes
startup_body ps = put_parms ps (0 ∷ [])

take_string-cons :
    (s r : Bytes) → NoNul s → 0 < length s → (c : ℕ) × (b : Bytes) × (cstring s r ≡ suc c ∷ b)
take_string-cons [] r h l = absurd (omega arith)
take_string-cons (zero ∷ s) r h l = absurd (omega (arith, h.0))
take_string-cons (suc c ∷ s) r h l = (c, cstring s r, refl)

count_parms-put_parms :
    (ps : List Parm) (fuel : ℕ)
    → All IsParm ps
    → length (startup_body ps) < fuel
    → count_parms fuel (startup_body ps) ≡ ok (length ps, 0 ∷ [])
unfolding count_parms
count_parms-put_parms ps zero h l = absurd (omega arith)
count_parms-put_parms [] (suc fuel) h l = refl
count_parms-put_parms (p ∷ ps) (suc fuel) h l =
    let rest = startup_body ps in
    let (c, b, e) =
      take_string-cons p.name (cstring p.value rest) h.0.name_string h.0.name_ne_nil in
    ground (
      arith,
      e,
      take_string-append p.name (cstring p.value rest) h.0.name_string,
      take_string-append p.value rest h.0.value_string,
      length-append p.name (0 ∷ (p.value ++ 0 ∷ rest)),
      length-append p.value (0 ∷ rest),
      count_parms-put_parms ps fuel h.1,
    )

fill_parms-put_parms :
    (ps : List Parm) (fuel : ℕ)
    → All IsParm ps
    → length (startup_body ps) < fuel
    → fill_parms fuel (length ps) (startup_body ps) ≡ ok ps
unfolding fill_parms
fill_parms-put_parms ps zero h l = absurd (omega arith)
fill_parms-put_parms [] (suc fuel) h l = refl
fill_parms-put_parms (p ∷ ps) (suc fuel) h l =
    let rest = startup_body ps in
    let (c, b, e) =
      take_string-cons p.name (cstring p.value rest) h.0.name_string h.0.name_ne_nil in
    ground (
      arith,
      e,
      take_string-append p.name (cstring p.value rest) h.0.name_string,
      take_string-append p.value rest h.0.value_string,
      length-append p.name (0 ∷ (p.value ++ 0 ∷ rest)),
      length-append p.value (0 ∷ rest),
      fill_parms-put_parms ps fuel h.1,
    )

startup_complete :
    (ps : List Parm) → 0 < length ps → All IsParm ps → read_parms (startup_body ps) ≡ ok ps
unfolding read_parms
startup_complete [] l h = absurd (omega arith)
startup_complete (p ∷ ps) l h =
    let fuel = suc (length (startup_body (p ∷ ps))) in
    rw (count_parms-put_parms (p ∷ ps) fuel h (omega arith))
      (rw (fill_parms-put_parms (p ∷ ps) fuel h (omega arith)) (ground arith))

-- What the tests between the passes leave.
rest-nul :
    (count : ℕ) (rest : Bytes) (qs ps : List Parm)
    → (rest ≡ []) ⊎ ((t : Bytes) × (rest ≡ 0 ∷ t))
    → (check_end count rest >> ok qs) ≡ ok ps
    → (rest ≡ 0 ∷ []) × (0 < count) × (qs ≡ ps)
unfolding check_end
rest-nul count [] qs ps s h = absurd (ground arith)
rest-nul count (c ∷ []) qs ps s h = ground arith
rest-nul count (c ∷ d ∷ t) qs ps s h = absurd (ground arith)

startup_sound :
    (body : Bytes) (ps : List Parm)
    → read_parms body ≡ ok ps
    → (body ≡ startup_body ps) × (0 < length ps) × All IsParm ps
unfolding read_parms
startup_sound body ps h = elim (Result-cases (count_parms (suc (length body)) body)) [
  | inr (inl (e, x)) ↦ ground (arith, x)
  | inr (inr x) ↦ ground (arith, x)
  | inl ((count, rest), x) ↦
      let (qs, f) = count_parms-Filled (suc (length body)) body count rest x in
      let e : (rest ≡ 0 ∷ []) × (0 < count) × (qs ≡ ps) =
        rest-nul count rest qs ps f.stops (ground (arith, x, f.fills)) in
      ground (arith, f.layout, f.names, f.counts, e)
]

length-startup_body : (ps : List Parm) → 0 < length ps → 0 < length (startup_body ps)
length-startup_body [] l = absurd (omega arith)
length-startup_body (p ∷ ps) l =
    omega (arith, length-append p.name (0 ∷ (p.value ++ 0 ∷ startup_body ps)))

-- A startup message of version 3.0, as long as its length field says, which is below 2^31, is accepted exactly if its
-- body lists at least one parameter, each a name that is not empty and a value, and ends with a
-- NUL; the parameters are then read in order.
pub read_startup_message_iff :
    (body : Bytes) (ps : List Parm)
    → length body + 8 < 2 ^ 31
    → (read_startup_message (length body + 8) 0x30000 body ≡ ok ps)
      ↔ ((body ≡ startup_body ps) × (0 < length ps) × All IsParm ps)
unfolding read_startup_message
read_startup_message_iff body ps l = (
  λ h. startup_sound body ps (ground arith),
  λ h. ground (arith, startup_complete ps h.1 h.2, length-startup_body ps h.1),
)
