-- ===== src/Rocto/Bind/Accepted.antt =====
-- What an accepted Bind message satisfies, where no parameter has a negative length.
use ydbocto.Prelude.{
  ℕ, zero, suc, ◌^◌, ◌≤◌, ◌<◌, ◌≡◌, ◌⊎◌, inl, inr, List, arith, Option-cases, length, All, Bool,
  drop, ◌*◌,
}
use ydbocto.Rocto.Bind.{
  read_codes, read_parms, Bind, ok, peek_long, read_result_codes, read_bind,
  result_col_format_codes, parm_format_codes,
}
use ydbocto.Rocto.Message.{Field, Result-cases, BaseMessage, peek16, peek16-total}
use ydbocto.Rocto.Bytes.{Bytes, read16, take_string}

-- The facts that src/rocto/handle_bind.c relies on.
pub record IsAccepted (b : Bind) : Type 0 where
  pub parm_codes : All (λ c. c ≤ 1) b.parm_format_codes
  pub result_codes : All (λ c. c ≤ 1) b.result_col_format_codes
  pub one_or_all : (length b.parm_format_codes ≤ 1) ⊎ (length b.parm_format_codes ≡ length b.parms)
  pub few_codes : length b.parm_format_codes ≤ length b.parms
  pub few_parms : length b.parms < 2 ^ 15
  pub few_results : length b.result_col_format_codes < 2 ^ 15

read_codes-All :
    (f : Field) (n : ℕ) (r : Bytes) (cs : List ℕ)
    → read_codes f n r ≡ ok cs
    → (length cs ≡ n) × All (λ c. c ≤ 1) cs
unfolding read_codes
read_codes-All f zero r cs h = ground arith
read_codes-All f (suc n) r cs h = elim (Option-cases (read16 r)) [
  | inl x ↦ ground (arith, x)
  | inr ((c, rest), x) ↦ elim (Result-cases (read_codes f n rest)) [
    | inl (us, y) ↦ ground (arith, x, y, read_codes-All f n rest us y)
    | inr (inl (e, y)) ↦ ground (arith, x, y)
    | inr (inr y) ↦ ground (arith, x, y)
  ]
]

length-read_parms :
    (k : ℕ) (r : Bytes) (ps : List Bytes) (rest : Bytes)
    → read_parms k r ≡ ok (ps, rest)
    → length ps ≡ k
unfolding read_parms
length-read_parms zero r ps rest h = ground arith
length-read_parms (suc k) r ps rest h = elim (Result-cases (peek_long 4 r)) [
  | inl (n, x) ↦ elim (Result-cases (read_parms k (drop n (drop 4 r)))) [
    | inl ((qs, u), y) ↦ ground (arith, x, y, length-read_parms k (drop n (drop 4 r)) qs u y)
    | inr (inl (e, y)) ↦ ground (arith, x, y)
    | inr (inr y) ↦ ground (arith, x, y)
  ]
  | inr (inl (e, x)) ↦ ground (arith, x)
  | inr (inr x) ↦ ground (arith, x)
]

record OfResults (cs : List ℕ) : Type 0 where
  codes : All (λ c. c ≤ 1) cs
  few : length cs < 2 ^ 15

read_result_codes-All :
    (r : Bytes) (cs : List ℕ) (done : Bool) → read_result_codes r ≡ ok (cs, done) → OfResults cs
unfolding read_result_codes
read_result_codes-All r cs done h = elim (Result-cases (peek16 4 r)) [
  | inl (j, x) ↦ elim (Result-cases (read_codes result_col_format_codes j (drop 2 r))) [
    | inl (us, y) ↦ ground (arith, x, y, read_codes-All result_col_format_codes j (drop 2 r) us y)
    | inr (inl (e, y)) ↦ ground (arith, x, y)
    | inr (inr y) ↦ ground (arith, x, y)
  ]
  | inr (inl (e, x)) ↦ ground (arith, x)
  | inr (inr x) ↦ ground (arith, x)
]

-- Of a Bind message that is accepted, and has no parameter whose length is negative, which sends the reader back over
-- what it has read and is not followed here, the format codes are 0 and 1 only, the parameter format codes are none, one
-- or one for each parameter, and the counts are below 2^15.
pub read_bind-IsAccepted : (m : BaseMessage) (b : Bind) → read_bind m ≡ ok b → IsAccepted b
unfolding read_bind
read_bind-IsAccepted m b h = elim (Option-cases (take_string m.bytes)) [
  | inl x ↦ ground (arith, x)
  | inr ((d, r1), x1) ↦ elim (Option-cases (take_string r1)) [
    | inl x ↦ ground (arith, x1, x)
    | inr ((q, r2), x2) ↦
        let (n, x3) = peek16-total 4 r2 (omega arith) in
        let r3 = drop (2 * n) (drop 2 r2) in
        let (k, x4) = peek16-total 4 r3 (omega arith) in
        elim (Result-cases (read_codes parm_format_codes n (drop 2 r2))) [
          | inr (inl (e, x)) ↦ ground (arith, x1, x2, x3, x)
          | inr (inr x) ↦ ground (arith, x1, x2, x3, x)
          | inl (cs, x5) ↦ elim (Result-cases (read_parms k (drop 2 r3))) [
            | inr (inl (e, x)) ↦ ground (arith, x1, x2, x3, x4, x5, x)
            | inr (inr x) ↦ ground (arith, x1, x2, x3, x4, x5, x)
            | inl ((ps, r4), x6) ↦ elim (Result-cases (read_result_codes r4)) [
              | inr (inl (e, x)) ↦ ground (arith, x1, x2, x3, x4, x5, x6, x)
              | inr (inr x) ↦ ground (arith, x1, x2, x3, x4, x5, x6, x)
              | inl ((us, done), x7) ↦
                  let f1 = read_codes-All parm_format_codes n (drop 2 r2) cs x5 in
                  let f2 = length-read_parms k (drop 2 r3) ps r4 x6 in
                  let f3 = read_result_codes-All r4 us done x7 in
                  ground (arith, x1, x2, x3, x4, x5, x6, x7, f1, f2, f3.codes, f3.few)
            ]
          ]
        ]
  ]
]
