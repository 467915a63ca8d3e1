-- ===== src/Rocto/Bind/RoundTrip.antt =====
-- A Bind message laid out by the protocol is read back as it was built, unless a parameter is NULL.
use ydbocto.Prelude.{
  ℕ, suc, ◌+◌, ◌-◌, ◌*◌, ◌^◌, ◌≤◌, ◌<◌, ◌≡◌, refl, ◌⊎◌, true, Option, none, some, List, [], ◌∷◌,
  ◌++◌, map, arith, length, drop, All, length-append, take-append, drop-append, ◌∙◌, length-map,
}
use ydbocto.Rocto.Message.{BaseMessage, psql_bind, Field, peek16-put16, ◌>>=◌}
use ydbocto.Rocto.Bytes.{Bytes, NoNul, put16, put32, read16-put16, read32-put32, take_string-append}
use ydbocto.Rocto.Read.Encode.{cstring}
use ydbocto.Rocto.Bind.{
  read_codes, peek_long, read_parms, read_result_codes, ok, result_col_format_codes, read_bind,
  parm_format_codes,
}

-- What a client sends; a parameter that is none is NULL.
pub record Request : Type 0 where
  pub dest : Bytes
  pub source : Bytes
  pub parm_format_codes : List ℕ
  pub parms : List (Option Bytes)
  pub result_col_format_codes : List ℕ

abbrev pub put_codes : List ℕ → Bytes → Bytes
put_codes [] rest = rest
put_codes (c ∷ cs) rest = put16 c ++ put_codes cs rest

-- A NULL has length -1 and no bytes.
abbrev pub put_parms : List (Option Bytes) → Bytes → Bytes
put_parms [] rest = rest
put_parms (none ∷ ps) rest = put32 (2 ^ 32 - 1) ++ put_parms ps rest
put_parms (some b ∷ ps) rest = put32 (length b) ++ (b ++ put_parms ps rest)

abbrev result_part : Request → Bytes
result_part q = put16 (length q.result_col_format_codes) ++ put_codes q.result_col_format_codes []

abbrev parms_part : Request → Bytes
parms_part q = put16 (length q.parms) ++ put_parms q.parms (result_part q)

abbrev codes_part : Request → Bytes
codes_part q = put16 (length q.parm_format_codes) ++ put_codes q.parm_format_codes (parms_part q)

abbrev pub bind_message : Request → BaseMessage
bind_message q = record {
  type = psql_bind;
  bytes = cstring q.dest (cstring q.source (codes_part q));
}

-- The length of a parameter fits its field.
abbrev pub Fits : Option Bytes → Type 0
Fits none = Unit
Fits (some b) = length b < 2 ^ 31

-- What the protocol asks of a Bind message: strings, codes 0 and 1, no format codes, one or one
-- for each parameter.
pub record IsRequest (q : Request) : Type 0 where
  pub dest_string : NoNul q.dest
  pub source_string : NoNul q.source
  pub parm_codes : All (λ c. c ≤ 1) q.parm_format_codes
  pub result_codes : All (λ c. c ≤ 1) q.result_col_format_codes
  pub few_parms : length q.parms < 2 ^ 15
  pub few_codes : length q.parm_format_codes ≤ length q.parms
  pub one_or_all : (length q.parm_format_codes ≤ 1) ⊎ (length q.parm_format_codes ≡ length q.parms)
  pub few_results : length q.result_col_format_codes < 2 ^ 15
  pub parms_fit : All Fits q.parms

read_codes-put_codes :
    (f : Field) (cs : List ℕ) (rest : Bytes)
    → All (λ c. c ≤ 1) cs
    → read_codes f (length cs) (put_codes cs rest) ≡ ok cs
unfolding read_codes
read_codes-put_codes f [] rest h = refl
read_codes-put_codes f (c ∷ cs) rest h =
    ground (arith, read16-put16 c (put_codes cs rest), read_codes-put_codes f cs rest h.1)

length-put_codes :
    (cs : List ℕ) (rest : Bytes) → length (put_codes cs rest) ≡ 2 * length cs + length rest
length-put_codes [] rest = omega arith
length-put_codes (c ∷ cs) rest = omega (arith, length-put_codes cs rest)

drop-put_codes : (cs : List ℕ) (rest : Bytes) → drop (2 * length cs) (put_codes cs rest) ≡ rest
drop-put_codes [] rest = refl
drop-put_codes (c ∷ cs) rest =
    let e : 2 * length (c ∷ cs) ≡ suc (suc (2 * length cs)) = omega arith in
    rw e (drop-put_codes cs rest)

read_result_codes-put_codes :
    (cs : List ℕ)
    → All (λ c. c ≤ 1) cs
    → length cs < 2 ^ 15
    → read_result_codes (put16 (length cs) ++ put_codes cs []) ≡ ok (cs, true)
unfolding read_result_codes
read_result_codes-put_codes cs h l = ground (
  arith,
  peek16-put16 4 (length cs) (put_codes cs []),
  length-put_codes cs [],
  read_codes-put_codes result_col_format_codes cs [] h,
)

peek_long-put32 : (n : ℕ) (r : Bytes) → n < 2 ^ 32 → peek_long 4 (put32 n ++ r) ≡ ok n
unfolding peek_long
peek_long-put32 n r h = ground (arith, read32-put32 n r h)

read_parms-put_parms :
    (ps : List Bytes) (rest : Bytes)
    → All Fits (map some ps)
    → read_parms (length ps) (put_parms (map some ps) rest) ≡ ok (ps, rest)
unfolding read_parms
read_parms-put_parms [] rest h = refl
read_parms-put_parms (b ∷ ps) rest h =
    let next = put_parms (map some ps) rest in
    ground (
      arith,
      peek_long-put32 (length b) (b ++ next),
      length-append b next,
      take-append b next,
      drop-append b next,
      read_parms-put_parms ps rest h.1,
    )

-- The parameters behind the counts, read in place.
read_bind-parms :
    (q : Request)
    → IsRequest q
    → read_bind (bind_message q) ≡ (do
      (ps, rest) ← read_parms (length q.parms) (put_parms q.parms (result_part q))
      (cs, done) ← read_result_codes rest
      ok (record {
        dest = q.dest;
        source = q.source;
        parm_format_codes = q.parm_format_codes;
        parms = ps;
        result_col_format_codes = cs;
        all_read = done;
      }))
unfolding read_bind
read_bind-parms q h =
    let codes = put_codes q.parm_format_codes (parms_part q) in
    let ps = put_parms q.parms (result_part q) in
    ground (
      arith,
      take_string-append q.dest (cstring q.source (codes_part q)) h.dest_string,
      take_string-append q.source (codes_part q) h.source_string,
      peek16-put16 4 (length q.parm_format_codes) codes,
      length-put_codes q.parm_format_codes (parms_part q),
      read_codes-put_codes parm_format_codes q.parm_format_codes (parms_part q) h.parm_codes,
      drop-put_codes q.parm_format_codes (parms_part q),
      peek16-put16 4 (length q.parms) ps,
    )

-- A Bind message laid out by the protocol, with no NULL parameter, is read back as it was built,
-- and to its end.
pub read_bind-bind_message :
    (q : Request) (ps : List Bytes)
    → IsRequest q
    → q.parms ≡ map some ps
    → read_bind (bind_message q)
      ≡ ok (record {
        dest = q.dest;
        source = q.source;
        parm_format_codes = q.parm_format_codes;
        parms = ps;
        result_col_format_codes = q.result_col_format_codes;
        all_read = true;
      })
read_bind-bind_message q ps h e =
    read_bind-parms q h
    ∙ rw e (
        rw (length-map some ps) (
          rw (read_parms-put_parms ps (result_part q) (rw e at h.parms_fit)) (
            rw (
              read_result_codes-put_codes q.result_col_format_codes h.result_codes h.few_results))))
