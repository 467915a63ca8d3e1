-- ===== src/Rocto/Make/Framing.antt =====
-- Every message has the length field that frames it, so that `send_message`, which sends one byte
-- more than the field says, sends the whole message and nothing behind it.
use ydbocto.Rocto.Read.Encode.{cstring, put_types}
use ydbocto.Prelude.{
  ℕ, ◌+◌, ◌≡◌, some, List, [], ◌∷◌, ◌++◌, arith, length, length-append, suc, ◌-◌, ◌*◌, ◌%◌, ◌^◌,
  ◌<◌, refl, Option, none, take, drop, All, take-append, drop-append, ap, get_elem?,
}
use ydbocto.Rocto.Startup.{Parm}
use ydbocto.Rocto.Make.{
  Outgoing, make_parameter_status, Severity, severity_str, ErrorResponseArg, args_length, put_args,
  make_error_response, read_parm_types, put_parm_types, make_authentication_ok,
  make_backend_key_data, make_bind_complete, make_close_complete, make_empty_query_response,
  make_no_data, make_parse_complete, make_portal_suspended, TransactionStatus, make_ready_for_query,
  make_parameter_description, ok,
}
use ydbocto.Rocto.Bytes.{Bytes, read32, put32, read32-put32, put16}

-- The length field counts itself and the bytes that are written.
abbrev pub IsFramed : Outgoing → Type 0
IsFramed o = o.length_field ≡ length o.bytes + 4

length-args :
    (args : List ErrorResponseArg) (rest : Bytes)
    → length (put_args args rest) ≡ args_length args + length rest
unfolding put_args args_length
length-args [] rest = omega arith
length-args (a ∷ args) rest =
    omega (arith, length-append a.value (0 ∷ put_args args rest), length-args args rest)

-- The length that the first pass over the arguments of an ErrorResponse counts is the length of
-- what the second pass writes.
make_error_response-IsFramed :
    (severity : Severity) (code message : Bytes) (args : List ErrorResponseArg)
    → IsFramed (make_error_response severity code message args)
unfolding make_error_response
make_error_response-IsFramed severity code message args =
    let end = 0 ∷ b'M' ∷ (message ++ 0 ∷ put_args args (0 ∷ [])) in
    omega (
      arith,
      length-append (severity_str severity) (0 ∷ b'C' ∷ (code ++ end)),
      length-append code end,
      length-append message (0 ∷ put_args args (0 ∷ [])),
      length-args args (0 ∷ []),
    )

-- Every ParameterStatus message is made, is framed, and holds the name and the value as two strings.
make_parameter_status-made :
    (p : Parm)
    → (o : Outgoing) × (make_parameter_status (some p) ≡ some o)
      × IsFramed o
      × (o.bytes ≡ cstring p.name (cstring p.value []))
unfolding make_parameter_status
make_parameter_status-made p = (
  record {
    type = b'S';
    length_field = 4 + (length p.name + 1) + (length p.value + 1);
    bytes = p.name ++ 0 ∷ (p.value ++ 0 ∷ []);
  },
  refl,
  omega (arith, length-append p.name (0 ∷ (p.value ++ 0 ∷ [])), length-append p.value (0 ∷ [])),
  refl,
)

length-put_parm_types : (ts : List ℕ) → length (put_parm_types ts) ≡ 4 * length ts
unfolding put_parm_types
length-put_parm_types [] = refl
length-put_parm_types (t ∷ ts) = omega (arith, length-put_parm_types ts)

put_parm_types-eq : (ts : List ℕ) → put_parm_types ts ≡ put_types ts
unfolding put_parm_types
put_parm_types-eq [] = refl
put_parm_types-eq (t ∷ ts) = ap (λ b. put32 t ++ b) (put_parm_types-eq ts)

read_parm_types-get :
    (get : ℕ → Option ℕ) (ts : List ℕ) (i : ℕ)
    → ((k t : ℕ) → get_elem? ts k ≡ some t → get (suc (i + k)) ≡ some t)
    → All (λ t. t < 2 ^ 31) ts
    → read_parm_types get (length ts) i ≡ ok ts
unfolding read_parm_types
read_parm_types-get get [] i h f = refl
read_parm_types-get get (t ∷ ts) i h f =
    let first : get (i + 1) ≡ some t = ground (arith, h 0 t refl) in
    let next : (k u : ℕ) → get_elem? ts k ≡ some u → get (suc (i + 1 + k)) ≡ some u =
      λ k u e. let s : i + 1 + k ≡ i + suc k = omega arith in rw s (h (suc k) u e) in
    ground (arith, first, read_parm_types-get get ts (i + 1) next f.1)

-- A statement of fewer than 2^15 parameters, each with a type that the database holds at the
-- parameter's number, gets a ParameterDescription message, which is framed and lists the types.
make_parameter_description-made :
    (get : ℕ → Option ℕ) (ts : List ℕ)
    → ((k t : ℕ) → get_elem? ts k ≡ some t → get (suc k) ≡ some t)
    → All (λ t. t < 2 ^ 31) ts
    → length ts < 2 ^ 15
    → (o : Outgoing) × (make_parameter_description (some (length ts)) get ≡ ok o)
      × IsFramed o
      × (o.bytes ≡ put16 (length ts) ++ put_types ts)
unfolding make_parameter_description
make_parameter_description-made get ts h f l =
    let low : length ts % 65536 ≡ length ts = omega arith in
    (
      record {
        type = b't';
        length_field = 4 + 2 + 4 * length ts;
        bytes = put16 (length ts) ++ put_parm_types ts;
      },
      ground (
        arith,
        low,
        read_parm_types-get get ts 0 (λ k t e. let z : 0 + k ≡ k = omega arith in rw z (h k t e)) f,
      ),
      omega (arith, length-put_parm_types ts),
      ap (λ b. put16 (length ts) ++ b) (put_parm_types-eq ts),
    )

-- The messages of fixed layout.
abbrev pub fixed_messages : ℕ → ℕ → TransactionStatus → List Outgoing
fixed_messages key pid status =
    make_authentication_ok
    ∷ make_backend_key_data key pid
    ∷ make_bind_complete
    ∷ make_close_complete
    ∷ make_empty_query_response
    ∷ make_no_data
    ∷ make_parse_complete
    ∷ make_portal_suspended
    ∷ make_ready_for_query status
    ∷ []

-- Each message of fixed layout has the length field that frames it,
-- whatever its arguments.
fixed_messages-IsFramed :
    (key pid : ℕ) (status : TransactionStatus) → All IsFramed (fixed_messages key pid status)
unfolding make_authentication_ok make_backend_key_data make_bind_complete make_close_complete
    make_empty_query_response make_no_data make_parse_complete make_portal_suspended
    make_ready_for_query
fixed_messages-IsFramed key pid status = omega arith

-- The bytes on the wire.
abbrev pub wire : Outgoing → Bytes
wire o = o.type ∷ (put32 o.length_field ++ o.bytes)

-- What a client does: the type, the length, and as many bytes as the length says.
pub read_frame : Bytes → Option (ℕ × Bytes × Bytes)
read_frame [] = none
read_frame (t ∷ b) = elim (read32 b) [
  | none ↦ none
  | some (n, rest) ↦ some (t, take (n - 4) rest, drop (n - 4) rest)
]

-- A client that reads by the length field gets the message and what was sent behind it.
pub read_frame-wire :
    (o : Outgoing) (rest : Bytes)
    → IsFramed o
    → o.length_field < 2 ^ 32
    → read_frame (wire o ++ rest) ≡ some (o.type, o.bytes, rest)
unfolding read_frame
read_frame-wire o rest f l =
    let e : o.length_field - 4 ≡ length o.bytes = omega arith in
    ground (
      arith,
      read32-put32 o.length_field (o.bytes ++ rest) l,
      e,
      take-append o.bytes rest,
      drop-append o.bytes rest,
    )
