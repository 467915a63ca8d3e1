-- ===== src/Rocto/Read/RoundTrip.antt =====
-- The readers accept exactly the messages of the protocol, and recover what the client put in.
use ydbocto.Prelude.{
  ℕ, ◌*◌, ◌^◌, ◌<◌, ◌≡◌, ◌↔◌, refl, false, inl, inr, List, [], ◌∷◌, ◌++◌, length, All, arith,
  Option-cases, ◌≢◌,
}
use ydbocto.Rocto.Bytes.{
  Bytes, NoNul, take_string, take_string-append, take_string_sound, read32-put32, put16,
}
use ydbocto.Rocto.Message.{peek16-put16, Field, query, password, BaseMessage, ok, stray}
use ydbocto.Rocto.Read.{
  is_nil, only_string, read_query, read_password_message, read_parse, read_types, Parse,
}
use ydbocto.Rocto.Read.Encode.{
  IsParse, password_message, query_message, cstring, put_types, parse_message,
}

only_string_sound :
    (f : Field) (b s : Bytes) → only_string f b ≡ ok s → (b ≡ cstring s []) × NoNul s
unfolding only_string
only_string_sound f [] s h = ground arith
only_string_sound f (c ∷ b) s h = elim (Option-cases (take_string (c ∷ b))) [
  | inl e ↦ ground (arith, e)
  | inr ((t, []), e) ↦ ground (arith, e, take_string_sound (c ∷ b) e)
  | inr ((t, x ∷ r), e) ↦ ground (arith, e)
]

only_string_complete : (f : Field) (s : Bytes) → NoNul s → only_string f (cstring s []) ≡ ok s
unfolding only_string
only_string_complete f [] h = rw (take_string-append [] [] tt)
only_string_complete f (c ∷ s) h = rw (take_string-append (c ∷ s) [] h)

read_types-put_types :
    (ts : List ℕ) → All (λ t. t < 2 ^ 32) ts → read_types (length ts) (put_types ts) ≡ ok ts
unfolding read_types
read_types-put_types [] h = refl
read_types-put_types (t ∷ ts) h =
    ground (arith, read32-put32 t (put_types ts) h.0, read_types-put_types ts h.1)

-- `read_query` returns the text `s` exactly on a Query message that holds `s`, NUL-terminated.
read_query_iff :
    (m : BaseMessage) (s : Bytes) → (read_query m ≡ ok s) ↔ ((m ≡ query_message s) × NoNul s)
unfolding read_query
read_query_iff m s = (
  λ h. ground (arith, only_string_sound query m.bytes s),
  λ h. ground (arith, only_string_complete query s h.1),
)

-- `read_password_message` returns `s` exactly on a PasswordMessage that holds `s`, NUL-terminated.
read_password_message_iff :
    (m : BaseMessage) (s : Bytes)
    → (read_password_message m ≡ ok s) ↔ ((m ≡ password_message s) × NoNul s)
unfolding read_password_message
read_password_message_iff m s = (
  λ h. ground (arith, only_string_sound password m.bytes s),
  λ h. ground (arith, only_string_complete password s h.1),
)

length-put_types : (ts : List ℕ) → length (put_types ts) ≡ 4 * length ts
length-put_types [] = refl
length-put_types (t ∷ ts) = omega (arith, length-put_types ts)

is_nil-cstring : (s r : Bytes) → is_nil (cstring s r) ≡ false
is_nil-cstring [] r = refl
is_nil-cstring (c ∷ s) r = refl

-- A Parse message with fewer than 2^15 types is read back as it was built.
pub read_parse-parse_message : (p : Parse) → IsParse p → read_parse (parse_message p) ≡ ok p
unfolding read_parse
read_parse-parse_message p h =
    let types = put16 (length p.parm_data_types) ++ put_types p.parm_data_types in
    ground (
      arith,
      take_string-append p.dest (cstring p.query types) h.dest_string,
      is_nil-cstring p.query types,
      take_string-append p.query types h.query_string,
      peek16-put16 4 (length p.parm_data_types) (put_types p.parm_data_types),
      length-put_types p.parm_data_types,
      read_types-put_types p.parm_data_types h.types_fit,
    )

-- The reader of Query never leaves its block.
pub read_query-ne-stray : (m : BaseMessage) → read_query m ≢ stray
unfolding read_query only_string
read_query-ne-stray m h = ground (arith, Option-cases (take_string m.bytes))
