-- ===== src/Rocto/Read/Sound.antt =====
-- Parse and Execute: what the readers accept is what the protocol lays out.
use ydbocto.Prelude.{
  ℕ, zero, suc, ◌*◌, ◌^◌, ◌<◌, ◌≡◌, List, [], ◌∷◌, length, All, arith, refl, ◌≢◌, ◌↔◌, ◌⊎◌, inl,
  inr, none, some, Option-cases, All-append_right, ◌+◌, ◌++◌, drop, length-drop, All-drop, ◌≤◌,
}
use ydbocto.Rocto.Bytes.{
  Bytes, IsBytes, read32, NoNul, take_string, take_string-append, take_string_sound, put32,
  read32-put32, read32-length, read32_sound, put16, read32-total,
}
use ydbocto.Rocto.Message.{
  ok, bind-eq-ok, BaseMessage, stray, peek16, peek16_sound, peek16-total, Result-cases,
}
use ydbocto.Rocto.Read.{read_types, Parse, read_parse, Execute, read_execute}
use ydbocto.Rocto.Read.Encode.{put_types, cstring, parse_message, IsParse, execute_message}
use ydbocto.Rocto.Read.RoundTrip.{read_parse-parse_message}

-- What `n` types are read from.
record TypesOf (n : ℕ) (r : Bytes) (ts : List ℕ) : Type 0 where
  layout : r ≡ put_types ts
  count : length ts ≡ n
  fit : All (λ t. t < 2 ^ 32) ts

read_types_sound :
    (n : ℕ) (r : Bytes) (ts : List ℕ)
    → IsBytes r
    → length r ≡ 4 * n
    → read_types n r ≡ ok ts
    → TypesOf n r ts
unfolding read_types read32
read_types_sound zero [] ts b l h = ground arith
read_types_sound zero (x ∷ r) ts b l h = absurd (omega arith)
read_types_sound (suc n) (a ∷ b' ∷ c ∷ d ∷ r) ts b l h =
    let (us, e, e') = bind-eq-ok (read_types n r) (λ us. ok (_ ∷ us)) h in
    let ih = read_types_sound n r us b.1.1.1.1 (omega arith) e in
    record {
      layout = ground (arith, ih.layout, e');
      count = ground (arith, ih.count, e');
      fit = ground (arith, ih.fit, e');
    }
read_types_sound (suc n) [] ts b l h = absurd (omega arith)
read_types_sound (suc n) (_ ∷ []) ts b l h = absurd (omega arith)
read_types_sound (suc n) (_ ∷ _ ∷ []) ts b l h = absurd (omega arith)
read_types_sound (suc n) (_ ∷ _ ∷ _ ∷ []) ts b l h = absurd (omega arith)

nil_of_length : (b : Bytes) → length b ≡ 0 → b ≡ []
nil_of_length [] h = refl
nil_of_length (c ∷ b) h = absurd (omega arith)

-- A scanned string of a message of bytes, or none.
string-cases :
    (b : Bytes)
    → IsBytes b
    → (take_string b ≡ none)
      ⊎ ((s : Bytes) × (r : Bytes) × (take_string b ≡ some (s, r))
          × (b ≡ cstring s r)
          × NoNul s
          × IsBytes r)
string-cases b h = elim (Option-cases (take_string b)) [
  | inl e ↦ inl e
  | inr ((s, r), e) ↦
      let (l, n) = take_string_sound b e in
      inr (s, r, e, l, n, (All-append_right (λ c. c < 256) s (0 ∷ r) (rw l at h)).1)
]

types-layout :
    (n : ℕ) (r : Bytes) (ts : List ℕ)
    → IsBytes r
    → peek16 4 r ≡ ok n
    → length r ≡ 2 + 4 * n
    → read_types n (drop 2 r) ≡ ok ts
    → (r ≡ put16 (length ts) ++ put_types ts) × (length ts ≡ n) × All (λ t. t < 2 ^ 32) ts
types-layout n r ts b p l e =
    let of =
      read_types_sound n (drop 2 r) ts (All-drop (λ c. c < 256) 2 r b)
        (omega (arith, length-drop 2 r)) e in
    ground (arith, peek16_sound 4 n r b (omega arith) p, of.layout, of.count, of.fit)

parse_sound :
    (m : BaseMessage) (p : Parse)
    → IsBytes m.bytes
    → read_parse m ≡ ok p
    → (m ≡ parse_message p) × IsParse p
unfolding read_parse
parse_sound m p b h = elim (string-cases m.bytes b) [
  | inl x ↦ ground (arith, x)
  | inr (d, r1, x1, l1, n1, b1) ↦ elim (string-cases r1 b1) [
    | inl x ↦ ground (arith, x1, x)
    | inr (q, r2, x2, l2, n2, b2) ↦
        let (n, x3) = peek16-total 4 r2 (omega arith) in
        elim (Result-cases (read_types n (drop 2 r2))) [
          | inl (ts, x4) ↦
              ground (arith, x1, x2, x3, x4, l1, l2, n1, n2, types-layout n r2 ts b2 x3)
          | inr (inl (f, x4)) ↦ ground (arith, x1, x2, x3, x4)
          | inr (inr x4) ↦ ground (arith, x1, x2, x3, x4)
        ]
  ]
]

-- A Parse message of bytes is accepted with result `p` exactly if it is `p` laid out by the
-- protocol, with two NUL-terminated strings and fewer than 2^15 types.
pub read_parse_iff :
    (m : BaseMessage) (p : Parse)
    → IsBytes m.bytes
    → (read_parse m ≡ ok p) ↔ ((m ≡ parse_message p) × IsParse p)
unfolding read_parse
read_parse_iff m p b =
    (λ h. parse_sound m p b h, λ h. ground (arith, read_parse-parse_message p h.1))

read_types-ne-stray : (n : ℕ) (r : Bytes) → 4 * n ≤ length r → read_types n r ≢ stray
unfolding read_types
read_types-ne-stray zero r l = λ h. cc
read_types-ne-stray (suc n) r l =
    let (t, rest, e) = read32-total r (omega arith) in
    ground (arith, e, read32-length r e, read_types-ne-stray n rest)

-- The reader of Parse never leaves its block.
pub read_parse-ne-stray : (m : BaseMessage) → read_parse m ≢ stray
unfolding read_parse
read_parse-ne-stray m = elim (Option-cases (take_string m.bytes)) [
  | inl x ↦ ground (arith, x)
  | inr ((d, r1), x1) ↦ elim (Option-cases (take_string r1)) [
    | inl x ↦ ground (arith, x1, x)
    | inr ((q, r2), x2) ↦
        let (n, x3) = peek16-total 4 r2 (omega arith) in
        ground (arith, x1, x2, x3, read_types-ne-stray n (drop 2 r2), length-drop 2 r2)
  ]
]

execute_sound :
    (m : BaseMessage) (e : Execute)
    → IsBytes m.bytes
    → (read_execute m ≡ ok e)
    → (m ≡ execute_message e) × NoNul e.source × (e.rows_to_return < 2 ^ 32)
unfolding read_execute
execute_sound m e b h = elim (string-cases m.bytes b) [
  | inl x ↦ ground (arith, x)
  | inr (s, r, x, l, n, br) ↦ elim (Option-cases (read32 r)) [
    | inl y ↦ ground (arith, x, y)
    | inr ((k, t), y) ↦
        ground (arith, x, y, l, n, read32_sound r br y, read32-length r y, nil_of_length t)
  ]
]

-- `read_execute` returns `e` exactly on an Execute message of bytes that holds `e`.
pub read_execute_iff :
    (m : BaseMessage) (e : Execute)
    → IsBytes m.bytes
    → (read_execute m ≡ ok e)
      ↔ ((m ≡ execute_message e) × NoNul e.source × (e.rows_to_return < 2 ^ 32))
unfolding read_execute
read_execute_iff m e b = (
  λ h. execute_sound m e b h,
  λ h. ground (
    arith,
    take_string-append e.source (put32 e.rows_to_return) h.1,
    read32-put32 e.rows_to_return [] h.2,
  ),
)

-- The reader of Execute never leaves its block.
pub read_execute-ne-stray : (m : BaseMessage) → read_execute m ≢ stray
unfolding read_execute
read_execute-ne-stray m h = elim (Option-cases (take_string m.bytes)) [
  | inl x ↦ ground (arith, x)
  | inr ((s, r), x) ↦ ground (arith, x, read32-total r)
]
