-- ===== src/Rocto/Read/Targets.antt =====
-- Describe and Close: the scan of a Describe's name, which has no bound, ends where a bounded one does.
use ydbocto.Prelude.{
  ℕ, ◌≡◌, ◌↔◌, refl, true, [], ◌∷◌, length-append, arith, inl, inr, Option-cases, ◌≢◌,
}
use ydbocto.Rocto.Bytes.{
  Bytes, NoNul, take_string, take_string-append, take_string_sound, take_string-extend,
  take_string-none,
}
use ydbocto.Rocto.Message.{BaseMessage, ok, slack, stray, psql_close}
use ydbocto.Rocto.Read.{Target, is_item, describe_item, close_item, read_close, read_describe}
use ydbocto.Rocto.Read.Encode.{cstring, close_message, describe_message}

describe_item-close_item : (c : ℕ) (r : Bytes) → describe_item (c ∷ r) ≡ close_item (c ∷ r)
unfolding describe_item close_item
describe_item-close_item c r = elim (Option-cases (take_string r)) [
  | inl e ↦ ground (arith, e, take_string-none r (slack 4) e)
  | inr ((s, t), e) ↦
      ground (arith, e, take_string-extend r (slack 5) {s = s} {r = t} e, length-append t (slack 5))
]

close_item_sound :
    (b : Bytes) (t : Target)
    → close_item b ≡ ok t
    → (b ≡ t.item ∷ cstring t.name []) × NoNul t.name × (is_item t.item ≡ true)
unfolding close_item
close_item_sound [] t h = ground arith
close_item_sound (c ∷ r) t h = elim (Option-cases (take_string r)) [
  | inl e ↦ ground (arith, e)
  | inr ((s, []), e) ↦ ground (arith, e, take_string_sound r e)
  | inr ((s, x ∷ u), e) ↦ ground (arith, e)
]

close_item_complete :
    (t : Target)
    → NoNul t.name
    → is_item t.item ≡ true
    → close_item (t.item ∷ cstring t.name []) ≡ ok t
unfolding close_item
close_item_complete t h i = ground (arith, take_string-append t.name [] h)

-- `read_close` returns `t` exactly on a Close message that names `t`, with item 'S' or 'P'.
read_close_iff :
    (m : BaseMessage) (t : Target)
    → (read_close m ≡ ok t) ↔ ((m ≡ close_message t) × NoNul t.name × (is_item t.item ≡ true))
unfolding read_close
read_close_iff m t = (
  λ h. ground (arith, close_item_sound m.bytes t),
  λ h. ground (arith, close_item_complete t h.1 h.2),
)

describe_item-eq : (b : Bytes) (t : Target) → (describe_item b ≡ ok t) ↔ (close_item b ≡ ok t)
unfolding describe_item close_item
describe_item-eq [] t = (λ h. cc, λ h. cc)
describe_item-eq (c ∷ r) t = (
  λ h. ground (arith, describe_item-close_item c r),
  λ h. ground (arith, describe_item-close_item c r),
)

-- `read_describe` returns `t` exactly on a Describe message that names `t`, with item 'S' or 'P',
-- though the scan of its name has no bound of its own.
pub read_describe_iff :
    (m : BaseMessage) (t : Target)
    → (read_describe m ≡ ok t) ↔ ((m ≡ describe_message t) × NoNul t.name × (is_item t.item ≡ true))
unfolding read_describe
read_describe_iff m t = (
  λ h. ground (arith, (describe_item-eq m.bytes t).0, close_item_sound m.bytes t),
  λ h. ground (arith, (describe_item-eq m.bytes t).1, close_item_complete t h.1 h.2),
)

describe_item-ne-stray : (b : Bytes) → describe_item b ≢ stray
unfolding describe_item
describe_item-ne-stray [] = λ h. cc
describe_item-ne-stray (c ∷ r) = elim (Option-cases (take_string r)) [
  | inl e ↦ ground (arith, take_string-none r (slack 4) e)
  | inr ((s, t), e) ↦ ground (arith, take_string-extend r (slack 5) {s = s} {r = t} e)
]

-- The reader of Describe never leaves its block.
pub read_describe-ne-stray : (m : BaseMessage) → read_describe m ≢ stray
unfolding read_describe
read_describe-ne-stray m = ground (arith, describe_item-ne-stray m.bytes)

close_item-stray : (b : Bytes) → close_item b ≡ stray → b ≡ []
unfolding close_item
close_item-stray [] h = refl
close_item-stray (c ∷ r) h = ground (arith, Option-cases (take_string r))

-- The reader of Close leaves its block exactly on a Close message with no data, whose item it
-- reads all the same.
read_close-stray_iff :
    (m : BaseMessage) → (read_close m ≡ stray) ↔ (m ≡ record { type = psql_close; bytes = [] })
unfolding read_close close_item
read_close-stray_iff m = (λ h. ground (arith, close_item-stray m.bytes), λ h. ground arith)
