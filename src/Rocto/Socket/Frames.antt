-- ===== src/Rocto/Socket/Frames.antt =====
-- `read_message` cuts the stream into messages by their length fields.
use ydbocto.Prelude.{
  ℕ, ◌+◌, ◌-◌, ◌%◌, ◌^◌, ◌≤◌, ◌<◌, ◌≡◌, ap, ◌∙◌, Bool, true, false, List, [], ◌∷◌, ◌++◌, arith, ltb,
  length, take, length-append, take-append, drop-append, dec_lt,
}
use ydbocto.Rocto.Socket.{
  message, read_rest, read_header, Arrival, read_loop, read_bytes, MessageOutcome, read_message,
}
use ydbocto.Rocto.Message.{BaseMessage, message_length}
use ydbocto.Rocto.Bytes.{Bytes, put32, read32-put32}
use ydbocto.Rocto.Socket.Streams.{stream, read_loop-Delivers}

read_bytes-eq-read_loop :
    (ssl : Bool) (size n : ℕ) (es : List Arrival)
    → n < 2 ^ 31
    → n ≤ size
    → read_bytes ssl size n false es ≡ (size, read_loop ssl n es)
unfolding read_bytes
read_bytes-eq-read_loop ssl size n es h l = ground arith

-- A message was read, its buffer holds it, and the stream goes on behind it.
pub record Reads (m : BaseMessage) (rest : Bytes) (o : MessageOutcome) : Type 0 where
  pub size : ℕ
  pub left : List Arrival
  pub outcome : o ≡ message m size left
  pub room : length m.bytes + 5 ≤ size
  pub behind : stream left ≡ rest

-- The bytes of a frontend message on the wire.
abbrev pub frame : BaseMessage → Bytes → Bytes
frame m rest = m.type ∷ (put32 (message_length m) ++ (m.bytes ++ rest))

read_rest-Reads :
    (ssl : Bool) (size : ℕ) (m : BaseMessage) (rest : Bytes) (es : List Arrival)
    → 5 ≤ size
    → size < 2 ^ 31
    → length m.bytes < 2 ^ 31 - 6
    → stream es ≡ m.bytes ++ rest
    → Reads m rest (read_rest ssl size m.type (message_length m) es)
unfolding read_rest
read_rest-Reads ssl size m rest es h5 hs hl e =
    let n = length m.bytes in
    let enough : n ≤ length (stream es) = omega (arith, ap length e, length-append m.bytes rest) in
    let d = read_loop-Delivers ssl es n enough in
    let got : take n (stream es) ≡ m.bytes = rw e (take-append m.bytes rest) in
    let next : stream d.left ≡ rest = d.rest ∙ rw e (drop-append m.bytes rest) in
    let to_read : (n + 4 + 2 ^ 32 - 4) % 2 ^ 32 ≡ n = omega arith in
    let wanted : (n + 4 + 2) % 2 ^ 32 ≡ n + 6 = omega arith in
    elim (dec_lt (size - 5) n) [
      | yes small ↦ record {
        size = n + 6;
        left = d.left;
        outcome =
            ground (
              arith,
              read_bytes-eq-read_loop ssl (n + 6 - 5) n es,
              d.outcome,
              got,
              to_read,
              wanted,
            );
        room = omega arith;
        behind = next;
      }
      | no large ↦ record {
        size = size;
        left = d.left;
        outcome =
            ground
              (arith, read_bytes-eq-read_loop ssl (size - 5) n es, d.outcome, got, to_read, wanted);
        room = omega arith;
        behind = next;
      }
    ]

header-Reads :
    (ssl : Bool) (size : ℕ) (m : BaseMessage) (rest : Bytes) (es : List Arrival)
    → 5 ≤ size
    → size < 2 ^ 31
    → length m.bytes < 2 ^ 31 - 6
    → stream es ≡ frame m rest
    → Reads m rest (read_header ssl size (read_bytes ssl size 5 false es).1)
unfolding read_header
header-Reads ssl size m rest es h5 hs hl e =
    let n = message_length m in
    let d = read_loop-Delivers ssl es 5 (omega (arith, ap length e)) in
    let got : take 5 (stream es) ≡ m.type ∷ put32 n = rw e in
    let next : stream d.left ≡ m.bytes ++ rest = d.rest ∙ rw e in
    let opens : read_header ssl size (read_bytes ssl size 5 false es).1
        ≡ read_rest ssl size m.type n d.left =
      ground (arith, read_bytes-eq-read_loop ssl size 5 es, d.outcome, got, read32-put32 n []) in
    rw opens (read_rest-Reads ssl size m rest d.left h5 hs hl next)

ltb-true : (a b : ℕ) → a < b → ltb a b ≡ true
ltb-true a b h = ground arith

ltb-false : (a b : ℕ) → b ≤ a → ltb a b ≡ false
ltb-false a b h = ground arith

-- However the bytes of a message arrive, it is read whole, into a buffer that holds it, and what
-- came behind it is still to be read.
pub read_message-Reads :
    (ssl : Bool) (buffer_size : ℕ) (m : BaseMessage) (rest : Bytes) (es : List Arrival)
    → buffer_size < 2 ^ 31
    → length m.bytes < 2 ^ 31 - 6
    → stream es ≡ frame m rest
    → Reads m rest (read_message ssl buffer_size es)
unfolding read_message
read_message-Reads ssl buffer_size m rest es hb hl e = elim (dec_lt buffer_size 5) [
  | yes small ↦
      rw (ltb-true buffer_size 5 small)
        (header-Reads ssl 5 m rest es (omega arith) (omega arith) hl e)
  | no large ↦
      rw (ltb-false buffer_size 5 (omega arith))
        (header-Reads ssl buffer_size m rest es (omega arith) hb hl e)
]
