-- ===== src/Rocto/Socket.antt =====
-- The socket loops of ROcto: src/rocto/read_bytes.c, read_message.c, send_bytes.c and send_message.c. What the
-- kernel, or the TLS library, answers to each call is a list of events, consumed in order.
pub mod Streams
pub mod Frames
pub mod Sending
use ydbocto.Prelude.{
  ℕ, zero, suc, ◌+◌, ◌-◌, ◌%◌, ◌^◌, Bool, false, ◌&&◌, none, some, List, [], ◌∷◌, ◌++◌, ltb, leb,
  if◌then◌else◌, length, take, drop,
}
use ydbocto.Rocto.Message.{BaseMessage}
use ydbocto.Rocto.Make.{Outgoing}
use ydbocto.Rocto.Bytes.{Bytes, read32}
use ydbocto.Rocto.Make.Framing.{wire}

-- What a `recv` meets: one byte or more that have arrived, of which the call takes no more than it asks for; EINTR; the
-- end of the connection; ECONNRESET; any other failure.
pub data Arrival : Type 0 where
  segment : ℕ → Bytes → Arrival
  interrupted closed reset broken : Arrival

pub data ReadOutcome : Type 0 where
  -- 0: the bytes that were asked for, and what is still to come.
  complete : Bytes → List Arrival → ReadOutcome
  -- -2, -1, and a call that never returns.
  disconnected failed blocked : ReadOutcome
  -- A failed `assert`.
  overrun : ReadOutcome

-- What is read before the rest.
abbrev pub prepend : Bytes → ReadOutcome → ReadOutcome
prepend b (complete c es) = complete (b ++ c) es
prepend b o = o

-- What a call leaves of a segment.
abbrev pub unread : Bytes → List Arrival → List Arrival
unread [] es = es
unread (c ∷ s) es = segment c s ∷ es

-- `while (read_so_far < bytes_to_read)`, with `need` bytes still to read. Over TLS the end of the
-- connection reads zero bytes and is tried again, and a reset is a clean disconnection.
pub read_loop : Bool → ℕ → List Arrival → ReadOutcome
read_loop ssl zero es = complete [] es
read_loop ssl (suc n) [] = blocked
read_loop ssl (suc n) (segment c s ∷ es) =
    let more = prepend (c ∷ s) (read_loop ssl (n - length s) es) in
    if leb n (length s) then complete (c ∷ take n s) (unread (drop n s) es) else more
read_loop ssl (suc n) (interrupted ∷ es) = read_loop ssl (suc n) es
read_loop ssl (suc n) (closed ∷ es) =
    let again = read_loop ssl (suc n) es in if ssl then again else disconnected
read_loop ssl (suc n) (reset ∷ es) = if ssl then disconnected else failed
read_loop ssl (suc n) (broken ∷ es) = failed

-- `bytes_to_read` is an `int32_t`, given by its bit pattern. The size of the buffer after the call
-- comes first.
pub read_bytes : Bool → ℕ → ℕ → Bool → List Arrival → ℕ × ReadOutcome
read_bytes ssl buffer_size bytes_to_read allow_resize es =
    if leb (2 ^ 31) bytes_to_read
    then (buffer_size, failed)
    else if allow_resize && ltb buffer_size bytes_to_read
    then (bytes_to_read, read_loop ssl bytes_to_read es)
    else if leb bytes_to_read buffer_size
    then (buffer_size, read_loop ssl bytes_to_read es)
    else (buffer_size, overrun)

pub data MessageOutcome : Type 0 where
  -- A message, the size of the buffer, and what is still to come.
  message : BaseMessage → ℕ → List Arrival → MessageOutcome
  -- NULL, with the error of `read_bytes`.
  no_message : ReadOutcome → MessageOutcome
  -- The block for the message cannot be allocated, and C writes to a null pointer.
  no_memory : MessageOutcome

-- Behind the type and the length: `bytes_to_read` is the length less four, cut to 32 bits, and the
-- new size of a buffer that is too small is the length plus two, cut likewise.
read_rest : Bool → ℕ → ℕ → ℕ → List Arrival → MessageOutcome
read_rest ssl buffer_size type len es =
    let bytes_to_read = (len + 2 ^ 32 - 4) % 2 ^ 32 in
    let wanted = (len + 2) % 2 ^ 32 in
    let small = ltb bytes_to_read (2 ^ 31) && ltb (buffer_size - 5) bytes_to_read in
    if small && leb (2 ^ 31) wanted
    then no_memory
    else let size = if small then wanted else buffer_size in
      elim (read_bytes ssl (size - 5) bytes_to_read false es).1 [
        | complete b rest ↦ message (record { type = type; bytes = b }) size rest
        | o ↦ no_message o
      ]

read_header : Bool → ℕ → ReadOutcome → MessageOutcome
read_header ssl size (complete (t ∷ b) es) = elim (read32 b) [
  | none ↦ no_message overrun
  | some (len, _) ↦ read_rest ssl size t len es
]
read_header ssl size o = no_message o

pub read_message : Bool → ℕ → List Arrival → MessageOutcome
read_message ssl buffer_size es =
    let size = if ltb buffer_size 5 then 5 else buffer_size in
    read_header ssl size (read_bytes ssl size 5 false es).1

-- What a `send` meets: bytes that are taken, never more than offered; EINTR; ECONNRESET or EPIPE, for which nothing
-- is reported; any other failure.
pub data Departure : Type 0 where
  taken : ℕ → Departure
  try_again peer_gone send_failed : Departure

pub data SendOutcome : Type 0 where
  sent refused unfinished : SendOutcome

-- The bytes that were taken, and the result: 0, 1, or a call that never returns.
unfoldable pub send_loop : Bytes → List Departure → Bytes × SendOutcome
send_loop [] ds = ([], sent)
send_loop (c ∷ b) [] = ([], unfinished)
send_loop (c ∷ b) (taken n ∷ ds) =
    let (out, o) = send_loop (drop n (c ∷ b)) ds in (take n (c ∷ b) ++ out, o)
send_loop (c ∷ b) (try_again ∷ ds) = send_loop (c ∷ b) ds
send_loop (c ∷ b) (peer_gone ∷ ds) = ([], refused)
send_loop (c ∷ b) (send_failed ∷ ds) = ([], refused)

-- The plain connection; over TLS the library sends the whole message or fails. `to_write` is an `int32_t`, cut from
-- the length: where it is negative, the loop is not entered.
unfoldable pub send_bytes : Bytes → List Departure → Bytes × SendOutcome
unfolding send_loop
send_bytes b ds =
    let to_write = length b % 2 ^ 32 in
    if leb (2 ^ 31) to_write then ([], sent) else send_loop (take to_write b) ds

-- The block in memory may go on behind the message.
unfoldable pub send_message : Outgoing → Bytes → List Departure → Bytes × SendOutcome
send_message o behind ds = send_bytes (take (o.length_field + 1) (wire o ++ behind)) ds
