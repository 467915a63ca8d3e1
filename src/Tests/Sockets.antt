-- ===== src/Tests/Sockets.antt =====
-- Connections for src/rocto/read_bytes.c, read_message.c, send_bytes.c and send_message.c.
use ydbocto.Prelude.{refl, false, List, [], ◌∷◌, arith, ◌≡◌}
use ydbocto.Rocto.Message.{BaseMessage, psql_flush}
use ydbocto.Rocto.Socket.{
  Arrival, read_message, send_bytes, segment, taken, interrupted, try_again, sent, send_loop,
  peer_gone,
}
use ydbocto.Rocto.Bytes.{codes}
use ydbocto.Rocto.Socket.Frames.{Reads, read_message-Reads}
use ydbocto.Rocto.Socket.Sending.{send_bytes-sent, IsPart, send_bytes-Sent}

abbrev flush : BaseMessage
flush = record { type = psql_flush; bytes = [] }

-- A Flush message in three pieces, with a signal between two of them.
abbrev pieces : List Arrival
pieces = segment b'H' (0 ∷ []) ∷ interrupted ∷ segment 0 (0 ∷ []) ∷ segment 4 (9 ∷ []) ∷ []

read_message-Reads_example : Reads flush (9 ∷ []) (read_message false 64 pieces)
read_message-Reads_example =
    read_message-Reads false 64 flush (9 ∷ []) pieces (omega arith) (omega arith) refl

send_bytes-Sent_example : IsPart (codes "ab") (codes "abc")
unfolding send_bytes send_loop
send_bytes-Sent_example = send_bytes-Sent (codes "abc") (taken 2 ∷ peer_gone ∷ []) (ground arith)

send_bytes-sent_example :
    send_bytes (codes "abc") (taken 2 ∷ try_again ∷ taken 5 ∷ []) ≡ (codes "abc", sent)
send_bytes-sent_example =
    send_bytes-sent (codes "abc") (taken 2 ∷ try_again ∷ taken 5 ∷ []) (ground arith) (ground arith)
