-- ===== src/Rocto/Socket/Sending.antt =====
-- Sending does not depend on how many bytes each call takes.
use ydbocto.Prelude.{
  ℕ, ◌+◌, ◌≡◌, refl, sym, ap, ◌∙◌, List, [], ◌∷◌, ◌++◌, append_assoc, arith, take, drop,
  take-append, take-append-drop, length, ◌≤◌, length-drop, ◌%◌, ◌^◌, ◌<◌,
}
use ydbocto.Rocto.Socket.{
  taken, Departure, SendOutcome, send_loop, send_bytes, send_message, sent, refused, try_again,
  peer_gone, unfinished, send_failed,
}
use ydbocto.Rocto.Make.{Outgoing}
use ydbocto.Rocto.Bytes.{Bytes}
use ydbocto.Rocto.Make.Framing.{IsFramed, wire}

-- Of a prefix, and the rest behind it.
pub record IsPart (out whole : Bytes) : Type 0 where
  pub behind : Bytes
  pub splits : whole ≡ out ++ behind

-- What was sent, for each result.
abbrev pub Sent : Bytes → Bytes × SendOutcome → Type 0
Sent b (out, sent) = out ≡ b
Sent b (out, _) = IsPart out b

Sent-IsPart : (n : ℕ) (b out : Bytes) → IsPart out (drop n b) → IsPart (take n b ++ out) b
Sent-IsPart n b out h = record {
  behind = h.behind;
  splits = sym (
      append_assoc (take n b) out h.behind
      ∙ ap (λ t. take n b ++ t) (sym h.splits)
      ∙ take-append-drop n b);
}

Sent-taken :
    (n : ℕ) (b : Bytes) (r : Bytes × SendOutcome)
    → Sent (drop n b) r
    → Sent b (take n b ++ r.0, r.1)
Sent-taken n b (out, sent) h = rw h (take-append-drop n b)
Sent-taken n b (out, refused) h = Sent-IsPart n b out h
Sent-taken n b (out, unfinished) h = Sent-IsPart n b out h

send_loop-Sent : (b : Bytes) (ds : List Departure) → Sent b (send_loop b ds)
unfolding send_loop
send_loop-Sent [] ds = refl
send_loop-Sent (c ∷ b) [] = record { behind = c ∷ b; splits = refl }
send_loop-Sent (c ∷ b) (taken n ∷ ds) =
    Sent-taken n (c ∷ b) (send_loop (drop n (c ∷ b)) ds) (send_loop-Sent (drop n (c ∷ b)) ds)
send_loop-Sent (c ∷ b) (try_again ∷ ds) = send_loop-Sent (c ∷ b) ds
send_loop-Sent (c ∷ b) (peer_gone ∷ ds) = record { behind = c ∷ b; splits = refl }
send_loop-Sent (c ∷ b) (send_failed ∷ ds) = record { behind = c ∷ b; splits = refl }

take-length : (b : Bytes) → take (length b) b ≡ b
take-length [] = refl
take-length (c ∷ b) = ap (◌∷◌ c) (take-length b)

-- A message below 2^31 bytes keeps its length as an `int32_t`.
send_bytes-send_loop :
    (b : Bytes) (ds : List Departure) → length b < 2 ^ 31 → send_bytes b ds ≡ send_loop b ds
unfolding send_bytes
send_bytes-send_loop b ds h =
    let n : length b % 2 ^ 32 ≡ length b = omega arith in ground (arith, n, take-length b)

-- Of a message below 2^31 bytes, on a connection without TLS, with result 0 the whole went out, and with any other result a part of it from its
-- start, however the calls cut it.
pub send_bytes-Sent :
    (b : Bytes) (ds : List Departure) → length b < 2 ^ 31 → Sent b (send_bytes b ds)
send_bytes-Sent b ds h = rw (send_bytes-send_loop b ds h) (send_loop-Sent b ds)

-- From 2^31 bytes on, and below 2^32, nothing is sent, and the result is 0.
send_bytes-none :
    (b : Bytes) (ds : List Departure)
    → 2 ^ 31 ≤ length b
    → length b < 2 ^ 32
    → send_bytes b ds ≡ ([], sent)
unfolding send_bytes
send_bytes-none b ds h l = let n : length b % 2 ^ 32 ≡ length b = omega arith in ground (arith, n)

-- A framed message below 2^31 bytes that is sent with result 0 went out whole, and nothing of what lies behind it in
-- memory did.
send_message-sent :
    (o : Outgoing) (behind : Bytes) (ds : List Departure) (out : Bytes)
    → IsFramed o
    → length (wire o) < 2 ^ 31
    → send_message o behind ds ≡ (out, sent)
    → out ≡ wire o
unfolding send_message
send_message-sent o behind ds out f l h =
    let n : o.length_field + 1 ≡ length (wire o) = omega arith in
    let cut : take (o.length_field + 1) (wire o ++ behind) ≡ wire o =
      rw n (take-append (wire o) behind) in
    rw (rw cut at h) at (send_bytes-Sent (wire o) ds l)

-- What the calls take before one fails.
abbrev pub capacity : List Departure → ℕ
capacity [] = 0
capacity (taken n ∷ ds) = n + capacity ds
capacity (try_again ∷ ds) = capacity ds
capacity (_ ∷ ds) = 0

send_loop-sent :
    (b : Bytes) (ds : List Departure) → length b ≤ capacity ds → send_loop b ds ≡ (b, sent)
unfolding send_loop
send_loop-sent [] ds h = refl
send_loop-sent (c ∷ b) [] h = absurd (omega arith)
send_loop-sent (c ∷ b) (taken n ∷ ds) h =
    let left : length (drop n (c ∷ b)) ≤ capacity ds = omega (arith, length-drop n (c ∷ b)) in
    ground (arith, send_loop-sent (drop n (c ∷ b)) ds left, take-append-drop n (c ∷ b))
send_loop-sent (c ∷ b) (try_again ∷ ds) h = send_loop-sent (c ∷ b) ds h
send_loop-sent (c ∷ b) (peer_gone ∷ ds) h = absurd (omega arith)
send_loop-sent (c ∷ b) (send_failed ∷ ds) h = absurd (omega arith)

-- When a message is below 2^31 bytes, the connection is one without TLS, and the calls take as many bytes as it has before one fails, the whole message
-- goes out and the result is 0.
pub send_bytes-sent :
    (b : Bytes) (ds : List Departure)
    → length b < 2 ^ 31
    → length b ≤ capacity ds
    → send_bytes b ds ≡ (b, sent)
send_bytes-sent b ds l h = send_bytes-send_loop b ds l ∙ send_loop-sent b ds h
