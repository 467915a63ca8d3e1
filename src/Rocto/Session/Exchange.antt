-- ===== src/Rocto/Session/Exchange.antt =====
-- Exchanges of the extended query protocol: one that succeeds, and what is discarded after an error.
use ydbocto.Prelude.{
  ◌≡◌, ◌≢◌, true, List, [], ◌∷◌, ◌++◌, arith, All, ℕ, ◌^◌, ◌<◌, refl, false, Option, some, map,
  All-append,
}
use ydbocto.Rocto.Message.{BaseMessage, psql_sync, ok}
use ydbocto.Rocto.Session.{
  Handlers, Session, synced, dispatch, step, steps, handled, handle_execute_message,
}
use ydbocto.Rocto.Bytes.{Bytes, IsBytes, NoNul, put32}
use ydbocto.Rocto.Read.{Parse, Target, is_item, Execute}
use ydbocto.Rocto.Bind.{Bind}
use ydbocto.Rocto.Bind.RoundTrip.{Request, bind_message, IsRequest, read_bind-bind_message}
use ydbocto.Rocto.Read.RoundTrip.{read_parse-parse_message}
use ydbocto.Rocto.Read.Encode.{parse_message, IsParse, describe_message, execute_message}
use ydbocto.Rocto.Read.Sound.{read_execute_iff}
use ydbocto.Rocto.Read.Targets.{read_describe_iff}

-- What `read_bind` makes of a request with the parameters `ps`.
abbrev pub bound_by : Request → List Bytes → Bind
bound_by q ps = record {
  dest = q.dest;
  source = q.source;
  parm_format_codes = q.parm_format_codes;
  parms = ps;
  result_col_format_codes = q.result_col_format_codes;
  all_read = true;
}

execute-IsBytes : (e : Execute) → IsBytes e.source → IsBytes (execute_message e).bytes
execute-IsBytes e h =
    All-append (λ c. c < 256) e.source (0 ∷ put32 e.rows_to_return) h (omega arith)

module _ {ℓ} {W : Type ℓ} (h : Handlers W) where
  -- After an error every message up to the next Sync is discarded, without a handler's call, and behind
  -- the Sync the session goes on with no error and no cursor.
  pub steps-discard :
      (ms rest : List BaseMessage) (b : Bytes) (s : Session W)
      → s.extended_query_error ≡ true
      → All (λ m. m.type ≢ psql_sync) ms
      → steps h (ms ++ record { type = psql_sync; bytes = b } ∷ rest) s ≡ steps h rest (synced h s)
  unfolding steps step dispatch
  steps-discard [] rest b s e a = ground arith
  steps-discard (m ∷ ms) rest b s e a = ground (arith, steps-discard ms rest b s e a.1)

  -- A whole exchange of messages laid out by the protocol, with no NULL parameter, calls each handler
  -- once and in order with what the client put in, when none of them fails; then the session goes on with no
  -- cursor and no error.
  pub steps-exchange :
      (p : Parse) (q : Request) (ps : List Bytes) (d : Target) (e : Execute) (b : Bytes)
      (s : Session W) (w1 w2 w3 w4 : W) (c : Option ℕ)
      → s.extended_query_error ≡ false
      → IsParse p
      → IsRequest q
      → q.parms ≡ map some ps
      → (NoNul d.name × (is_item d.item ≡ true))
      → (NoNul e.source × (e.rows_to_return < 2 ^ 32) × IsBytes e.source)
      → h.on_parse p s.world ≡ (w1, false)
      → h.on_bind (bound_by q ps) w1 ≡ (w2, false)
      → h.on_describe d w2 ≡ (w3, false)
      → h.on_execute e s.cursor w3 ≡ (w4, false, c)
      → steps h
          (parse_message p
            ∷ bind_message q
            ∷ describe_message d
            ∷ execute_message e
            ∷ record { type = psql_sync; bytes = b }
            ∷ [])
          s
        ≡ ok (synced h (record s { world = w4 }))
  unfolding steps step dispatch handled handle_execute_message
  steps-exchange p q ps d e b s w1 w2 w3 w4 c i hp hq eq hd he r1 r2 r3 r4 =
      let x1 = read_parse-parse_message p hp in
      let x2 = read_bind-bind_message q ps hq eq in
      let x3 = (read_describe_iff (describe_message d) d).1 (refl, hd.0, hd.1) in
      let x4 =
        (read_execute_iff (execute_message e) e (execute-IsBytes e he.2)).1 (refl, he.0, he.1) in
      ground (arith, x1, x2, x3, x4)
