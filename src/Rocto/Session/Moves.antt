-- ===== src/Rocto/Session/Moves.antt =====
-- What a single message does to the session.
use ydbocto.Prelude.{
  ◌≡◌, Bool, false, not, ◌&&◌, ◌||◌, none, arith, ◌==◌, ◌⊎◌, inl, inr, if◌then◌else◌, ℕ_discrete,
  ◌≢◌,
}
use ydbocto.Rocto.Message.{
  BaseMessage, psql_execute, psql_parse, psql_sync, psql_terminate, Result, ok, err, stray,
}
use ydbocto.Rocto.Session.{
  Handlers, Session, handled, handle_query_message, handle_execute_message, dispatch, step,
}
use ydbocto.Rocto.Read.{read_query, read_parse, read_describe, Execute, read_execute}
use ydbocto.Rocto.Bind.{read_bind}
use ydbocto.Rocto.Bytes.{Bytes}

module _ {ℓ} {W : Type ℓ} (h : Handlers W) where
  -- A message that is not discarded.
  abbrev pub IsHandled : BaseMessage → Session W → Type 0
  IsHandled m s = (s.extended_query_error && not (m.type == psql_sync)) ≡ false

  -- The variables of the loop before and after a message that is not discarded.
  pub record Moved (m : BaseMessage) (s t : Session W) : Type 0 where
    pub ready_iff :
        t.send_ready_for_query
        ≡ (m.type == psql_sync || (s.send_ready_for_query && not (m.type == psql_parse)))
    pub terminated_iff : t.terminated ≡ (m.type == psql_terminate || s.terminated)
    pub recovers : (t.extended_query_error && m.type == psql_sync) ≡ false
    pub cursor_moves :
        (m.type ≡ psql_execute) ⊎ (t.cursor ≡ (if m.type == psql_sync then none else s.cursor))

  handled-Session :
      {A : Type 0} (r : Result A) (f : A → W → W × Bool) (s t : Session W)
      → handled h r f s ≡ ok t
      → (t.send_ready_for_query ≡ s.send_ready_for_query)
        × (t.terminated ≡ s.terminated)
        × (t.cursor ≡ s.cursor)
  unfolding handled
  handled-Session (ok a) f s t e = ground (arith, e)
  handled-Session (err x) f s t e = ground (arith, e)
  handled-Session stray f s t e = ground (arith, e)

  query-Session :
      (r : Result Bytes) (s t : Session W)
      → handle_query_message h r s ≡ ok t
      → (t.send_ready_for_query ≡ s.send_ready_for_query)
        × (t.terminated ≡ s.terminated)
        × (t.cursor ≡ s.cursor)
  unfolding handle_query_message
  query-Session (ok a) s t e = ground (arith, e)
  query-Session (err x) s t e = ground (arith, e)
  query-Session stray s t e = ground (arith, e)

  execute-Session :
      (r : Result Execute) (s t : Session W)
      → handle_execute_message h r s ≡ ok t
      → (t.send_ready_for_query ≡ s.send_ready_for_query) × (t.terminated ≡ s.terminated)
  unfolding handle_execute_message
  execute-Session (ok a) s t e = ground (arith, e)
  execute-Session (err x) s t e = ground (arith, e)
  execute-Session stray s t e = ground (arith, e)

  dispatch-ready :
      (m : BaseMessage) (s t : Session W)
      → dispatch h m s ≡ ok t
      → t.send_ready_for_query
        ≡ (m.type == psql_sync || (s.send_ready_for_query && not (m.type == psql_parse)))
  unfolding dispatch
  dispatch-ready m s t e =
      let q = query-Session (read_query m) s t in
      let p =
        handled-Session (read_parse m) h.on_parse (record s { send_ready_for_query = false }) t in
      let b = handled-Session (read_bind m) h.on_bind s t in
      let d = handled-Session (read_describe m) h.on_describe s t in
      let x = execute-Session (read_execute m) s t in ground (arith, q, p, b, d, x)

  dispatch-terminated :
      (m : BaseMessage) (s t : Session W)
      → dispatch h m s ≡ ok t
      → t.terminated ≡ (m.type == psql_terminate || s.terminated)
  unfolding dispatch
  dispatch-terminated m s t e =
      let q = query-Session (read_query m) s t in
      let p =
        handled-Session (read_parse m) h.on_parse (record s { send_ready_for_query = false }) t in
      let b = handled-Session (read_bind m) h.on_bind s t in
      let d = handled-Session (read_describe m) h.on_describe s t in
      let x = execute-Session (read_execute m) s t in ground (arith, q, p, b, d, x)

  dispatch-recovers :
      (m : BaseMessage) (s t : Session W)
      → dispatch h m s ≡ ok t
      → (t.extended_query_error && m.type == psql_sync) ≡ false
  unfolding dispatch
  dispatch-recovers m s t e = ground arith

  dispatch-cursor :
      (m : BaseMessage) (s t : Session W)
      → dispatch h m s ≡ ok t
      → m.type ≢ psql_execute
      → t.cursor ≡ (if m.type == psql_sync then none else s.cursor)
  unfolding dispatch
  dispatch-cursor m s t e n =
      let q = query-Session (read_query m) s t in
      let p =
        handled-Session (read_parse m) h.on_parse (record s { send_ready_for_query = false }) t in
      let b = handled-Session (read_bind m) h.on_bind s t in
      let d = handled-Session (read_describe m) h.on_describe s t in
      let x = execute-Session (read_execute m) s t in ground (arith, q, p, b, d, x)

  -- A message that is not discarded clears `send_ready_for_query` if it is a Parse and sets it if it is
  -- a Sync, ends the loop if it is a Terminate, and changes the cursor only if it is an Execute, or a
  -- Sync, which drops it and clears the error.
  pub step-Moved :
      (m : BaseMessage) (s t : Session W) → IsHandled m s → step h m s ≡ ok t → Moved m s t
  unfolding step
  step-Moved m s t i e =
      let g : dispatch h m s ≡ ok t = rw i at e in
      record {
        ready_iff = dispatch-ready m s t g;
        terminated_iff = dispatch-terminated m s t g;
        recovers = dispatch-recovers m s t g;
        cursor_moves = elim (ℕ_discrete m.type psql_execute) [
          | yes y ↦ inl y
          | no n ↦ inr (dispatch-cursor m s t g n)
        ];
      }
