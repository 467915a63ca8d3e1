-- ===== src/Rocto/Session/Loop.antt =====
-- The loop: no message but a Bind leads it out of the modelled behaviour, and a Terminate ends it.
use ydbocto.Prelude.{◌≡◌, refl, ◌≢◌, Bool, true, false, some, List, ◌∷◌, arith, ◌∙◌, []}
use ydbocto.Rocto.Message.{BaseMessage, psql_bind, psql_terminate, Result, stray, ok, err}
use ydbocto.Rocto.Session.{
  Handlers, Session, Poll, Round, handled, handle_query_message, handle_execute_message, dispatch,
  step, announce, play, run, pending, quiet, poll_failed,
}
use ydbocto.Rocto.Read.{read_query, read_parse, read_describe, Execute, read_execute}
use ydbocto.Rocto.Bytes.{Bytes}
use ydbocto.Rocto.Read.Sound.{read_parse-ne-stray, read_execute-ne-stray}
use ydbocto.Rocto.Read.Targets.{read_describe-ne-stray}
use ydbocto.Rocto.Read.RoundTrip.{read_query-ne-stray}

module _ {ℓ} {W : Type ℓ} (h : Handlers W) where
  handled-ne-stray :
      {A : Type 0} (r : Result A) (f : A → W → W × Bool) (s : Session W)
      → r ≢ stray
      → handled h r f s ≢ stray
  unfolding handled
  handled-ne-stray (ok a) f s n e = ground (arith, e)
  handled-ne-stray (err x) f s n e = ground (arith, e)
  handled-ne-stray stray f s n e = absurd (n refl)

  handle_query_message-ne-stray :
      (r : Result Bytes) (s : Session W) → r ≢ stray → handle_query_message h r s ≢ stray
  unfolding handle_query_message
  handle_query_message-ne-stray (ok a) s n e = ground (arith, e)
  handle_query_message-ne-stray (err x) s n e = ground (arith, e)
  handle_query_message-ne-stray stray s n e = absurd (n refl)

  handle_execute_message-ne-stray :
      (r : Result Execute) (s : Session W) → r ≢ stray → handle_execute_message h r s ≢ stray
  unfolding handle_execute_message
  handle_execute_message-ne-stray (ok a) s n e = ground (arith, e)
  handle_execute_message-ne-stray (err x) s n e = ground (arith, e)
  handle_execute_message-ne-stray stray s n e = absurd (n refl)

  -- Whatever message of another type than Bind a client sends, and in whatever state, the session goes on
  -- without a read outside of the message.
  pub step-ne-stray : (m : BaseMessage) (s : Session W) → m.type ≢ psql_bind → step h m s ≢ stray
  unfolding step dispatch
  step-ne-stray m s n e =
      let q = handle_query_message-ne-stray (read_query m) s (read_query-ne-stray m) in
      let p =
        handled-ne-stray (read_parse m) h.on_parse (record s { send_ready_for_query = false })
          (read_parse-ne-stray m) in
      let d = handled-ne-stray (read_describe m) h.on_describe s (read_describe-ne-stray m) in
      let x = handle_execute_message-ne-stray (read_execute m) s (read_execute-ne-stray m) in
      ground (arith, q, p, d, x)

  step-terminate :
      (b : Bytes) (s : Session W)
      → s.extended_query_error ≡ false
      → step h (record { type = psql_terminate; bytes = b }) s ≡ ok (record s { terminated = true })
  unfolding step dispatch
  step-terminate b s e = ground (arith, e)

  announce-eq-error :
      (poll : Poll) (s t : Session W)
      → announce h poll s ≡ (t, true)
      → t.extended_query_error ≡ s.extended_query_error
  unfolding announce
  announce-eq-error pending s t a = ground (arith, a)
  announce-eq-error poll_failed s t a = ground (arith, a)
  announce-eq-error quiet s t a = ground (arith, a)

  run-terminated : (rs : List Round) (s : Session W) → s.terminated ≡ true → run h rs s ≡ ok s
  unfolding run
  run-terminated [] s e = refl
  run-terminated (r ∷ rs) s e = ground (arith, e)

  -- With no error pending, a Terminate ends the loop, whatever the client sends behind it.
  run-terminate :
      (poll : Poll) (b : Bytes) (rs : List Round) (s t : Session W)
      → s.terminated ≡ false
      → s.extended_query_error ≡ false
      → announce h poll s ≡ (t, true)
      → run h
          (record { poll = poll; received = some (record { type = psql_terminate; bytes = b }) }
            ∷ rs)
          s
        ≡ ok (record t { terminated = true })
  unfolding run play
  run-terminate poll b rs s t e1 e2 a =
      let live : t.extended_query_error ≡ false = announce-eq-error poll s t a ∙ e2 in
      let last = step-terminate b t live in
      rw a (rw last (rw e1 (run-terminated rs (record t { terminated = true }) refl)))
