-- ===== src/Rocto/Session.antt =====
-- The loop over a client's messages, src/rocto/rocto_main_loop.c. The handlers, which work on the database and
-- answer the client, are an interface over a state of their own.
pub mod Exchange
pub mod Moves
pub mod Loop
use ydbocto.Rocto.Bind.{Bind, read_bind}
use ydbocto.Prelude.{
  ℕ, Bool, true, false, not, ◌&&◌, ◌||◌, Option, none, some, List, [], ◌∷◌, ◌==◌, if◌then◌else◌,
}
use ydbocto.Rocto.Message.{
  ◌>>=◌, ◌>>◌, BaseMessage, psql_bind, psql_describe, psql_execute, psql_query, psql_parse,
  psql_sync, psql_terminate, Result, err, ok, stray,
}
use ydbocto.Rocto.Read.{read_query, Parse, read_parse, Target, read_describe, Execute, read_execute}
use ydbocto.Rocto.Bytes.{Bytes}

-- The handle_*.c and the sending of a ReadyForQuery, over a state `W`. True is the result 1 of a
-- handler, or a message that could not be sent. `execute` also gets the open cursor and changes it.
pub record Handlers {ℓ} (W : Type ℓ) : Type ℓ where
  pub on_query : Bytes → W → W
  pub on_parse : Parse → W → W × Bool
  pub on_bind : Bind → W → W × Bool
  pub on_describe : Target → W → W × Bool
  pub on_execute : Execute → Option ℕ → W → W × Bool × Option ℕ
  pub ready : W → W × Bool

-- The variables of the loop; the cursor -1 is none.
pub record Session {ℓ} (W : Type ℓ) : Type ℓ where
  pub world : W
  pub cursor : Option ℕ
  pub send_ready_for_query : Bool
  pub extended_query_error : Bool
  pub terminated : Bool

-- What `select` says, interruptions aside: a message is pending, none is, or the call failed.
pub data Poll : Type 0 where
  pending quiet poll_failed : Poll

-- A round of the loop: what `select` and then `read_message` give.
pub record Round : Type 0 where
  pub poll : Poll
  pub received : Option BaseMessage

module _ {ℓ} {W : Type ℓ} (h : Handlers W) where
  -- A reader and its handler, whose failures both set `extended_query_error`.
  pub handled : {A : Type 0} → Result A → (A → W → W × Bool) → Session W → Result (Session W)
  handled stray f s = stray
  handled (err e) f s = ok (record s { extended_query_error = true })
  handled (ok a) f s =
      let (w, failed) = f a s.world in
      ok (record s { world = w; extended_query_error = failed || s.extended_query_error })

  pub handle_query_message : Result Bytes → Session W → Result (Session W)
  handle_query_message stray s = stray
  handle_query_message (err e) s = ok s
  handle_query_message (ok q) s = ok (record s { world = h.on_query q s.world })

  pub handle_execute_message : Result Execute → Session W → Result (Session W)
  handle_execute_message stray s = stray
  handle_execute_message (err e) s = ok (record s { extended_query_error = true })
  handle_execute_message (ok e) s =
      let (w, failed, c) = h.on_execute e s.cursor s.world in
      ok (record s {
        world = w;
        cursor = c;
        extended_query_error = failed || s.extended_query_error;
      })

  -- `case PSQL_Sync`
  abbrev pub synced : Session W → Session W
  synced s = record s { cursor = none; send_ready_for_query = true; extended_query_error = false }

  -- `switch (message->type)`. A Flush and a message of an unknown type do nothing.
  unfoldable pub dispatch : BaseMessage → Session W → Result (Session W)
  unfolding handled handle_query_message handle_execute_message
  dispatch m s =
      if m.type == psql_query
      then handle_query_message (read_query m) s
      else if m.type == psql_parse
      then handled (read_parse m) h.on_parse (record s { send_ready_for_query = false })
      else if m.type == psql_bind
      then handled (read_bind m) h.on_bind s
      else if m.type == psql_describe
      then handled (read_describe m) h.on_describe s
      else if m.type == psql_execute
      then handle_execute_message (read_execute m) s
      else if m.type == psql_sync
      then ok (synced s)
      else if m.type == psql_terminate
      then ok (record s { terminated = true })
      else ok s

  -- After an error in an extended query exchange everything up to a Sync is discarded.
  unfoldable pub step : BaseMessage → Session W → Result (Session W)
  unfolding dispatch
  step m s = if s.extended_query_error && not (m.type == psql_sync) then ok s else dispatch m s

  pub steps : List BaseMessage → Session W → Result (Session W)
  unfolding step
  steps [] s = ok s
  steps (m ∷ ms) s = do t ← step m s; steps ms t

  -- The ReadyForQuery in front of a message; false is a `break`.
  unfoldable pub announce : Poll → Session W → Session W × Bool
  announce pending s = (s, true)
  announce poll_failed s = (s, false)
  announce quiet s =
      let (w, failed) = h.ready s.world in
      if s.send_ready_for_query then (record s { world = w }, not failed) else (s, true)

  pub play : Round → Session W → Result (Session W × Bool)
  unfolding announce step
  play r s =
      let (t, goes_on) = announce r.poll s in
      if not goes_on
      then ok (t, false)
      else elim r.received [ none ↦ ok (t, false) | some m ↦ do u ← step m t; ok (u, true) ]

  -- `while (!terminated)`, until the client's rounds are used up.
  pub run : List Round → Session W → Result (Session W)
  unfolding play
  run [] s = ok s
  run (r ∷ rs) s =
      if s.terminated
      then ok s
      else do (t, goes_on) ← play r s; let rest = run rs t in if goes_on then rest else ok t
