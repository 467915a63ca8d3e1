-- ===== src/Tests/Sessions.antt =====
-- Sessions for src/rocto/rocto_main_loop.c, over handlers that count their calls.
use ydbocto.Rocto.Message.{ok, stray, BaseMessage, psql_sync, psql_terminate}
use ydbocto.Rocto.Session.{Handlers, Session, dispatch, step, steps}
use ydbocto.Prelude.{ℕ, ◌+◌, ◌≡◌, refl, ◌≢◌, inl, true, false, none, some, [], ◌∷◌, arith}
use ydbocto.Rocto.Read.{Parse, Target, Execute}
use ydbocto.Rocto.Bytes.{codes}
use ydbocto.Rocto.Session.Moves.{Moved, step-Moved}
use ydbocto.Rocto.Session.Exchange.{steps-discard, steps-exchange}
use ydbocto.Rocto.Session.Loop.{step-ne-stray}
use ydbocto.Rocto.Bind.RoundTrip.{Request, bind_message, IsRequest}
use ydbocto.Rocto.Read.Encode.{parse_message, IsParse, describe_message, execute_message}

abbrev counting : Handlers ℕ
counting = record {
  on_query = λ q n. n + 1;
  on_parse = λ p n. (n + 1, false);
  on_bind = λ b n. (n + 1, false);
  on_describe = λ t n. (n + 1, false);
  on_execute = λ e c n. (n + 1, false, some 7);
  ready = λ n. (n, false);
}

abbrev fresh : Session ℕ
fresh = record {
  world = 0;
  cursor = none;
  send_ready_for_query = true;
  extended_query_error = false;
  terminated = false;
}

abbrev failed : Session ℕ
failed = record fresh { extended_query_error = true }

abbrev sync_message : BaseMessage
sync_message = record { type = psql_sync; bytes = [] }

abbrev terminate_message : BaseMessage
terminate_message = record { type = psql_terminate; bytes = [] }

abbrev parse_request : Parse
parse_request = record { dest = codes "s"; query = codes "SELECT 1;"; parm_data_types = [] }

abbrev bind_request : Request
bind_request = record {
  dest = codes "p";
  source = codes "s";
  parm_format_codes = [];
  parms = [];
  result_col_format_codes = [];
}

abbrev described : Target
described = record { item = b'P'; name = codes "p" }

abbrev executed : Execute
executed = record { source = codes "p"; rows_to_return = 0 }

parse_request-IsParse : IsParse parse_request
parse_request-IsParse = record {
  dest_string = ground arith;
  query_string = ground arith;
  few_types = ground arith;
  types_fit = tt;
}

bind_request-IsRequest : IsRequest bind_request
bind_request-IsRequest = record {
  dest_string = ground arith;
  source_string = ground arith;
  parm_codes = tt;
  result_codes = tt;
  few_parms = ground arith;
  few_codes = ground arith;
  one_or_all = inl (ground arith);
  few_results = ground arith;
  parms_fit = tt;
}

steps-exchange_example :
    steps counting
      (parse_message parse_request
        ∷ bind_message bind_request
        ∷ describe_message described
        ∷ execute_message executed
        ∷ sync_message
        ∷ [])
      fresh
    ≡ ok (record fresh { world = 4 })
steps-exchange_example =
    steps-exchange counting parse_request bind_request [] described executed [] fresh 1 2 3 4
      (some 7) refl parse_request-IsParse bind_request-IsRequest refl (ground arith, refl)
      (ground arith, ground arith, ground arith) refl refl refl refl

steps-discard_example :
    steps counting (terminate_message ∷ sync_message ∷ []) failed ≡ steps counting [] fresh
steps-discard_example =
    steps-discard counting (terminate_message ∷ []) [] [] failed refl (ground arith)

step-ne-stray_example : step counting sync_message failed ≢ stray
step-ne-stray_example = step-ne-stray counting sync_message failed (ground arith)

step-Moved_example : Moved counting sync_message fresh fresh
unfolding step dispatch
step-Moved_example = step-Moved counting sync_message fresh fresh refl refl
