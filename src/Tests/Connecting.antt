-- ===== src/Tests/Connecting.antt =====
-- Messages of a new connection, for src/rocto/read_startup_message.c and read_cancel_request.c.
use ydbocto.Rocto.Message.{ok, stray}
use ydbocto.Prelude.{◌+◌, ◌≡◌, refl, ◌≢◌, List, [], ◌∷◌, arith, length}
use ydbocto.Rocto.Startup.{Parm, read_startup_message}
use ydbocto.Rocto.Bytes.{codes}
use ydbocto.Rocto.Startup.Passes.{IsParm, read_startup_message-ne-stray}
use ydbocto.Rocto.Startup.RoundTrip.{startup_body, read_startup_message_iff}

abbrev user : Parm
user = record { name = codes "user"; value = codes "ydb" }

user-IsParm : IsParm user
user-IsParm = record {
  name_string = ground arith;
  name_ne_nil = ground arith;
  value_string = ground arith;
}

abbrev one_parm : List Parm
one_parm = user ∷ []

read_startup_message_iff_example :
    read_startup_message (length (startup_body one_parm) + 8) 0x30000 (startup_body one_parm)
    ≡ ok one_parm
read_startup_message_iff_example =
    (read_startup_message_iff (startup_body one_parm) one_parm (ground arith)).1
      (refl, ground arith, (user-IsParm, tt))

read_startup_message-ne-stray_example :
    read_startup_message (length (startup_body one_parm) + 8) 0x30000 (startup_body one_parm)
    ≢ stray
read_startup_message-ne-stray_example =
    read_startup_message-ne-stray 0x30000 (startup_body one_parm) (ground arith)
