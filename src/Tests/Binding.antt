-- ===== src/Tests/Binding.antt =====
-- A Bind message for src/rocto/read_bind.c.
use ydbocto.Rocto.Message.{ok}
use ydbocto.Rocto.Bind.RoundTrip.{Request, IsRequest, bind_message, read_bind-bind_message}
use ydbocto.Prelude.{◌≡◌, refl, inr, true, some, List, [], ◌∷◌, map, arith}
use ydbocto.Rocto.Bind.{Bind, read_bind}
use ydbocto.Rocto.Bytes.{Bytes, codes}
use ydbocto.Rocto.Bind.Accepted.{IsAccepted, read_bind-IsAccepted}

abbrev values : List Bytes
values = codes "7" ∷ codes "id" ∷ []

abbrev plain : Request
plain = record {
  dest = codes "p1";
  source = codes "s";
  parm_format_codes = 0 ∷ 1 ∷ [];
  parms = map some values;
  result_col_format_codes = 0 ∷ [];
}

plain-IsRequest : IsRequest plain
plain-IsRequest = record {
  dest_string = ground arith;
  source_string = ground arith;
  parm_codes = ground arith;
  result_codes = ground arith;
  few_parms = ground arith;
  few_codes = ground arith;
  one_or_all = inr refl;
  few_results = ground arith;
  parms_fit = ground arith;
}

abbrev bound : Bind
bound = record {
  dest = codes "p1";
  source = codes "s";
  parm_format_codes = 0 ∷ 1 ∷ [];
  parms = values;
  result_col_format_codes = 0 ∷ [];
  all_read = true;
}

read_bind-bind_message_example : read_bind (bind_message plain) ≡ ok bound
read_bind-bind_message_example = read_bind-bind_message plain values plain-IsRequest refl

read_bind-IsAccepted_example : IsAccepted bound
read_bind-IsAccepted_example =
    read_bind-IsAccepted (bind_message plain) bound read_bind-bind_message_example
