-- ===== src/Tests/Passwords.antt =====
-- A user, a row of the database and a digest for src/rocto/handle_password_message.c.
use ydbocto.Rocto.Message.{ok}
use ydbocto.Prelude.{◌≡◌, refl, Bool, true, Option, some, List, [], ◌∷◌, ◌++◌, arith, replicate}
use ydbocto.Rocto.Password.{hex_bytes, same, find_user, handle_password_message}
use ydbocto.Rocto.Startup.{Parm}
use ydbocto.Rocto.Bytes.{Bytes, codes}
use ydbocto.Rocto.Password.Login.{IsUser, handle_password_message_iff}
use ydbocto.Rocto.Password.Columns.{put_columns}

abbrev columns : List Bytes
columns = codes "1" ∷ codes "ada" ∷ [] ∷ [] ∷ [] ∷ [] ∷ [] ∷ [] ∷ [] ∷ [] ∷ codes "md5c0ffee" ∷ []

abbrev stored_row : Bytes
stored_row = put_columns columns []

abbrev login : List Parm
login =
    record { name = codes "database"; value = codes "d" }
    ∷ record { name = codes "user"; value = codes "ada" }
    ∷ []

-- A stand-in for the TLS library's digest.
abbrev digest : Bytes → Bytes
digest b = replicate 16 171

abbrev rows : Bytes → Option Bytes
rows name = some stored_row

abbrev writes : Bytes → Bool
writes name = true

abbrev salt : Bytes
salt = 1 ∷ 2 ∷ 3 ∷ 4 ∷ []

login-IsUser : IsUser digest rows writes 31 login (codes "ada") (codes "c0ffee")
unfolding find_user same
login-IsUser = record {
  columns = columns;
  rest = [];
  user = refl;
  short_name = ground arith;
  row = refl;
  delimited = ground arith;
  stored = refl;
  hash_string = ground arith;
  hash_length = ground arith;
  stores = refl;
}

handle_password_message_iff_example :
    handle_password_message digest rows writes 31
      (codes "md5" ++ hex_bytes (replicate 16 171))
      login
      salt
    ≡ ok tt
handle_password_message_iff_example =
    (handle_password_message_iff digest rows writes 31 (codes "md5" ++ hex_bytes (replicate 16 171))
        salt (codes "ada") (codes "c0ffee") login (λ b. refl) refl login-IsUser).1
      refl
