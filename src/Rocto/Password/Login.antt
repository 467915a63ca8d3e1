-- ===== src/Rocto/Password/Login.antt =====
-- Which passwords are accepted.
use ydbocto.Prelude.{
  ℕ, ◌≤◌, ◌<◌, ◌≡◌, refl, ◌↔◌, Bool, true, Option, some, List, [], ◌∷◌, ◌++◌, arith, length,
  get_elem?, take, drop, All, take-append-drop,
}
use ydbocto.Rocto.Password.{
  hex_bytes, md5_to_hex, rolpassword, same, find_user, handle_password_message, ok,
}
use ydbocto.Rocto.Startup.{Parm}
use ydbocto.Rocto.Bytes.{Bytes, codes, NoNul}
use ydbocto.Rocto.Make.Answers.{take_all}
use ydbocto.Rocto.Password.Columns.{NoDelimiter, put_columns, get_user_column_value-put_columns}

same_refl : (b : Bytes) → same b b ≡ true
unfolding same
same_refl [] = refl
same_refl (c ∷ b) = ground (arith, same_refl b)

same_sound : (a b : Bytes) → same a b ≡ true → a ≡ b
unfolding same
same_sound [] [] h = refl
same_sound [] (d ∷ b) h = absurd (ground arith)
same_sound (c ∷ a) [] h = absurd (ground arith)
same_sound (c ∷ a) (d ∷ b) h = ground (arith, same_sound a b)

module _ (md5 : Bytes → Bytes) (lookup : Bytes → Option Bytes) (store : Bytes → Bool)
    (max_ident : ℕ) where
  -- A user whose row the database holds, with the digest `hash` of name and password.
  pub record IsUser (parms : List Parm) (name hash : Bytes) : Type 0 where
    pub columns : List Bytes
    pub rest : Bytes
    pub user : find_user parms ≡ some name
    pub short_name : length name < max_ident
    pub row : lookup name ≡ some (put_columns columns rest)
    pub delimited : All NoDelimiter columns
    pub stored : get_elem? columns rolpassword ≡ some (codes "md5" ++ hash)
    pub hash_string : NoNul hash
    pub hash_length : length hash ≤ 32
    pub stores : store name ≡ true

  -- A registered user is let in exactly with the text "md5" and the hexadecimal digest of the stored hash
  -- with the salt behind it.
  pub handle_password_message_iff :
      (password salt name hash : Bytes) (parms : List Parm)
      → ((b : Bytes) → length (md5 b) ≡ 16)
      → length salt ≡ 4
      → IsUser parms name hash
      → (handle_password_message md5 lookup store max_ident password parms salt ≡ ok tt)
        ↔ (password ≡ codes "md5" ++ hex_bytes (md5 (hash ++ salt)))
  unfolding handle_password_message md5_to_hex
  handle_password_message_iff password salt name hash parms m s u =
      let v = codes "md5" ++ hash in
      let c =
        get_user_column_value-put_columns 36 u.columns u.rest rolpassword v u.delimited u.stored
          (omega arith) (omega (arith, u.hash_length)) (ground (arith, u.hash_string)) in
      let digest = md5 (hash ++ salt) in
      let whole_salt : take 4 salt ≡ salt = take_all 4 salt (omega (arith, s)) in
      let whole : take 16 digest ≡ digest = take_all 16 digest (omega (arith, m (hash ++ salt))) in
      (
        λ h.
            let prefix = same_sound (take 3 password) (codes "md5") in
            let text = same_sound (hex_bytes digest) (drop 3 password) in
            let parts = take-append-drop 3 password in
            ground (arith, u.user, u.short_name, u.row, c, whole_salt, whole, prefix, text, parts),
        λ h.
            let t = same_refl (hex_bytes digest) in
            ground (arith, u.user, u.short_name, u.row, c, whole_salt, whole, t, u.stores, h),
      )
