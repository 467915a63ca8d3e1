-- ===== src/Rocto/Make/Tags.antt =====
-- CommandComplete, src/rocto/make_command_complete.c: every tag fits its buffer.
use ydbocto.Rocto.Make.{
  select, insert, delete_from, update, set, show, drop_table, drop_view, create_table, create_view,
  drop_function, create_function, truncate_table, other, command_tag, Outgoing, StatementType,
  max_tag_len, make_command_complete,
}
use ydbocto.Prelude.{
  ℕ, zero, suc, ◌+◌, ◌≤◌, ◌<◌, ◌≡◌, refl, ◌≢◌, some, [], ◌∷◌, ◌++◌, arith, length, take,
  length-append,
}
use ydbocto.Rocto.Bytes.{Bytes, codes}
use ydbocto.Rocto.Make.Framing.{IsFramed}

length-take_lt : (n : ℕ) (b : Bytes) → length (take n b) < suc n
length-take_lt zero b = omega arith
length-take_lt (suc n) [] = omega arith
length-take_lt (suc n) (c ∷ b) = omega (arith, length-take_lt n b)

command_tag-made :
    (print_int : ℕ → Bytes) (t : StatementType) (n : ℕ)
    → t ≢ other
    → (tag : Bytes) × (command_tag print_int t n ≡ some tag) × (length tag < max_tag_len)
unfolding command_tag
command_tag-made print_int select n h =
    (_, refl, length-take_lt 36 (codes "SELECT " ++ print_int n))
command_tag-made print_int insert n h =
    (_, refl, length-take_lt 36 (codes "INSERT 0 " ++ print_int n))
command_tag-made print_int delete_from n h =
    (_, refl, length-take_lt 36 (codes "DELETE " ++ print_int n))
command_tag-made print_int update n h =
    (_, refl, length-take_lt 36 (codes "UPDATE " ++ print_int n))
command_tag-made print_int set n h = (_, refl, length-take_lt 36 (codes "SET"))
command_tag-made print_int show n h = (_, refl, length-take_lt 36 (codes "SHOW"))
command_tag-made print_int drop_table n h = (_, refl, length-take_lt 36 (codes "DROP TABLE"))
command_tag-made print_int drop_view n h = (_, refl, length-take_lt 36 (codes "DROP VIEW"))
command_tag-made print_int create_table n h = (_, refl, length-take_lt 36 (codes "CREATE TABLE"))
command_tag-made print_int create_view n h = (_, refl, length-take_lt 36 (codes "CREATE VIEW"))
command_tag-made print_int drop_function n h = (_, refl, length-take_lt 36 (codes "DROP FUNCTION"))
command_tag-made print_int create_function n h =
    (_, refl, length-take_lt 36 (codes "CREATE FUNCTION"))
command_tag-made print_int truncate_table n h =
    (_, refl, length-take_lt 36 (codes "TRUNCATE TABLE"))
command_tag-made print_int other n h = absurd (h refl)

-- Every statement that has a command tag gets a CommandComplete message, which is framed and whose
-- tag fits the buffer, its NUL included.
make_command_complete-made :
    (print_int : ℕ → Bytes) (t : StatementType) (n : ℕ)
    → t ≢ other
    → (o : Outgoing) × (make_command_complete print_int t n ≡ some o)
      × IsFramed o
      × (length o.bytes ≤ max_tag_len)
unfolding make_command_complete
make_command_complete-made print_int t n h =
    let (tag, e, l) = command_tag-made print_int t n h in
    (
      record { type = b'C'; length_field = 4 + (length tag + 1); bytes = tag ++ 0 ∷ [] },
      ground (arith, e),
      omega (arith, length-append tag (0 ∷ [])),
      omega (arith, length-append tag (0 ∷ [])),
    )
