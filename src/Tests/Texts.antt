-- ===== src/Tests/Texts.antt =====
-- Patterns, escaped texts, generated names and blocks of memory.

use ydbocto.Types.{string_literal}
use ydbocto.Text.Patterns.{
  is_regex_char, SqlValue, value_statement, regex_like, regex_similarto,
  regex_has_no_special_characters,
}
use ydbocto.Text.Patterns.Answers.{
  regex_has_no_special_characters-plain_answer, stored_answer,
  regex_has_no_special_characters-stored_answer,
}
use ydbocto.Text.Patterns.Matches.{is_like, is_dangling}
use ydbocto.Text.Patterns.Single.{Two, regex_has_no_special_characters-Two}
use ydbocto.Text.Generated.{table_global, Hash, generate_name_type}
use ydbocto.Text.Generated.Reading.{read_name, read_name-generate_name_type}
use ydbocto.Text.Escaping.{Escape, m_escape_string2}
use ydbocto.Text.Escaping.Bounds.{doubled, m_escape_string2-doubled}
use ydbocto.Memory.{Memory, alloc_chunk, allocate}
use ydbocto.Memory.Lists.{Links, dqappend}
use ydbocto.Memory.Lists.Circles.{IsLinked, is_walk, dqappend-is_walk}
use ydbocto.Text.Like.{checked_like, regex_specification, negate, compares, checked_like-is_like}
use ydbocto.Types.Operations.{BinaryOperation}
use ydbocto.Memory.Blocks.{are_inside, are_apart, allocate-are_apart}
use ydbocto.Prelude.{
  ℕ, zero, suc, ◌+◌, ◌≡◌, refl, ap, ◌⊎◌, Bool, true, false, some, List, [], ◌∷◌, ◌++◌, arith,
  length, take, replicate,
}

abbrev stored : SqlValue → Bool
stored v = true

abbrev value_of : List ℕ → SqlValue
value_of text = record { type = string_literal; string_literal = text; parameter_index = 1 }

-- '5\%'
abbrev escaped : SqlValue
escaped = value_of (53 ∷ 92 ∷ 37 ∷ [])

always : (w : SqlValue) → stored w ≡ true
always w = refl

regex_has_no_special_characters-stored_answer_example :
    regex_has_no_special_characters stored regex_similarto (value_statement escaped)
    ≡ stored_answer stored escaped regex_similarto
regex_has_no_special_characters-stored_answer_example =
    regex_has_no_special_characters-stored_answer stored escaped regex_similarto always

checked_like-is_like_example :
    (op : BinaryOperation) × (text : List ℕ) × (checked_like stored
        (regex_specification regex_like true true).operation
        escaped
      ≡ some (op, text))
    × (negate
          (regex_specification regex_like true true).is_negated
          (compares op text (53 ∷ 37 ∷ []))
        ≡ negate true (is_like false escaped.string_literal (53 ∷ 37 ∷ [])))
checked_like-is_like_example = checked_like-is_like stored true escaped (53 ∷ 37 ∷ []) always refl

-- '5%'
abbrev percent : SqlValue
percent = value_of (53 ∷ 37 ∷ [])

regex_has_no_special_characters-Two_example :
    (is_dangling false percent.string_literal ≡ true) ⊎ Two false percent.string_literal
unfolding is_regex_char
regex_has_no_special_characters-Two_example =
    regex_has_no_special_characters-Two stored percent refl
      (regex_has_no_special_characters-plain_answer stored regex_like percent)

abbrev hash : Hash
hash = record { one = 18446744073709551615; two = 12345 }

read_name-generate_name_type_example :
    read_name (generate_name_type table_global hash) ≡ some (table_global, hash)
read_name-generate_name_type_example =
    read_name-generate_name_type hash (omega arith) (omega arith) table_global

abbrev zeros : ℕ → List ℕ
zeros n = replicate n 0

zeros_size : (n : ℕ) → length (zeros n) ≡ n
zeros_size zero = refl
zeros_size (suc n) = ap suc (zeros_size n)

m_escape_string2-doubled_example :
    (f : Escape) × (m_escape_string2 zeros (1 ∷ 1 ∷ []) 2 (34 ∷ 97 ∷ []) ≡ some f)
    × (take f.i f.buffer ≡ doubled (34 ∷ 97 ∷ []) ++ (0 ∷ []))
    × (f.i ≡ length (doubled (34 ∷ 97 ∷ [])) + 1)
    × (f.buffer_len ≡ length f.buffer)
unfolding doubled
m_escape_string2-doubled_example =
    m_escape_string2-doubled zeros zeros_size (1 ∷ 1 ∷ []) (34 ∷ 97 ∷ []) (omega arith)
      (ground arith)

-- A chunk of ten bytes, and three blocks of which the second needs a chunk of its own.
abbrev memory : Memory
memory = record { earlier = []; last = alloc_chunk 10 }

allocate-are_apart_example :
    (are_inside
        (allocate (4 ∷ 2000000 ∷ 6 ∷ []) memory).1
        (allocate (4 ∷ 2000000 ∷ 6 ∷ []) memory).0
      ≡ true)
    × (are_apart (allocate (4 ∷ 2000000 ∷ 6 ∷ []) memory).0 ≡ true)
allocate-are_apart_example = allocate-are_apart (4 ∷ 2000000 ∷ 6 ∷ []) memory refl refl

-- Every node in a circle of its own.
abbrev alone : Links
alone = record { next = λ n. n; prev = λ n. n }

alone-IsLinked : IsLinked alone
alone-IsLinked = record { prev_next = (λ n. refl); next_prev = (λ n. refl) }

dqappend-is_walk_example :
    (is_walk (dqappend 1 2 alone).next 1 (2 ∷ []) 1 ≡ true) × IsLinked (dqappend 1 2 alone)
dqappend-is_walk_example = dqappend-is_walk 1 2 [] [] alone alone-IsLinked refl refl refl refl
