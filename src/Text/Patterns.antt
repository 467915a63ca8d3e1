-- ===== src/Text/Patterns.antt =====
-- Patterns of LIKE and SIMILAR TO that are plain texts, src/regex_has_no_special_characters.c. The children are about what
-- such a pattern matches.
pub mod Tokens
pub mod Matches
pub mod Buffers
pub mod Answers
pub mod Single
use mathlib.Core.Option
use ydbocto.Types.{SqlValueType, is_string_type}
use ydbocto.Prelude.{
  ℕ, ◌-◌, Bool, true, false, not, ◌&&◌, ◌||◌, Option, none, some, List, [], ◌∷◌, ◌++◌, map, ◌==◌,
  if◌then◌else◌, length, take,
}

-- The types of patterns; the function is not called with the third.
pub data RegexType : Type 0 where
  regex_like regex_similarto regex_tilde : RegexType

-- The fields of a value that the function reads or writes: `type`, `v.string_literal`, `parameter_index`.
pub record SqlValue : Type 0 where
  pub type : SqlValueType
  pub string_literal : List ℕ
  pub parameter_index : ℕ

pub data SqlStatement : Type 0 where
  value_statement : SqlValue → SqlStatement
  other_statement : SqlStatement

-- The characters that have a special meaning.
unfoldable pub is_regex_char : RegexType → ℕ → Bool
is_regex_char t ch =
    ch == b'%'
    || ch == b'_'
    || (elim t [ regex_similarto ↦ true | _ ↦ false ])
      && (ch == b'|'
          || ch == b'*'
          || ch == b'+'
          || ch == b'('
          || ch == b'['
          || ch == b'{'
          || ch == b'?')

-- The loop's variables when it ends; `ptr_minus_escape` is the text written to the buffer, if there is one.
pub record Scan : Type 0 where
  pub has_regex_chars : Bool
  pub esc_state : Bool
  pub ptr_minus_escape : Option (List ℕ)

-- The buffer begins with what stands in front of the first escape character.
abbrev pub begun : List ℕ → Option (List ℕ) → List ℕ
begun seen none = take (length seen - 1) seen
begun seen (some text) = text

-- What one character does to the buffer.
abbrev pub written : Bool → List ℕ → Option (List ℕ) → ℕ → Option (List ℕ)
written esc_state seen buffer ch =
    if esc_state
    then some (begun seen buffer ++ (ch ∷ []))
    else if ch == 92
    then buffer
    else Option.map (λ text. text ++ (ch ∷ [])) buffer

-- The loop, with what it has read: `esc_state` and the buffer.
pub scan : RegexType → List ℕ → Bool → Option (List ℕ) → List ℕ → Scan
scan t seen esc_state buffer [] = record {
  has_regex_chars = false;
  esc_state = esc_state;
  ptr_minus_escape = buffer;
}
scan t seen esc_state buffer (ch ∷ rest) =
    let next =
      scan t (seen ++ (ch ∷ [])) (not esc_state && ch == 92) (written esc_state seen buffer ch)
        rest in
    if not esc_state && not (ch == 92) && is_regex_char t ch
    then record { has_regex_chars = true; esc_state = false; ptr_minus_escape = buffer }
    else next

-- The result: 1 with the statement as it is then, 0, or -1, where the statement has changed as well.
pub data Result : Type 0 where
  no_special_characters : SqlStatement → Result
  special_characters : Result
  error : SqlStatement → Result

module _ (parse_literal_to_parameter : SqlValue → Bool) where
  -- The literal is repointed if escape characters were taken out, and its parameter is updated.
  pub repointed : SqlValue → Option (List ℕ) → Result
  repointed v none = no_special_characters (value_statement v)
  repointed v (some text) =
      let changed : SqlValue = record v { string_literal = text } in
      if not (v.parameter_index == 0) && not (parse_literal_to_parameter changed)
      then error (value_statement changed)
      else no_special_characters (value_statement changed)

  pub regex_has_no_special_characters : RegexType → SqlStatement → Result
  unfolding scan repointed
  regex_has_no_special_characters t other_statement = special_characters
  regex_has_no_special_characters t (value_statement v) =
      let s : Scan = scan t [] false none v.string_literal in
      if not (is_string_type v.type)
      then special_characters
      else if s.has_regex_chars || s.esc_state
      then special_characters
      else repointed v s.ptr_minus_escape
