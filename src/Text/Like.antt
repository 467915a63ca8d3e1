-- ===== src/Text/Like.antt =====
-- LIKE from the parser's src/parser/regex_specification.c to the operation that the type check leaves: the pattern of
-- Text/Patterns and the check of Types/Operations together.
use ydbocto.Types.{string_literal, is_string_type, SqlValueType}
use ydbocto.Types.Ambiguous.{Checked, passed, failed}
use ydbocto.Types.Operations.{
  BinaryOperation, binary_equals, binary_not_equals, regex_sensitive, regex_insensitive,
  regex_sensitive_like, regex_insensitive_like, regex_sensitive_similarto,
  regex_insensitive_similarto, Binary,
}
use ydbocto.Types.Operations.Comparisons.{Operands, binary_operation_data_type_check}
use ydbocto.Text.Patterns.{
  RegexType, regex_like, regex_similarto, regex_tilde, SqlValue, SqlStatement, value_statement,
  other_statement, no_special_characters, special_characters, error,
  regex_has_no_special_characters,
}
use ydbocto.Text.Patterns.Matches.{is_like, same_text, is_like-plain_text}
use ydbocto.Prelude.{
  ℕ, Bool, true, false, not, Option, none, some, List, [], ◌≡◌, refl, ◌∙◌, inl, inr, Option-cases,
  sym, ap, if◌then◌else◌,
}
use ydbocto.Text.Patterns.Tokens.{plain_text}
use ydbocto.Text.Patterns.Answers.{
  regex_has_no_special_characters-plain_answer, plain_answer-none, plain_answer-some,
}

-- The operation, and whether a NOT stands around it.
pub record Regex : Type 0 where
  pub operation : BinaryOperation
  pub is_negated : Bool

abbrev pub regex_operation : RegexType → Bool → BinaryOperation
regex_operation regex_like true = regex_sensitive_like
regex_operation regex_like false = regex_insensitive_like
regex_operation regex_similarto true = regex_sensitive_similarto
regex_operation regex_similarto false = regex_insensitive_similarto
regex_operation regex_tilde true = regex_sensitive
regex_operation regex_tilde false = regex_insensitive

-- `is_not`: an operation that is an equality is turned round, and any other one is put in a NOT.
abbrev pub negated : Bool → BinaryOperation → Regex
negated false op = record { operation = op; is_negated = false }
negated true binary_equals = record { operation = binary_not_equals; is_negated = false }
negated true op = record { operation = op; is_negated = true }

pub regex_specification : RegexType → Bool → Bool → Regex
regex_specification regex_type is_sensitive is_not =
    negated is_not (regex_operation regex_type is_sensitive)

-- What the check sees of two operands that are no columns of a set operation.
abbrev pub operands : Bool → Operands
operands is_plain = record {
  left_alias = none;
  right_alias = none;
  items = none;
  tables_match = true;
  is_plain = is_plain;
  date_time_return_type = string_literal;
}

abbrev operation_of : Checked Binary → Option BinaryOperation
operation_of (passed b) = some b.operation
operation_of (failed e) = none

-- A text compared with a text: what each of the two operations means for a subject.
abbrev pub compares : BinaryOperation → List ℕ → List ℕ → Bool
compares binary_equals text s = same_text text s
compares regex_sensitive_like text s = is_like false text s
compares _ text s = false

abbrev pub negate : Bool → Bool → Bool
negate true b = not b
negate false b = b

-- The literal of the statement that the test leaves.
abbrev pub text_of : SqlStatement → List ℕ
text_of (value_statement v) = v.string_literal
text_of other_statement = []

regex_specification_like :
    (is_not : Bool)
    → regex_specification regex_like true is_not
      ≡ record { operation = regex_sensitive_like; is_negated = is_not }
unfolding regex_specification
regex_specification_like true = refl
regex_specification_like false = refl

check_like :
    (t : SqlValueType) (b : Bool)
    → t ≡ string_literal
    → operation_of
        (binary_operation_data_type_check regex_sensitive_like (operands b) string_literal t)
      ≡ some (if b then binary_equals else regex_sensitive_like)
unfolding binary_operation_data_type_check
check_like t true h = rw h refl
check_like t false h = rw h refl

module _ (parse_literal_to_parameter : SqlValue → Bool) where
  -- A string and a pattern in the switch of binary_operation_data_type_check.c: the operation, and the pattern's text.
  pub checked_like : BinaryOperation → SqlValue → Option (BinaryOperation × List ℕ)
  checked_like op v =
      elim (regex_has_no_special_characters parse_literal_to_parameter regex_like
        (value_statement v)) [
          | error s ↦ none
          | special_characters ↦
              elim (operation_of
                (binary_operation_data_type_check op (operands false) string_literal v.type)) [
                  | none ↦ none
                  | some o ↦ some (o, v.string_literal)
                ]
          | no_special_characters s ↦
              elim (operation_of
                (binary_operation_data_type_check op (operands true) string_literal v.type)) [
                  | none ↦ none
                  | some o ↦ some (o, text_of s)
                ]
        ]

  checked_like-special :
      (v : SqlValue)
      → v.type ≡ string_literal
      → regex_has_no_special_characters parse_literal_to_parameter regex_like (value_statement v)
        ≡ special_characters
      → checked_like regex_sensitive_like v ≡ some (regex_sensitive_like, v.string_literal)
  unfolding checked_like
  checked_like-special v t k = rw (k, checked_like, check_like v.type false t) refl

  checked_like-plain :
      (v : SqlValue) (s : SqlStatement)
      → v.type ≡ string_literal
      → regex_has_no_special_characters parse_literal_to_parameter regex_like (value_statement v)
        ≡ no_special_characters s
      → checked_like regex_sensitive_like v ≡ some (binary_equals, text_of s)
  unfolding checked_like
  checked_like-plain v s t k = rw (k, checked_like, check_like v.type true t) refl

  -- Where every changed literal can be stored, [NOT] LIKE with a string for its pattern passes the check, and the operation that
  -- is left, with the text that the literal has then, gives of every subject what the pattern of LIKE does: it matches,
  -- or it does not, turned round by the NOT.
  pub checked_like-is_like :
      (is_not : Bool) (v : SqlValue) (s : List ℕ)
      → ((w : SqlValue) → parse_literal_to_parameter w ≡ true)
      → v.type ≡ string_literal
      → (op : BinaryOperation) × (text : List ℕ) × (checked_like
            (regex_specification regex_like true is_not).operation
            v
          ≡ some (op, text))
        × (negate (regex_specification regex_like true is_not).is_negated (compares op text s)
            ≡ negate is_not (is_like false v.string_literal s))
  checked_like-is_like is_not v s stores t =
      let a =
        regex_has_no_special_characters-plain_answer parse_literal_to_parameter regex_like v in
      let h : is_string_type v.type ≡ true = rw t refl in
      let r = regex_specification_like is_not in
      elim (Option-cases (plain_text regex_like v.string_literal)) [
        | inl p ↦
            let k = a ∙ plain_answer-none parse_literal_to_parameter v regex_like p in
            (regex_sensitive_like, v.string_literal, rw r (checked_like-special v t k), rw r refl)
        | inr (text, p) ↦
            let k = a ∙ plain_answer-some parse_literal_to_parameter v regex_like text h stores p in
            (
              binary_equals,
              text,
              rw r
                  (checked_like-plain v (value_statement (record v { string_literal = text })) t k),
              rw r (ap (negate is_not) (sym (is_like-plain_text v.string_literal text s p))),
            )
      ]
