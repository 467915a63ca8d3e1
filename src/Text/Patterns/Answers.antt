-- ===== src/Text/Patterns/Answers.antt =====
-- The answers of regex_has_no_special_characters(): what they say of the pattern.
use mathlib.Core.Option
use ydbocto.Text.Patterns.{
  RegexType, SqlValue, value_statement, scan, Result, no_special_characters, special_characters,
  error, repointed, regex_has_no_special_characters, SqlStatement,
}
use ydbocto.Text.Patterns.Tokens.{plain_text, outcome, so_far, scan-plain_text}
use ydbocto.Prelude.{
  ℕ, ◌≡◌, refl, ◌∙◌, Bool, true, false, Option, none, some, List, [], arith, ◌≤◌, not, ◌&&◌, ◌++◌,
  ◌==◌, if◌then◌else◌, length, ap, inl, inr, Bool-cases, ◌||◌, sym, ==_refl, ◌≢◌, Option-cases,
}
use ydbocto.Types.{is_string_type}
use ydbocto.Text.Patterns.Buffers.{size-scan, size}

Option-map_same : (o : Option (List ℕ)) → Option.map (λ text. [] ++ text) o ≡ o
Option-map_same none = refl
Option-map_same (some x) = refl

scan_all :
    (t : RegexType) (pattern : List ℕ)
    → outcome pattern (scan t [] false none pattern) ≡ plain_text t pattern
scan_all t pattern =
    scan-plain_text t [] none pattern pattern refl ∙ Option-map_same (plain_text t pattern)

module _ (parse_literal_to_parameter : SqlValue → Bool) where
  -- The literal with its text; its parameter is updated where that is another text.
  abbrev updated : SqlValue → List ℕ → Result
  updated v text =
      let changed : SqlValue = record v { string_literal = text } in
      if not (length text == length v.string_literal)
        && (not (v.parameter_index == 0) && not (parse_literal_to_parameter changed))
      then error (value_statement changed)
      else no_special_characters (value_statement changed)

  abbrev answered : SqlValue → Option (List ℕ) → Result
  answered v none = special_characters
  answered v (some text) = updated v text

  -- The answer, read from the text that the pattern is.
  abbrev pub plain_answer : RegexType → SqlValue → Result
  plain_answer t v =
      if not (is_string_type v.type)
      then special_characters
      else answered v (plain_text t v.string_literal)

  repointed-updated :
      (v : SqlValue) (buffer : Option (List ℕ))
      → size false buffer ≤ length v.string_literal
      → repointed parse_literal_to_parameter v buffer ≡ updated v (so_far v.string_literal buffer)
  unfolding repointed
  repointed-updated v none l = rw (==_refl (length v.string_literal)) refl
  repointed-updated v (some text) l =
      let n : (length text == length v.string_literal) ≡ false = ground (arith, l) in rw n refl

  -- For a value the function answers what is read from its text: 0 where it is no string, or no plain text; -1 where an
  -- escape character was taken out and the changed literal has a parameter that cannot be stored, with the statement
  -- changed, where the function's own comment has it untouched; and 1 otherwise, with the text that the pattern is.
  pub regex_has_no_special_characters-plain_answer :
      (t : RegexType) (v : SqlValue)
      → regex_has_no_special_characters parse_literal_to_parameter t (value_statement v)
        ≡ plain_answer t v
  unfolding regex_has_no_special_characters
  regex_has_no_special_characters-plain_answer t v =
      let s = scan t [] false none v.string_literal in
      let o = scan_all t v.string_literal in
      let u =
        repointed-updated v s.ptr_minus_escape
          (size-scan t false [] none v.string_literal (omega arith)) in
      elim (Bool-cases (s.has_regex_chars || s.esc_state)) [
        | inl e ↦
            let p : plain_text t v.string_literal ≡ none = sym o ∙ rw e refl in
            rw (p, e, regex_has_no_special_characters) refl
        | inr e ↦
            let p : plain_text t v.string_literal
                ≡ some (so_far v.string_literal s.ptr_minus_escape) =
              sym o ∙ rw e refl in
            rw (p, e, u, regex_has_no_special_characters) refl
      ]

chosen_text :
    (b : Bool) (v changed : SqlValue)
    → (if b then error (value_statement v) else no_special_characters (value_statement v))
      ≡ no_special_characters (value_statement changed)
    → v.string_literal ≡ changed.string_literal
chosen_text true v changed h = absurd (ground (arith, h))
chosen_text false v changed h = ground (arith, h)

chosen_special :
    (b : Bool) (s : SqlStatement)
    → (if b then error s else no_special_characters s) ≢ special_characters
chosen_special true s h = ground (arith, h)
chosen_special false s h = ground (arith, h)

never : (a b : Bool) (x y : Result) → (if a && (b && false) then x else y) ≡ y
never true true x y = refl
never true false x y = refl
never false b x y = refl

-- What an answer says of the text that the pattern is.
module _ (parse_literal_to_parameter : SqlValue → Bool) (v : SqlValue) where
  answered-text :
      (b : Bool) (o : Option (List ℕ)) (changed : SqlValue)
      → (if not b then special_characters else answered parse_literal_to_parameter v o)
        ≡ no_special_characters (value_statement changed)
      → o ≡ some changed.string_literal
  answered-text false o changed h = absurd (ground (arith, h))
  answered-text true none changed h = absurd (ground (arith, h))
  answered-text true (some text) changed h =
      ap some (chosen_text _ (record v { string_literal = text }) changed h)

  answered-special :
      (b : Bool) (o : Option (List ℕ))
      → b ≡ true
      → (if not b then special_characters else answered parse_literal_to_parameter v o)
        ≡ special_characters
      → o ≡ none
  answered-special false o e h = absurd (ground (arith, e))
  answered-special true none e h = refl
  answered-special true (some text) e h =
      absurd (chosen_special _ (value_statement (record v { string_literal = text })) h)

  pub plain_answer-text :
      (t : RegexType) (changed : SqlValue)
      → plain_answer parse_literal_to_parameter t v
        ≡ no_special_characters (value_statement changed)
      → plain_text t v.string_literal ≡ some changed.string_literal
  plain_answer-text t = answered-text (is_string_type v.type) (plain_text t v.string_literal)

  pub plain_answer-special :
      (t : RegexType)
      → is_string_type v.type ≡ true
      → plain_answer parse_literal_to_parameter t v ≡ special_characters
      → plain_text t v.string_literal ≡ none
  plain_answer-special t = answered-special (is_string_type v.type) (plain_text t v.string_literal)

  pub plain_answer-none :
      (t : RegexType)
      → plain_text t v.string_literal ≡ none
      → plain_answer parse_literal_to_parameter t v ≡ special_characters
  plain_answer-none t p = rw p (guarded (is_string_type v.type))
    where
      guarded :
          (b : Bool)
          → (if not b then special_characters else special_characters) ≡ special_characters
      guarded true = refl
      guarded false = refl

  pub plain_answer-some :
      (t : RegexType) (text : List ℕ)
      → is_string_type v.type ≡ true
      → ((w : SqlValue) → parse_literal_to_parameter w ≡ true)
      → plain_text t v.string_literal ≡ some text
      → plain_answer parse_literal_to_parameter t v
        ≡ no_special_characters (value_statement (record v { string_literal = text }))
  plain_answer-some t text h stores p =
      let k = stores (record v { string_literal = text }) in
      rw (p, h, k)
        (never (not (length text == length v.string_literal)) (not (v.parameter_index == 0))
          (error (value_statement (record v { string_literal = text })))
          (no_special_characters (value_statement (record v { string_literal = text }))))

  -- The answer for a pattern whose parameter, if it has one, can be stored.
  abbrev pub stored_answer : RegexType → Result
  stored_answer t =
      if is_string_type v.type
      then elim (plain_text t v.string_literal) [
        | none ↦ special_characters
        | some text ↦ no_special_characters (value_statement (record v { string_literal = text }))
      ]
      else special_characters

  -- Where every changed literal can be stored, the function answers 0 for a value that is no string, or no plain text,
  -- and 1 otherwise, with the text that the pattern is: its escape characters are taken out, and all else is kept.
  pub regex_has_no_special_characters-stored_answer :
      (t : RegexType)
      → ((w : SqlValue) → parse_literal_to_parameter w ≡ true)
      → regex_has_no_special_characters parse_literal_to_parameter t (value_statement v)
        ≡ stored_answer t
  regex_has_no_special_characters-stored_answer t stores =
      let a = regex_has_no_special_characters-plain_answer parse_literal_to_parameter t v in
      elim (Bool-cases (is_string_type v.type)) [
        | inl h ↦ elim (Option-cases (plain_text t v.string_literal)) [
          | inl p ↦ a ∙ plain_answer-none t p ∙ rw (h, p) refl
          | inr (text, p) ↦ a ∙ plain_answer-some t text h stores p ∙ rw (h, p) refl
        ]
        | inr h ↦ a ∙ rw h refl
      ]
