-- ===== src/Text/Patterns/Single.antt =====
-- LIKE becomes an equality just where its pattern matches a single text.
use mathlib.Core.Option
use ydbocto.Text.Patterns.{
  regex_like, SqlValue, value_statement, no_special_characters, special_characters,
  regex_has_no_special_characters, is_regex_char,
}
use ydbocto.Text.Patterns.Tokens.{plain_text}
use ydbocto.Text.Patterns.Matches.{
  is_like, same_text, is_dangling, any_text, escape, one_char, all_texts, all_chars, Step-cases,
  has_wildcard, is_like_end,
}
use ydbocto.Text.Patterns.Matches.{is_like-plain_text}
use ydbocto.Text.Patterns.Answers.{
  plain_answer-text, plain_answer-special, regex_has_no_special_characters-plain_answer,
}
use ydbocto.Prelude.{
  ℕ, ◌≡◌, ◌⊎◌, Bool, true, false, Option, List, [], ◌∷◌, refl, sym, ◌∙◌, arith, inl, inr, none,
  ◌==◌, Bool-cases, some,
}
use ydbocto.Types.{is_string_type}

-- Two different texts that the pattern matches.
pub record Two (escaped : Bool) (pattern : List ℕ) : Type 0 where
  pub one : List ℕ
  pub other : List ℕ
  pub matches_one : is_like escaped pattern one ≡ true
  pub matches_other : is_like escaped pattern other ≡ true
  pub are_different : same_text one other ≡ false

any_text_lem : (test : List ℕ → Bool) (s : List ℕ) → test s ≡ true → any_text test s ≡ true
any_text_lem test [] h = h
any_text_lem test (x ∷ xs) h = ground (arith, h)

-- Some text is matched by every pattern without a dangling escape character.
some_text :
    (escaped : Bool) (pattern : List ℕ)
    → is_dangling escaped pattern ≡ false
    → (s : List ℕ) × (is_like escaped pattern s ≡ true)
some_text escaped [] h = ([], ground (arith, h, is_like_end escaped))
some_text escaped (ch ∷ pattern) h = elim (Step-cases escaped ch pattern) [
  | escape d w e ↦ let (s, m) = some_text true pattern (sym d ∙ h) in (s, e s ∙ m)
  | one_char d w e ↦
      let (s, m) = some_text false pattern (sym d ∙ h) in (ch ∷ s, e (ch ∷ s) ∙ ground (arith, m))
  | all_texts d e ↦
      let (s, m) = some_text false pattern (sym d ∙ h) in
      (s, e s ∙ any_text_lem (is_like false pattern) s m)
  | all_chars d e ↦ let (s, m) = some_text false pattern (sym d ∙ h) in (0 ∷ s, e (0 ∷ s) ∙ m)
]

same_text_longer : (x : ℕ) (s : List ℕ) → same_text s (x ∷ s) ≡ false
same_text_longer x [] = refl
same_text_longer x (y ∷ s) = let k = same_text_longer y s in ground (arith, k)

-- A wildcard anywhere gives two texts.
Two-has_wildcard :
    (escaped : Bool) (pattern : List ℕ)
    → is_dangling escaped pattern ≡ false
    → has_wildcard escaped pattern ≡ true
    → Two escaped pattern
Two-has_wildcard escaped [] h w = absurd (ground (arith, w))
Two-has_wildcard escaped (ch ∷ pattern) h w = elim (Step-cases escaped ch pattern) [
  | escape d v e ↦
      let t = Two-has_wildcard true pattern (sym d ∙ h) (sym v ∙ w) in
      record {
        one = t.one;
        other = t.other;
        matches_one = e t.one ∙ t.matches_one;
        matches_other = e t.other ∙ t.matches_other;
        are_different = t.are_different;
      }
  | one_char d v e ↦
      let t = Two-has_wildcard false pattern (sym d ∙ h) (sym v ∙ w) in
      record {
        one = ch ∷ t.one;
        other = ch ∷ t.other;
        matches_one = e (ch ∷ t.one) ∙ ground (arith, t.matches_one);
        matches_other = e (ch ∷ t.other) ∙ ground (arith, t.matches_other);
        are_different = ground (arith, t.are_different);
      }
  | all_texts d e ↦
      let (s, m) = some_text false pattern (sym d ∙ h) in
      let k = any_text_lem (is_like false pattern) s m in
      record {
        one = s;
        other = 0 ∷ s;
        matches_one = e s ∙ k;
        matches_other = e (0 ∷ s) ∙ ground (arith, k);
        are_different = same_text_longer 0 s;
      }
  | all_chars d e ↦
      let (s, m) = some_text false pattern (sym d ∙ h) in
      record {
        one = 0 ∷ s;
        other = 1 ∷ s;
        matches_one = e (0 ∷ s) ∙ m;
        matches_other = e (1 ∷ s) ∙ m;
        are_different = refl;
      }
]

Option-map-none : (f : List ℕ → List ℕ) (o : Option (List ℕ)) → Option.map f o ≡ none → o ≡ none
Option-map-none f none h = refl
Option-map-none f (some x) h = absurd (ground (arith, h))

-- Where the pattern is no plain text, it has a wildcard or a dangling escape character.
plain_text-has_wildcard :
    (pattern : List ℕ)
    → plain_text regex_like pattern ≡ none
    → is_dangling false pattern ≡ false
    → has_wildcard false pattern ≡ true
plain_text-has_wildcard [] h d = absurd (ground (arith, h))
plain_text-has_wildcard (ch ∷ []) h d = ground (arith, h, d)
plain_text-has_wildcard (ch ∷ next ∷ rest) h d = elim (Bool-cases (ch == 92)) [
  | inl e ↦
      let k =
        Option-map-none (λ x. next ∷ x) (plain_text regex_like rest) (rw (e, plain_text) at h) in
      let w = plain_text-has_wildcard rest k in ground (arith, e, w, d)
  | inr e ↦ elim (Bool-cases (is_regex_char regex_like ch)) [
    | inl f ↦ ground (arith, e, f)
    | inr f ↦
        let k =
          Option-map-none (λ x. ch ∷ x) (plain_text regex_like (next ∷ rest))
            (rw (e, f, plain_text) at h) in
        let w = plain_text-has_wildcard (next ∷ rest) k (rw e at d) in rw e (rw f w)
  ]
]

module _ (parse_literal_to_parameter : SqlValue → Bool) (v : SqlValue) where
  -- Where the answer for LIKE is 1, the pattern matches the text that the literal has then, and no other one.
  regex_has_no_special_characters-is_like :
      (changed : SqlValue) (s : List ℕ)
      → regex_has_no_special_characters parse_literal_to_parameter regex_like (value_statement v)
        ≡ no_special_characters (value_statement changed)
      → is_like false v.string_literal s ≡ same_text changed.string_literal s
  regex_has_no_special_characters-is_like changed s h =
      let k =
        sym (regex_has_no_special_characters-plain_answer parse_literal_to_parameter regex_like v)
        ∙ h in
      is_like-plain_text v.string_literal changed.string_literal s
        (plain_answer-text parse_literal_to_parameter v regex_like changed k)

  -- Where the answer for LIKE and a string is 0, the pattern ends with an escape character that escapes nothing, or there are
  -- two different texts that it matches.
  pub regex_has_no_special_characters-Two :
      is_string_type v.type ≡ true
      → regex_has_no_special_characters parse_literal_to_parameter regex_like (value_statement v)
        ≡ special_characters
      → (is_dangling false v.string_literal ≡ true) ⊎ Two false v.string_literal
  regex_has_no_special_characters-Two t h =
      let k =
        sym (regex_has_no_special_characters-plain_answer parse_literal_to_parameter regex_like v)
        ∙ h in
      elim (Bool-cases (is_dangling false v.string_literal)) [
        | inl d ↦ inl d
        | inr d ↦
            let p : plain_text regex_like v.string_literal ≡ none =
              plain_answer-special parse_literal_to_parameter v regex_like t k in
            inr (
              Two-has_wildcard false v.string_literal d
                (plain_text-has_wildcard v.string_literal p d))
      ]
