-- ===== src/Text/Patterns/Matches.antt =====
-- What LIKE matches, and that regex_has_no_special_characters() finds just the patterns that match a single text.
use mathlib.Core.Option
use ydbocto.Text.Patterns.{regex_like, is_regex_char}
use ydbocto.Prelude.{
  ℕ, ◌≡◌, refl, ap, Bool, true, false, not, ◌&&◌, ◌||◌, List, [], ◌∷◌, arith, ◌==◌, length, inl,
  inr, Option, none, some, Bool-cases, ◌∙◌,
}
use ydbocto.Text.Patterns.Tokens.{plain_text}

abbrev pub same_text : List ℕ → List ℕ → Bool
same_text [] [] = true
same_text [] (y ∷ ys) = false
same_text (x ∷ xs) [] = false
same_text (x ∷ xs) (y ∷ ys) = x == y && same_text xs ys

-- The subject begins with the character, and what is behind it passes the test.
abbrev pub begins : ℕ → (List ℕ → Bool) → List ℕ → Bool
begins ch test [] = false
begins ch test (x ∷ xs) = ch == x && test xs

abbrev pub any_char : (List ℕ → Bool) → List ℕ → Bool
any_char test [] = false
any_char test (x ∷ xs) = test xs

abbrev pub any_text : (List ℕ → Bool) → List ℕ → Bool
any_text test [] = test []
any_text test (x ∷ xs) = test (x ∷ xs) || any_text test xs

-- Does the pattern of LIKE match the whole subject? `escaped` tells that an escape character stands before the pattern.
pub is_like : Bool → List ℕ → List ℕ → Bool
is_like escaped [] s = not escaped && length s == 0
is_like escaped (ch ∷ pattern) s = elim (not escaped && ch == 92) [
  | true ↦ is_like true pattern s
  | false ↦ elim (not escaped && ch == b'%') [
    | true ↦ any_text (is_like false pattern) s
    | false ↦ elim (not escaped && ch == b'_') [
      | true ↦ any_char (is_like false pattern) s
      | false ↦ begins ch (is_like false pattern) s
    ]
  ]
]

abbrev pub is_dangling : Bool → List ℕ → Bool
is_dangling escaped [] = escaped
is_dangling escaped (ch ∷ pattern) = is_dangling (not escaped && ch == 92) pattern

-- Is there a wildcard that is not escaped?
abbrev pub has_wildcard : Bool → List ℕ → Bool
has_wildcard escaped [] = false
has_wildcard escaped (ch ∷ pattern) =
    (not escaped && not (ch == 92) && is_regex_char regex_like ch)
    || has_wildcard (not escaped && ch == 92) pattern

pub is_like_end : (escaped : Bool) → is_like escaped [] [] ≡ not escaped
unfolding is_like
is_like_end true = refl
is_like_end false = refl

-- The four ways to match one character of the pattern.
pub data Step (escaped : Bool) (ch : ℕ) (pattern : List ℕ) : Type 0 where
  escape :
      is_dangling escaped (ch ∷ pattern) ≡ is_dangling true pattern
      → has_wildcard escaped (ch ∷ pattern) ≡ has_wildcard true pattern
      → ((s : List ℕ) → is_like escaped (ch ∷ pattern) s ≡ is_like true pattern s)
      → Step escaped ch pattern
  one_char :
      is_dangling escaped (ch ∷ pattern) ≡ is_dangling false pattern
      → has_wildcard escaped (ch ∷ pattern) ≡ has_wildcard false pattern
      → ((s : List ℕ) → is_like escaped (ch ∷ pattern) s ≡ begins ch (is_like false pattern) s)
      → Step escaped ch pattern
  all_texts :
      is_dangling escaped (ch ∷ pattern) ≡ is_dangling false pattern
      → ((s : List ℕ) → is_like escaped (ch ∷ pattern) s ≡ any_text (is_like false pattern) s)
      → Step escaped ch pattern
  all_chars :
      is_dangling escaped (ch ∷ pattern) ≡ is_dangling false pattern
      → ((s : List ℕ) → is_like escaped (ch ∷ pattern) s ≡ any_char (is_like false pattern) s)
      → Step escaped ch pattern

pub Step-cases : (escaped : Bool) (ch : ℕ) (pattern : List ℕ) → Step escaped ch pattern
unfolding is_like is_regex_char
Step-cases true ch pattern = one_char refl refl (λ s. refl)
Step-cases false ch pattern = elim (Bool-cases (ch == 92)) [
  | inl e ↦ escape (ground (arith, e)) (ground (arith, e)) (λ s. rw (e, is_like) refl)
  | inr e ↦ elim (Bool-cases (ch == b'%')) [
    | inl p ↦ all_texts (ground (arith, e)) (λ s. rw (e, p, is_like) refl)
    | inr p ↦ elim (Bool-cases (ch == b'_')) [
      | inl u ↦ all_chars (ground (arith, e)) (λ s. rw (e, p, u, is_like) refl)
      | inr u ↦
          one_char (ground (arith, e)) (ground (arith, e, p, u)) (λ s. rw (e, p, u, is_like) refl)
    ]
  ]
]

module _ (ch : ℕ) (pattern s : List ℕ) where
  is_like_escape : (ch == 92) ≡ true → is_like false (ch ∷ pattern) s ≡ is_like true pattern s
  unfolding is_like
  is_like_escape e = rw (e, is_like) refl

  is_like_escaped : is_like true (ch ∷ pattern) s ≡ begins ch (is_like false pattern) s
  unfolding is_like
  is_like_escaped = refl

  is_like_plain :
      (ch == 92) ≡ false
      → is_regex_char regex_like ch ≡ false
      → is_like false (ch ∷ pattern) s ≡ begins ch (is_like false pattern) s
  unfolding is_like is_regex_char
  is_like_plain e f =
      let p : (ch == b'%') ≡ false = ground (arith, f) in
      let u : (ch == b'_') ≡ false = ground (arith, f) in rw (e, p, u, is_like) refl

begins-same_text :
    (ch : ℕ) (test : List ℕ → Bool) (text s : List ℕ)
    → ((x : List ℕ) → test x ≡ same_text text x)
    → begins ch test s ≡ same_text (ch ∷ text) s
begins-same_text ch test text [] h = refl
begins-same_text ch test text (x ∷ xs) h = ap (λ b. ch == x && b) (h xs)

Option-map-some :
    (f : List ℕ → List ℕ) (o : Option (List ℕ)) (y : List ℕ)
    → Option.map f o ≡ some y
    → (x : List ℕ) × (o ≡ some x) × (y ≡ f x)
Option-map-some f none y h = absurd (ground (arith, h))
Option-map-some f (some x) y h = (x, refl, ground (arith, h))

is_like_empty : (s : List ℕ) → is_like false [] s ≡ same_text [] s
unfolding is_like
is_like_empty [] = refl
is_like_empty (x ∷ xs) = ground arith

-- A plain text matches itself only.
pub is_like-plain_text :
    (pattern text s : List ℕ)
    → plain_text regex_like pattern ≡ some text
    → is_like false pattern s ≡ same_text text s
is_like-plain_text [] text s h = let t : text ≡ [] = ground (arith, h) in rw t (is_like_empty s)
is_like-plain_text (ch ∷ []) text s h =
    elim (Bool-cases (ch == 92 || is_regex_char regex_like ch)) [
      | inl e ↦ absurd (ground (arith, h, e))
      | inr e ↦
          let t : text ≡ ch ∷ [] = ground (arith, h, e) in
          rw t (
            is_like_plain ch [] s (ground (arith, e)) (ground (arith, e))
            ∙ begins-same_text ch (is_like false []) [] s is_like_empty)
    ]
is_like-plain_text (ch ∷ next ∷ rest) text s h = elim (Bool-cases (ch == 92)) [
  | inl e ↦
      let (more, p, q) =
        Option-map-some (λ x. next ∷ x) (plain_text regex_like rest) text
          (rw (e, plain_text) at h) in
      rw q (
        is_like_escape ch (next ∷ rest) s e
        ∙ is_like_escaped next rest s
        ∙ begins-same_text next (is_like false rest) more s (λ x. is_like-plain_text rest more x p))
  | inr e ↦ elim (Bool-cases (is_regex_char regex_like ch)) [
    | inl f ↦ let k = rw (e, f, plain_text) at h in absurd (ground (arith, k))
    | inr f ↦
        let (more, p, q) =
          Option-map-some (λ x. ch ∷ x) (plain_text regex_like (next ∷ rest)) text
            (rw (e, f, plain_text) at h) in
        rw q (
          is_like_plain ch (next ∷ rest) s e f
          ∙ begins-same_text ch (is_like false (next ∷ rest)) more s
              (λ x. is_like-plain_text (next ∷ rest) more x p))
  ]
]
