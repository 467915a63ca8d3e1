-- ===== src/Text/Patterns/Tokens.antt =====
-- The patterns that are plain texts, read independently of the function's loop, and that the loop finds just those.
use mathlib.Core.Option
use ydbocto.Text.Patterns.{RegexType, Scan, scan, is_regex_char, begun}
use ydbocto.Prelude.{
  ℕ, ◌≡◌, refl, ap, ◌∙◌, true, false, ◌||◌, Option, none, some, List, [], ◌∷◌, ◌++◌, arith, ◌==◌,
  if◌then◌else◌, take, length-append, take-append, sym, inl, inr, append_assoc, append-nil,
  Bool-cases,
}

-- The text that a pattern is, where an escape character makes the next one plain; none where a special character is not
-- escaped, or an escape character is the last one.
abbrev pub plain_text : RegexType → List ℕ → Option (List ℕ)
plain_text t [] = some []
plain_text t (ch ∷ []) = if ch == 92 || is_regex_char t ch then none else some (ch ∷ [])
plain_text t (ch ∷ next ∷ rest) = elim (ch == 92) [
  | true ↦ Option.map (λ text. next ∷ text) (plain_text t rest)
  | false ↦ elim (is_regex_char t ch) [
    | true ↦ none
    | false ↦ Option.map (λ text. ch ∷ text) (plain_text t (next ∷ rest))
  ]
]

-- The text so far, in the buffer or, while there is none, in the literal.
abbrev pub so_far : List ℕ → Option (List ℕ) → List ℕ
so_far seen none = seen
so_far seen (some text) = text

-- The text that the loop leaves, of a whole literal; none where it finds a special character.
abbrev pub outcome : List ℕ → Scan → Option (List ℕ)
outcome whole s =
    if s.has_regex_chars || s.esc_state then none else some (so_far whole s.ptr_minus_escape)

begun_lem :
    (seen : List ℕ) (buffer : Option (List ℕ)) (ch : ℕ)
    → begun (seen ++ (ch ∷ [])) buffer ≡ so_far seen buffer
begun_lem seen none ch =
    let l = length-append seen (ch ∷ []) in
    ap (λ n. take n (seen ++ (ch ∷ []))) (omega (arith, l)) ∙ take-append seen (ch ∷ [])
begun_lem seen (some text) ch = refl

-- One step of the loop, for each kind of character.
module _ (t : RegexType) (seen : List ℕ) (buffer : Option (List ℕ)) (ch : ℕ) (rest : List ℕ) where
  scan_escape :
      (ch == 92) ≡ true
      → scan t seen false buffer (ch ∷ rest) ≡ scan t (seen ++ (ch ∷ [])) true buffer rest
  unfolding scan
  scan_escape e = rw (e, scan) refl

  scan_special :
      (ch == 92) ≡ false
      → is_regex_char t ch ≡ true
      → scan t seen false buffer (ch ∷ rest)
        ≡ record { has_regex_chars = true; esc_state = false; ptr_minus_escape = buffer }
  unfolding scan
  scan_special e f = rw (e, f, scan) refl

  scan_plain :
      (ch == 92) ≡ false
      → is_regex_char t ch ≡ false
      → scan t seen false buffer (ch ∷ rest)
        ≡ scan t (seen ++ (ch ∷ [])) false (Option.map (λ text. text ++ (ch ∷ [])) buffer) rest
  unfolding scan
  scan_plain e f = rw (e, f, scan) refl

  scan_escaped :
      scan t seen true buffer (ch ∷ rest)
      ≡ scan t (seen ++ (ch ∷ [])) false (some (begun seen buffer ++ (ch ∷ []))) rest
  unfolding scan
  scan_escaped = refl

-- The buffer, if there is one, takes a character as the text read does.
so_far-plain :
    (seen : List ℕ) (buffer : Option (List ℕ)) (ch : ℕ) (text : List ℕ)
    → so_far (seen ++ (ch ∷ [])) (Option.map (λ x. x ++ (ch ∷ [])) buffer) ++ text
      ≡ so_far seen buffer ++ (ch ∷ text)
so_far-plain seen none ch text = append_assoc seen (ch ∷ []) text
so_far-plain seen (some x) ch text = append_assoc x (ch ∷ []) text

Option-map-map :
    (f g h : List ℕ → List ℕ) (o : Option (List ℕ))
    → ((x : List ℕ) → f (g x) ≡ h x)
    → Option.map f (Option.map g o) ≡ Option.map h o
Option-map-map f g h none e = refl
Option-map-map f g h (some x) e = ap some (e x)

so_far-end :
    (seen : List ℕ) (buffer : Option (List ℕ)) (ch : ℕ) (whole : List ℕ)
    → seen ++ (ch ∷ []) ≡ whole
    → so_far whole (Option.map (λ x. x ++ (ch ∷ [])) buffer) ≡ so_far seen buffer ++ (ch ∷ [])
so_far-end seen none ch whole w = sym w
so_far-end seen (some x) ch whole w = refl

-- The loop leaves the text that the pattern is.
pub scan-plain_text :
    (t : RegexType) (seen : List ℕ) (buffer : Option (List ℕ)) (rest whole : List ℕ)
    → seen ++ rest ≡ whole
    → outcome whole (scan t seen false buffer rest)
      ≡ Option.map (λ text. so_far seen buffer ++ text) (plain_text t rest)
unfolding scan
scan-plain_text t seen none [] whole w = ap some (sym w)
scan-plain_text t seen (some text) [] whole w = ap some (sym (append-nil text))
scan-plain_text t seen buffer (ch ∷ []) whole w = elim (Bool-cases (ch == 92)) [
  | inl e ↦ rw (scan_escape t seen buffer ch [] e, e) refl
  | inr e ↦ elim (Bool-cases (is_regex_char t ch)) [
    | inl f ↦ rw (scan_special t seen buffer ch [] e f, e, f) refl
    | inr f ↦
        rw (scan_plain t seen buffer ch [] e f, e, f) (ap some (so_far-end seen buffer ch whole w))
  ]
]
scan-plain_text t seen buffer (ch ∷ next ∷ rest) whole w =
    let text = so_far seen buffer in
    elim (Bool-cases (ch == 92)) [
      | inl e ↦
          let k =
            scan-plain_text t ((seen ++ (ch ∷ [])) ++ (next ∷ [])) (some (text ++ (next ∷ []))) rest
              whole
              (append_assoc (seen ++ (ch ∷ [])) (next ∷ []) rest
                ∙ append_assoc seen (ch ∷ []) (next ∷ rest)
                ∙ w) in
          rw
            (
              scan_escape t seen buffer ch (next ∷ rest) e,
              e,
              plain_text,
              scan_escaped t (seen ++ (ch ∷ [])) buffer next rest,
              begun_lem seen buffer ch,
            )
            (k
              ∙ sym (
                  Option-map-map (λ x. text ++ x) (λ x. next ∷ x) (λ x. (text ++ (next ∷ [])) ++ x)
                    (plain_text t rest) (λ x. sym (append_assoc text (next ∷ []) x))))
      | inr e ↦ elim (Bool-cases (is_regex_char t ch)) [
        | inl f ↦ rw (scan_special t seen buffer ch (next ∷ rest) e f, e, f, plain_text) refl
        | inr f ↦
            let more = Option.map (λ x. x ++ (ch ∷ [])) buffer in
            let k =
              scan-plain_text t (seen ++ (ch ∷ [])) more (next ∷ rest) whole
                (append_assoc seen (ch ∷ []) (next ∷ rest) ∙ w) in
            rw (scan_plain t seen buffer ch (next ∷ rest) e f, e, f, plain_text)
              (k
                ∙ sym (
                    Option-map-map (λ x. text ++ x) (λ x. ch ∷ x)
                      (λ x. so_far (seen ++ (ch ∷ [])) more ++ x) (plain_text t (next ∷ rest))
                      (λ x. sym (so_far-plain seen buffer ch x))))
      ]
    ]
