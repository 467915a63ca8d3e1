-- ===== src/Text/Escaping/Bounds.antt =====
-- The writes of m_escape_string2() stay within the buffer, and what they leave there.
use mathlib.Core.Path.{subst}
use ydbocto.Text.Escaping.{Escape, set, next, put, put_char, escape_chars, m_escape_string2}
use ydbocto.Prelude.{
  ℕ, ◌<◌, ◌≡◌, refl, ap, some, List, [], ◌∷◌, ◌++◌, arith, ◌==◌, if◌then◌else◌, length, take, ◌+◌,
  sym, ◌∙◌, inl, inr, Bool-cases, length-append, append_assoc, append-nil, ◌^◌,
}
use ydbocto.Text.Escaping.Writes.{Holds, Ready-next, written_lem}

-- The text with every quote doubled.
unfoldable pub doubled : List ℕ → List ℕ
doubled [] = []
doubled (c ∷ string) = (if c == 34 then 34 ∷ 34 ∷ [] else c ∷ []) ++ doubled string

module _ (malloc : ℕ → List ℕ) (malloc_size : (n : ℕ) → length (malloc n) ≡ n) where
  put-set :
      (c : ℕ) (e f : Escape) (ys : List ℕ)
      → next malloc e ≡ some f
      → set f.b c f.buffer ≡ some ys
      → put malloc c e ≡ some (record f { buffer = ys; b = f.b + 1 })
  unfolding put
  put-set c e f ys n s = rw (n, s, put) refl

  put_lem :
      (c : ℕ) (text : List ℕ) (e : Escape)
      → Holds text e
      → length text + 1 < 2 ^ 30
      → (f : Escape) × (put malloc c e ≡ some f) × Holds (text ++ (c ∷ [])) f
  put_lem c text e h l =
      let (f, n, r) = Ready-next malloc malloc_size text e h l in
      let (ys, s, w, _) = written_lem malloc malloc_size c text f r in
      (record f { buffer = ys; b = f.b + 1 }, put-set c e f ys n s, w)

  put_char_lem :
      (c : ℕ) (text : List ℕ) (e : Escape)
      → Holds text e
      → length (text ++ (if c == 34 then 34 ∷ 34 ∷ [] else c ∷ [])) < 2 ^ 30
      → (f : Escape) × (put_char malloc c e ≡ some f)
        × Holds (text ++ (if c == 34 then 34 ∷ 34 ∷ [] else c ∷ [])) f
  put_char_lem c text e h l = elim (Bool-cases (c == 34)) [
    | inl y ↦
        let a = length-append text (if c == 34 then 34 ∷ 34 ∷ [] else c ∷ []) in
        let d = length-append text (34 ∷ []) in
        let (f, p, k) = put_lem 34 text e h (ground (arith, y, a, l)) in
        let (g, q, m) = put_lem 34 (text ++ (34 ∷ [])) f k (ground (arith, y, a, d, l)) in
        (g, rw y (rw p q), rw y (subst (λ x. Holds x g) (append_assoc text (34 ∷ []) (34 ∷ [])) m))
    | inr y ↦
        let a = length-append text (if c == 34 then 34 ∷ 34 ∷ [] else c ∷ []) in
        let (f, p, k) = put_lem c text e h (ground (arith, y, a, l)) in (f, rw y p, rw y k)
  ]

  escape_chars_step :
      (c : ℕ) (string : List ℕ) (e f : Escape)
      → put_char malloc c e ≡ some f
      → escape_chars malloc (c ∷ string) e ≡ escape_chars malloc string f
  unfolding escape_chars
  escape_chars_step c string e f p = rw (p, escape_chars) refl

  escape_chars_lem :
      (string text : List ℕ) (e : Escape)
      → Holds text e
      → length (text ++ doubled string) < 2 ^ 30
      → (f : Escape) × (escape_chars malloc string e ≡ some f) × Holds (text ++ doubled string) f
  unfolding escape_chars doubled
  escape_chars_lem [] text e h l = (e, refl, subst (λ x. Holds x e) (sym (append-nil text)) h)
  escape_chars_lem (c ∷ string) text e h l =
      let one = if c == 34 then 34 ∷ 34 ∷ [] else c ∷ [] in
      let a = append_assoc text one (doubled string) in
      let n = length-append (text ++ one) (doubled string) in
      let d : length ((text ++ one) ++ doubled string) < 2 ^ 30 = rw a l in
      let (f, p, k) = put_char_lem c text e h (omega (arith, n, d)) in
      let (g, q, m) = escape_chars_lem string (text ++ one) f k d in
      (g, escape_chars_step c string e f p ∙ q, subst (λ x. Holds x g) a m)

  m_escape_string2-set :
      (buffer string ys : List ℕ) (e f : Escape)
      → escape_chars malloc string
          (record { buffer = buffer; buffer_len = length buffer; i = 0; b = 0 })
        ≡ some e
      → next malloc e ≡ some f
      → set f.b 0 f.buffer ≡ some ys
      → m_escape_string2 malloc buffer (length buffer) string ≡ some (record f { buffer = ys })
  unfolding m_escape_string2
  m_escape_string2-set buffer string ys e f p n s = rw (p, n, m_escape_string2, s) refl

  -- Whatever the buffer's size, which is an `int`, and the text, if it is below 2^30 with its quotes doubled and a
  -- NUL, the function comes to its end without a write behind the end of the buffer, which may have grown. The
  -- buffer begins with the text, its quotes doubled, and a NUL, and the result is their length.
  pub m_escape_string2-doubled :
      (buffer string : List ℕ)
      → length buffer < 2 ^ 31
      → length (doubled string) + 1 < 2 ^ 30
      → (f : Escape) × (m_escape_string2 malloc buffer (length buffer) string ≡ some f)
        × (take f.i f.buffer ≡ doubled string ++ (0 ∷ []))
        × (f.i ≡ length (doubled string) + 1)
        × (f.buffer_len ≡ length f.buffer)
  m_escape_string2-doubled buffer string _ l =
      let e0 : Escape = record { buffer = buffer; buffer_len = length buffer; i = 0; b = 0 } in
      let start : Holds [] e0 = record {
        is_length = refl;
        is_index = refl;
        is_offset = refl;
        is_text = refl;
        is_within = omega arith;
      } in
      let (e, p, h) = escape_chars_lem string [] e0 start (omega (arith, l)) in
      let (f, x, r) = Ready-next malloc malloc_size (doubled string) e h l in
      let (ys, s, w, n) = written_lem malloc malloc_size 0 (doubled string) f r in
      let a = length-append (doubled string) (0 ∷ []) in
      (
        record f { buffer = ys },
        m_escape_string2-set buffer string ys e f p x s,
        ap (λ m. take m ys) {y = length (doubled string ++ (0 ∷ []))} (omega (arith, n, a))
            ∙ w.is_text,
        omega (arith, n),
        w.is_length,
      )
