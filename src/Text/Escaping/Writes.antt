-- ===== src/Text/Escaping/Writes.antt =====
-- One byte after the other, written by m_escape_string2() to a buffer that grows in front of each write.

use ydbocto.Text.Escaping.{Escape, set, expand_buffer_if_needed, next}
use ydbocto.Prelude.{
  ℕ, zero, suc, ◌≤◌, ◌<◌, ◌≡◌, refl, ap, some, List, [], ◌∷◌, ◌++◌, arith, if◌then◌else◌, length,
  take, ◌+◌, ◌-◌, ◌*◌, sym, ◌∙◌, inl, inr, leb, Bool-cases, drop, length-append, take-append,
  length-drop, ◌^◌, false,
}

set_lem :
    (n c : ℕ) (xs : List ℕ)
    → n < length xs
    → (ys : List ℕ) × (set n c xs ≡ some ys)
      × (length ys ≡ length xs)
      × (take (suc n) ys ≡ take n xs ++ (c ∷ []))
unfolding set
set_lem n c [] h = absurd (omega (arith, h))
set_lem zero c (x ∷ xs) h = (c ∷ xs, refl, refl, refl)
set_lem (suc n) c (x ∷ xs) h =
    let (ys, e, l, t) = set_lem n c xs (omega (arith, h)) in
    (x ∷ ys, rw e refl, omega (arith, l), ap (◌∷◌ x) t)

-- The buffer holds the text, and is as long as its length says.
pub record Holds (text : List ℕ) (e : Escape) : Type 0 where
  pub is_length : e.buffer_len ≡ length e.buffer
  pub is_index : e.i ≡ length text
  pub is_offset : e.b ≡ length text
  pub is_text : take (length text) e.buffer ≡ text
  pub is_within : length text ≤ length e.buffer

-- A buffer of the size, with the text in front.
copied_lem :
    (text old new : List ℕ) (n size : ℕ)
    → n ≡ length text
    → take (length text) old ≡ text
    → length new ≡ size
    → length text ≤ size
    → (take (length text) (take n old ++ drop n new) ≡ text)
      × (length (take n old ++ drop n new) ≡ size)
copied_lem text old new n size e t l h =
    let p : take n old ≡ text = ap (λ m. take m old) e ∙ t in
    let d = length-drop n new in
    let a = length-append text (drop n new) in
    (rw p (take-append text (drop n new)), rw p (omega (arith, a, d, l, h, e)))

-- The buffer is ready for one more byte.
pub record Ready (text : List ℕ) (e : Escape) : Type 0 where
  pub keeps_text : take (length text) e.buffer ≡ text
  pub at_offset : e.b ≡ length text
  pub at_index : e.i ≡ suc (length text)
  pub has_length : e.buffer_len ≡ length e.buffer
  pub has_room : suc (length text) < length e.buffer

module _ (malloc : ℕ → List ℕ) (malloc_size : (n : ℕ) → length (malloc n) ≡ n) where
  Ready-grown :
      (text : List ℕ) (e : Escape) (size : ℕ)
      → Holds text e
      → suc (length text) < size
      → Ready text (record {
        buffer = take (e.i + 1 - 1) e.buffer ++ drop (e.i + 1 - 1) (malloc size);
        buffer_len = size;
        i = e.i + 1;
        b = e.i + 1 - 1;
      })
  Ready-grown text e size h l =
      let n : e.i + 1 - 1 ≡ length text = omega (arith, h.is_index) in
      let (t, s) =
        copied_lem text e.buffer (malloc size) (e.i + 1 - 1) size n h.is_text (malloc_size size)
          (omega (arith, l)) in
      record {
        keeps_text = t;
        at_offset = n;
        at_index = omega (arith, h.is_index);
        has_length = sym s;
        has_room = omega (arith, s, l);
      }

  -- No size overflows while the text is below 2^30.
  pub Ready-next :
      (text : List ℕ) (e : Escape)
      → Holds text e
      → length text + 1 < 2 ^ 30
      → (f : Escape) × (next malloc e ≡ some f) × Ready text f
  unfolding expand_buffer_if_needed
  Ready-next text e h l =
      let size = if leb (e.buffer_len * 2) (e.i + 1) then e.i + 1 + 1 else e.buffer_len * 2 in
      elim (Bool-cases (leb e.buffer_len (e.i + 1))) [
        | inl y ↦
            let fits : leb (2 ^ 31) size ≡ false = ground (arith, y, h.is_index) in
            let grown : Escape = record {
              buffer = take (e.i + 1 - 1) e.buffer ++ drop (e.i + 1 - 1) (malloc size);
              buffer_len = size;
              i = e.i + 1;
              b = e.i + 1 - 1;
            } in
            (
              grown,
              rw (y, fits, expand_buffer_if_needed) refl,
              Ready-grown text e size h (ground (arith, y, h.is_index)),
            )
        | inr y ↦
            let kept : Escape = record e { i = e.i + 1 } in
            (
              kept,
              rw (y, expand_buffer_if_needed) refl,
              record {
                keeps_text = h.is_text;
                at_offset = h.is_offset;
                at_index = omega (arith, h.is_index);
                has_length = h.is_length;
                has_room = ground (arith, y, h.is_index, h.is_length);
              },
            )
      ]

  -- One byte written at the place that is ready.
  pub written_lem :
      (c : ℕ) (text : List ℕ) (e : Escape)
      → Ready text e
      → (ys : List ℕ) × (set e.b c e.buffer ≡ some ys)
        × Holds (text ++ (c ∷ [])) (record e { buffer = ys; b = e.b + 1 })
        × (e.i ≡ suc (length text))
  written_lem c text e r =
      let (ys, s, l, t) = set_lem e.b c e.buffer (omega (arith, r.at_offset, r.has_room)) in
      let a = length-append text (c ∷ []) in
      (
        ys,
        s,
        record {
          is_length = r.has_length ∙ sym l;
          is_index = omega (arith, r.at_index, a);
          is_offset = omega (arith, r.at_offset, a);
          is_text =
              ap (λ n. take n ys) {y = suc e.b} (omega (arith, a, r.at_offset))
              ∙ t
              ∙ ap (λ x. x ++ (c ∷ [])) (ap (λ n. take n e.buffer) r.at_offset ∙ r.keeps_text);
          is_within = omega (arith, l, r.has_room, a);
        },
        r.at_index,
      )
