-- ===== src/Text/Escaping.antt =====
-- Quotes doubled for M code, into a buffer that grows: src/m_escape_string2.c.
pub mod Writes
pub mod Bounds
use ydbocto.Prelude.{
  ℕ, zero, suc, ◌+◌, ◌-◌, ◌*◌, Option, none, some, List, [], ◌∷◌, ◌++◌, leb, ◌==◌, if◌then◌else◌,
  take, drop, ◌^◌, not,
}

-- A byte is written to a buffer; none behind its end.
pub set : ℕ → ℕ → List ℕ → Option (List ℕ)
set n c [] = none
set zero c (x ∷ xs) = some (c ∷ xs)
set (suc n) c (x ∷ xs) = elim (set n c xs) [ none ↦ none | some ys ↦ some (x ∷ ys) ]

-- The variables of the function: `*buffer`, `*buffer_len`, `i`, and `b` as an offset.
pub record Escape : Type 0 where
  pub buffer : List ℕ
  pub buffer_len : ℕ
  pub i : ℕ
  pub b : ℕ

module _ (malloc : ℕ → List ℕ) where
  -- EXPAND_BUFFER_IF_NEEDED, with `i` for the next index. The lengths and indices are `int`s; none is a size
  -- that overflows. An index that overflows is behind the buffer and asks for such a size.
  pub expand_buffer_if_needed : Escape → Option Escape
  expand_buffer_if_needed e =
      let new_size = if leb (e.buffer_len * 2) e.i then e.i + 1 else e.buffer_len * 2 in
      if not (leb e.buffer_len e.i)
      then some e
      else if leb (2 ^ 31) new_size
      then none
      else some (record {
        buffer = take (e.i - 1) e.buffer ++ drop (e.i - 1) (malloc new_size);
        buffer_len = new_size;
        i = e.i;
        b = e.i - 1;
      })

  -- The index moves on, and the buffer grows where it must.
  abbrev pub next : Escape → Option Escape
  next e = expand_buffer_if_needed (record e { i = e.i + 1 })

  pub put : ℕ → Escape → Option Escape
  unfolding set expand_buffer_if_needed
  put c e = elim (next e) [
    | none ↦ none
    | some f ↦ elim (set f.b c f.buffer) [
      | none ↦ none
      | some buffer ↦ some (record f { buffer = buffer; b = f.b + 1 })
    ]
  ]

  abbrev pub put_char : ℕ → Escape → Option Escape
  put_char c e = if c == 34 then elim (put 34 e) [ none ↦ none | some f ↦ put 34 f ] else put c e

  pub escape_chars : List ℕ → Escape → Option Escape
  unfolding put
  escape_chars [] e = some e
  escape_chars (c ∷ string) e = elim (put_char c e) [ none ↦ none | some f ↦ escape_chars string f ]

  -- The buffer and its length when the function returns, and what it returns.
  pub m_escape_string2 : List ℕ → ℕ → List ℕ → Option Escape
  unfolding escape_chars
  m_escape_string2 buffer buffer_len string =
      elim (escape_chars string
        (record { buffer = buffer; buffer_len = buffer_len; i = 0; b = 0 })) [
          | none ↦ none
          | some e ↦ elim (next e) [
            | none ↦ none
            | some f ↦ elim (set f.b 0 f.buffer) [
              | none ↦ none
              | some last ↦ some (record f { buffer = last })
            ]
          ]
        ]
