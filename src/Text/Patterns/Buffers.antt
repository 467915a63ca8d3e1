-- ===== src/Text/Patterns/Buffers.antt =====
-- The buffer of regex_has_no_special_characters(): what is written to it is shorter than the literal.
use ydbocto.Text.Patterns.{RegexType, scan, is_regex_char, begun, written}
use ydbocto.Prelude.{
  ℕ, Bool, true, false, Option, none, some, List, [], arith, suc, ◌+◌, ◌-◌, ◌≤◌, not, ◌&&◌, ◌∷◌,
  ◌++◌, ◌==◌, if◌then◌else◌, length, length-take_of_le, ap, inl, inr, append_assoc, Bool-cases,
  length-append,
}

-- The bytes that the buffer takes, with the NUL behind them, and what an escape character leaves to take.
abbrev pub size : Bool → Option (List ℕ) → ℕ
size escaped none = if escaped then 1 else 0
size escaped (some text) = (if escaped then 1 else 0) + suc (length text)

size_le : (escaped : Bool) (buffer : Option (List ℕ)) → size false buffer ≤ size escaped buffer
size_le true none = omega arith
size_le true (some text) = omega arith
size_le false buffer = omega arith

length-begun :
    (seen : List ℕ) (buffer : Option (List ℕ))
    → size true buffer ≤ length seen
    → suc (length (begun seen buffer)) ≤ length seen
length-begun seen none h =
    let k = length-take_of_le (length seen - 1) seen (omega arith) in omega (arith, h, k)
length-begun seen (some text) h = omega (arith, h)

size-written_escaped :
    (seen : List ℕ) (buffer : Option (List ℕ)) (ch : ℕ)
    → size true buffer ≤ length seen
    → size false (written true seen buffer ch) ≤ suc (length seen)
size-written_escaped seen buffer ch h =
    let k = length-begun seen buffer h in
    let l = length-append (begun seen buffer) (ch ∷ []) in omega (arith, k, l)

size-written_plain :
    (seen : List ℕ) (buffer : Option (List ℕ)) (ch : ℕ)
    → size false buffer ≤ length seen
    → size (ch == 92) (written false seen buffer ch) ≤ suc (length seen)
size-written_plain seen none ch h = ground (arith, h)
size-written_plain seen (some text) ch h =
    let l = length-append text (ch ∷ []) in ground (arith, h, l)

size-written :
    (escaped : Bool) (seen : List ℕ) (buffer : Option (List ℕ)) (ch : ℕ)
    → size escaped buffer ≤ length seen
    → size (not escaped && ch == 92) (written escaped seen buffer ch) ≤ length (seen ++ (ch ∷ []))
size-written true seen buffer ch h =
    let l = length-append seen (ch ∷ []) in
    let k = size-written_escaped seen buffer ch h in omega (arith, k, l)
size-written false seen buffer ch h =
    let l = length-append seen (ch ∷ []) in
    let k = size-written_plain seen buffer ch h in omega (arith, k, l)

-- What is written to the buffer is shorter than the literal.
pub size-scan :
    (t : RegexType) (escaped : Bool) (seen : List ℕ) (buffer : Option (List ℕ)) (rest : List ℕ)
    → size escaped buffer ≤ length seen
    → size false (scan t seen escaped buffer rest).ptr_minus_escape ≤ length (seen ++ rest)
unfolding scan
size-scan t escaped seen none [] h = omega arith
size-scan t escaped seen (some text) [] h = let l = length-append seen [] in omega (arith, h, l)
size-scan t escaped seen buffer (ch ∷ rest) h =
    let k =
      size-scan t (not escaped && ch == 92) (seen ++ (ch ∷ [])) (written escaped seen buffer ch)
        rest (size-written escaped seen buffer ch h) in
    let l = length-append seen (ch ∷ rest) in
    let m = ap length (append_assoc seen (ch ∷ []) rest) in
    elim (Bool-cases (not escaped && not (ch == 92) && is_regex_char t ch)) [
      | inl e ↦ let n = size_le escaped buffer in rw (e, scan) (omega (arith, h, l, n))
      | inr e ↦ rw (e, scan) (omega (arith, k, m))
    ]
