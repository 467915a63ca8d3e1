-- ===== src/Rocto/Socket/Streams.antt =====
-- Reading does not depend on how the bytes arrive.
use ydbocto.Prelude.{
  ℕ, zero, suc, ◌-◌, ◌≤◌, ◌≡◌, refl, ap, inl, inr, Bool, List, [], ◌∷◌, ◌++◌, arith, leb,
  Bool-cases, length, take, drop, length-append,
}
use ydbocto.Rocto.Socket.{
  segment, complete, read_loop, Arrival, ReadOutcome, unread, interrupted, closed, reset, broken,
}
use ydbocto.Rocto.Bytes.{Bytes}

-- The bytes that arrive before the connection ends or fails.
abbrev pub stream : List Arrival → Bytes
stream [] = []
stream (segment c s ∷ es) = c ∷ (s ++ stream es)
stream (interrupted ∷ es) = stream es
stream (_ ∷ es) = []

-- A read of `need` bytes came to its end.
pub record Delivers (need : ℕ) (es : List Arrival) (o : ReadOutcome) : Type 0 where
  pub left : List Arrival
  pub outcome : o ≡ complete (take need (stream es)) left
  pub rest : stream left ≡ drop need (stream es)

stream-unread : (b : Bytes) (es : List Arrival) → stream (unread b es) ≡ b ++ stream es
stream-unread [] es = refl
stream-unread (c ∷ b) es = refl

take-append_le {ℓ} :
    {A : Type ℓ} (n : ℕ) (xs ys : List A) → n ≤ length xs → take n (xs ++ ys) ≡ take n xs
take-append_le zero xs ys h = refl
take-append_le (suc n) [] ys h = absurd (omega arith)
take-append_le (suc n) (x ∷ xs) ys h = ap (◌∷◌ x) (take-append_le n xs ys (omega arith))

drop-append_le {ℓ} :
    {A : Type ℓ} (n : ℕ) (xs ys : List A) → n ≤ length xs → drop n (xs ++ ys) ≡ drop n xs ++ ys
drop-append_le zero xs ys h = refl
drop-append_le (suc n) [] ys h = absurd (omega arith)
drop-append_le (suc n) (x ∷ xs) ys h = drop-append_le n xs ys (omega arith)

take-append_gt {ℓ} :
    {A : Type ℓ} (n : ℕ) (xs ys : List A)
    → length xs ≤ n
    → take n (xs ++ ys) ≡ xs ++ take (n - length xs) ys
take-append_gt n [] ys h = let e : n - 0 ≡ n = omega arith in rw e
take-append_gt zero (x ∷ xs) ys h = absurd (omega arith)
take-append_gt (suc n) (x ∷ xs) ys h =
    let e : suc n - length (x ∷ xs) ≡ n - length xs = omega arith in
    rw e (ap (◌∷◌ x) (take-append_gt n xs ys (omega arith)))

drop-append_gt {ℓ} :
    {A : Type ℓ} (n : ℕ) (xs ys : List A)
    → length xs ≤ n
    → drop n (xs ++ ys) ≡ drop (n - length xs) ys
drop-append_gt n [] ys h = let e : n - 0 ≡ n = omega arith in rw e
drop-append_gt zero (x ∷ xs) ys h = absurd (omega arith)
drop-append_gt (suc n) (x ∷ xs) ys h =
    let e : suc n - length (x ∷ xs) ≡ n - length xs = omega arith in
    rw e (drop-append_gt n xs ys (omega arith))

-- A read of no more bytes than arrive before the connection ends or fails comes to its end with the
-- first ones, however they are cut and interrupted, and leaves the others to the next read.
pub read_loop-Delivers :
    (ssl : Bool) (es : List Arrival) (need : ℕ)
    → need ≤ length (stream es)
    → Delivers need es (read_loop ssl need es)
unfolding read_loop
read_loop-Delivers ssl es zero h = record { left = es; outcome = refl; rest = refl }
read_loop-Delivers ssl [] (suc n) h = absurd (omega arith)
read_loop-Delivers ssl (segment c s ∷ es) (suc n) h = elim (Bool-cases (leb n (length s))) [
  | inl le ↦ record {
    left = unread (drop n s) es;
    outcome = ground (arith, take-append_le n s (stream es));
    rest = ground (arith, stream-unread (drop n s) es, drop-append_le n s (stream es));
  }
  | inr gt ↦
      let d =
        read_loop-Delivers ssl es (n - length s) (ground (arith, length-append s (stream es))) in
      record {
        left = d.left;
        outcome = ground (arith, d.outcome, take-append_gt n s (stream es));
        rest = ground (arith, d.rest, drop-append_gt n s (stream es));
      }
]
read_loop-Delivers ssl (interrupted ∷ es) (suc n) h =
    let d = read_loop-Delivers ssl es (suc n) h in
    record { left = d.left; outcome = d.outcome; rest = d.rest }
read_loop-Delivers ssl (closed ∷ es) (suc n) h = absurd (omega arith)
read_loop-Delivers ssl (reset ∷ es) (suc n) h = absurd (omega arith)
read_loop-Delivers ssl (broken ∷ es) (suc n) h = absurd (omega arith)
