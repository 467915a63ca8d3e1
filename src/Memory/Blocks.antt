-- ===== src/Memory/Blocks.antt =====
-- The blocks of a query lie within their chunks, and apart from each other.
use ydbocto.Memory.{MemoryChunk, Memory, Block, octo_cmalloc, with_room, allocate}
use ydbocto.Prelude.{
  ℕ, ◌+◌, ◌%◌, ◌^◌, ◌≤◌, ◌<◌, ◌≡◌, refl, ◌⊎◌, inl, inr, Bool, true, not, ◌&&◌, ◌||◌, List, [], ◌∷◌,
  arith, ltb, leb, ◌==◌, if◌then◌else◌, Bool-cases, length, ◌∙◌,
}

-- The sizes of the chunks, by their numbers, of the list that begins with the last one.
abbrev pub size_at : List MemoryChunk → ℕ → ℕ
size_at [] n = 0
size_at (c ∷ cs) n = let rest = size_at cs n in if length cs == n then c.max_size else rest

abbrev pub chunks_of : Memory → List MemoryChunk
chunks_of m = m.last ∷ m.earlier

-- Does the block lie within its chunk?
abbrev pub is_inside : Memory → Block → Bool
is_inside m b = leb (b.from + b.size) (size_at (chunks_of m) b.chunk)

-- Are the two blocks on different chunks, or the one in front of the other?
abbrev pub is_apart : Block → Block → Bool
is_apart a b = not (a.chunk == b.chunk) || leb (a.from + a.size) b.from

abbrev pub all_apart : Block → List Block → Bool
all_apart a [] = true
all_apart a (b ∷ bs) = is_apart a b && all_apart a bs

abbrev pub are_apart : List Block → Bool
are_apart [] = true
are_apart (b ∷ bs) = all_apart b bs && are_apart bs

abbrev pub are_inside : Memory → List Block → Bool
are_inside m [] = true
are_inside m (b ∷ bs) = is_inside m b && are_inside m bs

-- The sizes that are asked for.
abbrev pub are_sizes : List ℕ → Bool
are_sizes [] = true
are_sizes (n ∷ ns) = ltb n (2 ^ 63) && are_sizes ns

-- The last chunk is not full beyond its size, which no call asked to be larger.
abbrev pub is_valid : Memory → Bool
is_valid m = leb m.last.offset m.last.max_size && ltb m.last.max_size (2 ^ 63)

-- A block of a memory, and the memory after it.
pub record Taken (m : Memory) (size : ℕ) (b : Block) (n : Memory) : Type 0 where
  is_valid_after : is_valid n ≡ true
  begins : (b.chunk ≡ length n.earlier) × (b.size ≡ size) × (b.from + size ≡ n.last.offset)
  is_later :
      (length m.earlier < b.chunk) ⊎ ((length m.earlier ≡ b.chunk) × (m.last.offset ≤ b.from))
  keeps_sizes : (k : ℕ) → k ≤ length m.earlier → size_at (chunks_of n) k ≡ size_at (chunks_of m) k

Taken-octo_cmalloc :
    (m : Memory) (size : ℕ)
    → is_valid m ≡ true
    → size < 2 ^ 63
    → Taken m size (octo_cmalloc m size).0 (octo_cmalloc m size).1
unfolding octo_cmalloc with_room
Taken-octo_cmalloc m size v l =
    elim (Bool-cases (ltb m.last.max_size ((m.last.offset + size) % 2 ^ 64))) [
      | inl e ↦
          rw (e, octo_cmalloc, with_room)
            (record {
              is_valid_after = ground (arith, l);
              begins = (refl, refl, ground (arith, l));
              is_later = inl (omega arith);
              keeps_sizes = (λ k h. ground (arith, h));
            })
      | inr e ↦
          rw (e, octo_cmalloc, with_room)
            (record {
              is_valid_after = ground (arith, v, l, e);
              begins = (refl, refl, ground (arith, v, l, e));
              is_later = inr (refl, omega arith);
              keeps_sizes = (λ k h. refl);
            })
    ]

-- Does the block stand behind all that is in use?
abbrev pub are_later : Memory → List Block → Bool
are_later m [] = true
are_later m (b ∷ bs) =
    (ltb (length m.earlier) b.chunk || length m.earlier == b.chunk && leb m.last.offset b.from)
    && are_later m bs

-- What is behind a block of a memory is apart from it, and behind what was in use before.
are_later-Taken :
    (m n : Memory) (size : ℕ) (b : Block) (bs : List Block)
    → Taken m size b n
    → are_later n bs ≡ true
    → (are_later m bs ≡ true) × (all_apart b bs ≡ true)
are_later-Taken m n size b [] t h = (refl, refl)
are_later-Taken m n size b (c ∷ bs) t h =
    let (k, l) = are_later-Taken m n size b bs t (ground (arith, h)) in
    (ground (arith, k, h, t.begins, t.is_later), ground (arith, l, h, t.begins))

record Allocated (m : Memory) (bs : List Block) (n : Memory) : Type 0 where
  later : are_later m bs ≡ true
  apart : are_apart bs ≡ true
  inside : are_inside n bs ≡ true
  kept : (k : ℕ) → k ≤ length m.earlier → size_at (chunks_of n) k ≡ size_at (chunks_of m) k

Allocated-more :
    (m n o : Memory) (size : ℕ) (b : Block) (bs : List Block)
    → Taken m size b n
    → Allocated n bs o
    → Allocated m (b ∷ bs) o
Allocated-more m n o size b bs t a =
    let (l, p) = are_later-Taken m n size b bs t a.later in
    let k = a.kept b.chunk (omega (arith, t.begins)) in
    record {
      later = ground (arith, l, t.is_later);
      apart = ground (arith, p, a.apart);
      inside = ground (arith, a.inside, k, t.begins, t.is_valid_after);
      kept = (λ i h. a.kept i (ground (arith, h, t.begins, t.is_later)) ∙ t.keeps_sizes i h);
    }

allocate_lem :
    (sizes : List ℕ) (m : Memory)
    → is_valid m ≡ true
    → are_sizes sizes ≡ true
    → Allocated m (allocate sizes m).0 (allocate sizes m).1
unfolding allocate
allocate_lem [] m v h = record { later = refl; apart = refl; inside = refl; kept = (λ k l. refl) }
allocate_lem (size ∷ sizes) m v h =
    let t = Taken-octo_cmalloc m size v (ground (arith, h)) in
    Allocated-more m (octo_cmalloc m size).1 (allocate sizes (octo_cmalloc m size).1).1 size
      (octo_cmalloc m size).0 (allocate sizes (octo_cmalloc m size).1).0 t
      (allocate_lem sizes (octo_cmalloc m size).1 t.is_valid_after (ground (arith, h)))

-- Where the last chunk is smaller than 2^63 and not full beyond its size, and no size is asked for that is 2^63 or more, all blocks that a sequence of calls takes lie within their
-- chunks, as these are in the end, and no two of them overlap.
pub allocate-are_apart :
    (sizes : List ℕ) (m : Memory)
    → is_valid m ≡ true
    → are_sizes sizes ≡ true
    → (are_inside (allocate sizes m).1 (allocate sizes m).0 ≡ true)
      × (are_apart (allocate sizes m).0 ≡ true)
allocate-are_apart sizes m v h = let a = allocate_lem sizes m v h in (a.inside, a.apart)
