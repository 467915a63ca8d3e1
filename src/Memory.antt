-- ===== src/Memory.antt =====
-- The memory of a query, src/memory_chunk.c: blocks that are taken from chunks, and freed together.
pub mod Blocks
pub mod Lists
use ydbocto.Prelude.{ℕ, ◌+◌, ◌%◌, ◌^◌, List, [], ◌∷◌, ltb, if◌then◌else◌, length}

pub record MemoryChunk : Type 0 where
  pub offset : ℕ
  pub max_size : ℕ

abbrev pub alloc_chunk : ℕ → MemoryChunk
alloc_chunk size = record { offset = 0; max_size = size }

abbrev pub memory_chunk_size : ℕ
memory_chunk_size = 1048576

-- The list of chunks that begins at the root: the last one, `root->prev`, and how many stand in front of it.
pub record Memory : Type 0 where
  pub earlier : List MemoryChunk
  pub last : MemoryChunk

-- A block: the number of its chunk, and where it begins there.
pub record Block : Type 0 where
  pub chunk : ℕ
  pub from : ℕ
  pub size : ℕ

-- The chunk that the block is taken from: the last one, or a new one where the sum, of two `size_t`, is too large.
pub with_room : Memory → ℕ → Memory
with_room m size =
    if ltb m.last.max_size ((m.last.offset + size) % 2 ^ 64)
    then record {
      earlier = m.last ∷ m.earlier;
      last = alloc_chunk (if ltb memory_chunk_size size then size else memory_chunk_size);
    }
    else m

pub octo_cmalloc : Memory → ℕ → Block × Memory
unfolding with_room
octo_cmalloc m size =
    let n : Memory = with_room m size in
    (
      record { chunk = length n.earlier; from = n.last.offset; size = size },
      record n {
        last = record { offset = (n.last.offset + size) % 2 ^ 64; max_size = n.last.max_size };
      },
    )

-- A sequence of calls: the blocks in their order, and the memory in the end.
pub allocate : List ℕ → Memory → List Block × Memory
unfolding octo_cmalloc
allocate [] m = ([], m)
allocate (size ∷ sizes) m =
    let r = octo_cmalloc m size in let s = allocate sizes r.1 in (r.0 ∷ s.0, s.1)
