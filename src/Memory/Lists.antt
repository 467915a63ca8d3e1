-- ===== src/Memory/Lists.antt =====
-- Doubly linked circular lists, src/double_list.h.
pub mod Circles
use ydbocto.Prelude.{ℕ, ◌≡◌, false, arith, ◌==◌, if◌then◌else◌}

-- The pointers of all nodes.
pub record Links : Type 0 where
  pub next : ℕ → ℕ
  pub prev : ℕ → ℕ

-- A pointer is written.
abbrev pub write : (ℕ → ℕ) → ℕ → ℕ → ℕ → ℕ
write f a b n = if n == a then b else f n

abbrev pub set_next : ℕ → ℕ → Links → Links
set_next a b l = record l { next = write l.next a b }

abbrev pub set_prev : ℕ → ℕ → Links → Links
set_prev a b l = record l { prev = write l.prev a b }

pub dqinit : ℕ → Links → Links
dqinit object l = set_prev object object (set_next object object l)

pub dqappend : ℕ → ℕ → Links → Links
dqappend self new_elem l =
    let tmp = l.prev self in
    let l1 : Links = set_next (l.prev self) new_elem l in
    let l2 : Links = set_prev self (l1.prev new_elem) l1 in
    let l3 : Links = set_next (l2.prev new_elem) self l2 in set_prev new_elem tmp l3

pub dqdel : ℕ → Links → Links
unfolding dqinit
dqdel self l =
    let l1 : Links = set_next (l.prev self) (l.next self) l in
    let l2 : Links = set_prev (l1.next self) (l1.prev self) l1 in dqinit self l2
