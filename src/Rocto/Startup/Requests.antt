-- ===== src/Rocto/Startup/Requests.antt =====
-- CancelRequest: its layout in the protocol, and the reader.
use ydbocto.Prelude.{
  ◌^◌, ◌<◌, ◌≡◌, ◌↔◌, ◌++◌, length, take, ℕ, ◌≤◌, ap, some, [], ◌∷◌, arith, All-append_right,
  length-take,
}
use ydbocto.Rocto.Startup.{CancelRequest, read_cancel_request, ok}
use ydbocto.Rocto.Bytes.{
  Bytes, IsBytes, put32, read32, read32-put32, read32-length, read32_sound, read32-total,
}

-- Length, request code, process and key.
abbrev pub cancel_head : Bytes
cancel_head = put32 16 ++ put32 80877102

abbrev pub cancel_rest : CancelRequest → Bytes
cancel_rest c = put32 c.pid ++ put32 c.secret_key

-- Two numbers, and what is behind them.
record Two (b : Bytes) (x y : ℕ) (r : Bytes) : Type 0 where
  layout : b ≡ put32 x ++ (put32 y ++ r)
  first : read32 b ≡ some (x, put32 y ++ r)
  second : read32 (put32 y ++ r) ≡ some (y, r)
  small : (x < 2 ^ 32) × (y < 2 ^ 32)

Two-numbers : (b : Bytes) → IsBytes b → 8 ≤ length b → (x : ℕ) × (y : ℕ) × (r : Bytes) × Two b x y r
Two-numbers b h l =
    let (x, r1, e1) = read32-total b (omega arith) in
    let (l1, s1) = read32_sound b h e1 in
    let (y, r, e2) = read32-total r1 (omega (arith, read32-length b e1)) in
    let (l2, s2) = read32_sound r1 (All-append_right (λ c. c < 256) (put32 x) r1 (rw l1 at h)) e2 in
    (
      x,
      y,
      r,
      record {
        layout = ground (arith, l1, l2);
        first = ground (arith, e1, l2);
        second = ground (arith, e2, l2);
        small = (s1, s2);
      },
    )

cancel_sound :
    (head rest : Bytes) (c : CancelRequest) (x y p k : ℕ) (r t : Bytes)
    → Two head x y r
    → Two rest p k t
    → length rest ≡ 8
    → read_cancel_request head rest ≡ ok c
    → (take 8 head ≡ cancel_head)
      × (rest ≡ cancel_rest c)
      × (c.pid < 2 ^ 32)
      × (c.secret_key < 2 ^ 32)
unfolding read_cancel_request
cancel_sound head rest c x y p k r [] a b l h =
    ground (arith, a.layout, a.first, a.second, b.layout, b.first, b.second, b.small)
cancel_sound head rest c x y p k r (d ∷ t) a b l h = absurd (ground (arith, b.layout))

cancel_complete :
    (head rest : Bytes) (c : CancelRequest) (x y : ℕ) (r : Bytes)
    → Two head x y r
    → take 8 head ≡ cancel_head
    → rest ≡ cancel_rest c
    → c.pid < 2 ^ 32
    → c.secret_key < 2 ^ 32
    → read_cancel_request head rest ≡ ok c
unfolding read_cancel_request
cancel_complete head rest c x y r a e f hp hk = ground (
  arith,
  a.layout,
  a.first,
  a.second,
  read32-put32 c.pid (put32 c.secret_key),
  read32-put32 c.secret_key [],
)

length-cancel_head : (head : Bytes) → take 8 head ≡ cancel_head → 8 ≤ length head
length-cancel_head head e = omega (arith, ap length e, length-take 8 head)

length-ok :
    (head rest : Bytes) (c : CancelRequest) → read_cancel_request head rest ≡ ok c → 8 ≤ length head
unfolding read_cancel_request
length-ok head rest c h = ground arith

-- A cancel request is accepted, with the process and key of its second half, exactly if its first
-- half has at least eight bytes, which begin with the length 16 and the request code.
read_cancel_request_iff :
    (head rest : Bytes) (c : CancelRequest)
    → IsBytes head
    → IsBytes rest
    → length rest ≡ 8
    → (read_cancel_request head rest ≡ ok c) ↔ (
        (take 8 head ≡ cancel_head)
        × (rest ≡ cancel_rest c)
        × (c.pid < 2 ^ 32)
        × (c.secret_key < 2 ^ 32))
read_cancel_request_iff head rest c bh br l = (
  λ h.
      let (x, y, r, a) = Two-numbers head bh (length-ok head rest c h) in
      let (p, k, t, b) = Two-numbers rest br (omega arith) in
      cancel_sound head rest c x y p k r t a b l h,
  λ h.
      let (x, y, r, a) = Two-numbers head bh (length-cancel_head head h.0) in
      cancel_complete head rest c x y r a h.0 h.1 h.2 h.3,
)
