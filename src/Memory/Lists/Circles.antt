-- ===== src/Memory/Lists/Circles.antt =====
-- The circles that the lists are: what stands in them after an append or a deletion.
use ydbocto.Memory.Lists.{Links, dqinit, dqappend, dqdel}
use ydbocto.Prelude.{
  ℕ, ◌≡◌, Bool, true, false, ◌&&◌, ◌||◌, List, [], ◌∷◌, ◌++◌, arith, ◌==◌, refl, sym, ap, ◌∙◌,
}

-- Every pointer has its counterpart.
pub record IsLinked (l : Links) : Type 0 where
  pub prev_next : (n : ℕ) → l.prev (l.next n) ≡ n
  pub next_prev : (n : ℕ) → l.next (l.prev n) ≡ n

dqappend-IsLinked :
    (self new_elem : ℕ) (l : Links)
    → (self == new_elem) ≡ false
    → IsLinked l
    → IsLinked (dqappend self new_elem l)
unfolding dqappend
dqappend-IsLinked self new_elem l d i = record {
  prev_next = (λ n. ground (arith, d, i.prev_next n, i.next_prev self, i.next_prev new_elem));
  next_prev = (λ n. ground (arith, d, i.next_prev n, i.next_prev self, i.next_prev new_elem));
}

dqdel-IsLinked : (self : ℕ) (l : Links) → IsLinked l → IsLinked (dqdel self l)
unfolding dqdel dqinit
dqdel-IsLinked self l i = record {
  prev_next = (λ n. ground (arith, i.prev_next n, i.prev_next self, i.next_prev self));
  next_prev = (λ n. ground (arith, i.next_prev n, i.prev_next self, i.next_prev self));
}

-- From the first node the pointers lead through the list to the last one.
abbrev pub is_walk : (ℕ → ℕ) → ℕ → List ℕ → ℕ → Bool
is_walk f a [] b = f a == b
is_walk f a (x ∷ xs) b = f a == x && is_walk f x xs b

abbrev pub is_among : ℕ → List ℕ → Bool
is_among a [] = false
is_among a (x ∷ xs) = x == a || is_among a xs

is_walk-append :
    (f : ℕ → ℕ) (a y b : ℕ) (xs ys : List ℕ)
    → is_walk f a xs y ≡ true
    → is_walk f y ys b ≡ true
    → is_walk f a (xs ++ (y ∷ ys)) b ≡ true
is_walk-append f a y b [] ys h k = ground (arith, h, k)
is_walk-append f a y b (x ∷ xs) ys h k =
    let m = is_walk-append f x y b xs ys (ground (arith, h)) k in ground (arith, h, m)

-- A walk whose last pointer leads elsewhere.
is_walk-turned :
    (f g : ℕ → ℕ) (e p z d q : ℕ) (a : ℕ) (xs : List ℕ)
    → g p ≡ z
    → f p ≡ e
    → f q ≡ d
    → ((n : ℕ) → (n == p) ≡ false → (n == q) ≡ false → g n ≡ f n)
    → ((n : ℕ) → f n ≡ e → n ≡ p)
    → is_walk f a xs e ≡ true
    → is_among e xs ≡ false
    → is_among d (e ∷ xs) ≡ false
    → is_walk g a xs z ≡ true
is_walk-turned f g e p z d q a [] gp fp fq same only w ne nd = ground (arith, gp, only a, w)
is_walk-turned f g e p z d q a (x ∷ xs) gp fp fq same only w ne nd =
    let k =
      is_walk-turned f g e p z d q x xs gp fp fq same only (ground (arith, w)) (ground (arith, ne))
        (ground (arith, nd)) in
    ground (arith, k, w, same a, fp, fq, ne, nd)

is_among-append :
    (a : ℕ) (xs ys : List ℕ) → is_among a (xs ++ ys) ≡ (is_among a xs || is_among a ys)
is_among-append a [] ys = refl
is_among-append a (x ∷ xs) ys = let k = is_among-append a xs ys in ground (arith, k)

-- Where every pointer has its counterpart, and of two circles neither first node stands a second time in either, appending
-- the one to the other leaves one circle, the nodes of the one before those of the other, and every pointer with its
-- counterpart.
pub dqappend-is_walk :
    (self new_elem : ℕ) (xs ys : List ℕ) (l : Links)
    → IsLinked l
    → is_walk l.next self xs self ≡ true
    → is_walk l.next new_elem ys new_elem ≡ true
    → is_among self (xs ++ (new_elem ∷ ys)) ≡ false
    → is_among new_elem (xs ++ ys) ≡ false
    → (is_walk (dqappend self new_elem l).next self (xs ++ (new_elem ∷ ys)) self ≡ true)
      × IsLinked (dqappend self new_elem l)
unfolding dqappend
dqappend-is_walk self new_elem xs ys l i v w a b =
    let c = is_among-append self xs (new_elem ∷ ys) in
    let d = is_among-append new_elem xs ys in
    let n : (self == new_elem) ≡ false = ground (arith, a, c) in
    let g = (dqappend self new_elem l).next in
    let only : (e m : ℕ) → l.next m ≡ e → m ≡ l.prev e =
      λ e m h. sym (i.prev_next m) ∙ ap l.prev h in
    let one =
      is_walk-turned l.next g self (l.prev self) new_elem new_elem (l.prev new_elem) self xs
        (ground (arith, n, i.next_prev self, i.next_prev new_elem)) (i.next_prev self)
        (i.next_prev new_elem) (λ m p q. ground (arith, p, q, n, i.next_prev new_elem)) (only self)
        v (ground (arith, a, c)) (ground (arith, b, d, n)) in
    let other =
      is_walk-turned l.next g new_elem (l.prev new_elem) self self (l.prev self) new_elem ys
        (ground (arith, n, i.next_prev self, i.next_prev new_elem)) (i.next_prev new_elem)
        (i.next_prev self) (λ m p q. ground (arith, p, q, n, i.next_prev new_elem)) (only new_elem)
        w (ground (arith, b, d)) (ground (arith, a, c, n)) in
    (is_walk-append g self new_elem self xs ys one other, dqappend-IsLinked self new_elem l n i)

-- Where every pointer has its counterpart, deleting a node leaves the others of its circle in a circle, the node in one of its
-- own, and every pointer with its counterpart.
dqdel-is_walk :
    (self x : ℕ) (xs : List ℕ) (l : Links)
    → IsLinked l
    → is_walk l.next self (x ∷ xs) self ≡ true
    → is_among self (x ∷ xs) ≡ false
    → is_among x xs ≡ false
    → (is_walk (dqdel self l).next x xs x ≡ true)
      × ((dqdel self l).next self ≡ self)
      × IsLinked (dqdel self l)
unfolding dqdel dqinit
dqdel-is_walk self x xs l i w a b =
    let only : (m : ℕ) → l.next m ≡ self → m ≡ l.prev self =
      λ m h. sym (i.prev_next m) ∙ ap l.prev h in
    let y : l.next self ≡ x = ground (arith, w) in
    let k =
      is_walk-turned l.next (dqdel self l).next self (l.prev self) x x self x xs
        (ground (arith, y, a, i.next_prev self)) (i.next_prev self) y
        (λ m p q. ground (arith, p, q, y, a)) only (ground (arith, w)) (ground (arith, a))
        (ground (arith, a, b)) in
    (k, ground arith, dqdel-IsLinked self l i)
