-- ===== src/Optimizer/Joins/Search.antt =====
-- The loop that sorts the tables: what it appends, that it ends, and what holds of the tables it leaves.
use ydbocto.Optimizer.Joins.{equals_id1_id2, news, count, sort_loop}
use ydbocto.Prelude.{
  ℕ, zero, suc, ◌+◌, ◌≤◌, ◌<◌, ◌≡◌, refl, ◌⊎◌, inl, inr, Bool, not, ◌&&◌, List, arith, ◌==◌,
  if◌then◌else◌, Bool-cases, true, false, ◌||◌, [], ◌∷◌, ◌++◌, some, length, length-append, dec_lt,
}
use ydbocto.Optimizer.Joins.Counts.{Within, count-append, length-Within}

module _ (conditions : List (ℕ × ℕ)) where
  -- Is the table tied to one of the list?
  abbrev pub is_tied : List ℕ → ℕ → Bool
  is_tied [] a = false
  is_tied (u ∷ us) a = equals_id1_id2 conditions u a || is_tied us a

  -- Is every table of the second list tied to one of the first, or to an earlier one of its own?
  abbrev pub is_chain : List ℕ → List ℕ → Bool
  is_chain seen [] = true
  is_chain seen (d ∷ ds) = is_tied seen d && is_chain (d ∷ seen) ds

  is_tied_member :
      (us : List ℕ) (u a : ℕ)
      → 0 < count u us
      → equals_id1_id2 conditions u a ≡ true
      → is_tied us a ≡ true
  is_tied_member [] u a h e = absurd (omega arith)
  is_tied_member (x ∷ us) u a h e = let k = is_tied_member us u a in ground (arith, k, h, e)

  -- A chain is made longer by tables that are tied to one of its own.
  is_chain-append :
      (u : ℕ) (seen sorted more : List ℕ)
      → 0 < count u seen + count u sorted
      → is_chain seen sorted ≡ true
      → ((a : ℕ) → 0 < count a more → equals_id1_id2 conditions u a ≡ true)
      → is_chain seen (sorted ++ more) ≡ true
  is_chain-append u seen [] [] m h t = refl
  is_chain-append u seen [] (a ∷ more) m h t =
      let e = t a (ground arith) in
      let k =
        is_chain-append u (a ∷ seen) [] more (ground (arith, m)) refl
          (λ b l. t b (ground (arith, l))) in
      let l = is_tied_member seen u a (ground (arith, m)) e in ground (arith, k, l)
  is_chain-append u seen (x ∷ sorted) more m h t =
      let k = is_chain-append u (x ∷ seen) sorted more (ground (arith, m)) in
      ground (arith, k (ground (arith, h)) t, h)

module _ (conditions : List (ℕ × ℕ)) (tables : List ℕ) where
  -- Is the table not seen yet, and tied to `u` by a condition?
  abbrev is_new : ℕ → List ℕ → ℕ → Bool
  is_new u sorted a =
      count a sorted == 0 && not (count a tables == 0) && equals_id1_id2 conditions u a

  count-news_outside :
      (n j u : ℕ) (sorted : List ℕ) (a : ℕ)
      → (a < j) ⊎ (j + n ≤ a)
      → count a (news conditions tables n j u sorted) ≡ 0
  unfolding news
  count-news_outside zero j u sorted a h = refl
  count-news_outside (suc n) j u sorted a h =
      let k = count-news_outside n (suc j) u sorted a in ground (arith, k, h)

  count-news :
      (n j u : ℕ) (sorted : List ℕ) (a : ℕ)
      → j ≤ a
      → a < j + n
      → count a (news conditions tables n j u sorted) ≡ (if is_new u sorted a then 1 else 0)
  unfolding news
  count-news zero j u sorted a h l = absurd (omega arith)
  count-news (suc n) j u sorted a h l = elim (Bool-cases (j == a)) [
    | inl e ↦
        let k = count-news_outside n (suc j) u sorted j (inl (omega arith)) in ground (arith, k, e)
    | inr e ↦ let k = count-news n (suc j) u sorted a in ground (arith, k, e, h, l)
  ]

  -- What holds of the sorted tables, of which `pending` are still to be looked at: they are tables of the list, they
  -- stand in a chain, and a table that is tied to one that was looked at is among them.
  pub record IsSorting (sorted pending : List ℕ) : Type 0 where
    pub are_tables : Within (0 ∷ sorted) (0 ∷ tables)
    pub are_pending : (a : ℕ) → count a pending ≤ count a (0 ∷ sorted)
    pub are_closed :
        (u a : ℕ)
        → 0 < count u (0 ∷ sorted)
        → 0 < count a tables
        → equals_id1_id2 conditions u a ≡ true
        → (0 < count u pending) ⊎ (0 < count a (0 ∷ sorted))
    pub are_chained : is_chain conditions (0 ∷ []) sorted ≡ true

  -- Once all ids are tried, the new tables are there, and no others.
  count-news_all :
      (n u : ℕ) (sorted : List ℕ)
      → ((a : ℕ) → 0 < count a tables → a < n)
      → (a : ℕ)
      → count a (news conditions tables n 0 u sorted) ≡ (if is_new u sorted a then 1 else 0)
  count-news_all n u sorted below a = elim (dec_lt a n) [
    | yes l ↦ count-news n 0 u sorted a (omega arith) (omega (arith, l))
    | no l ↦
        let k = count-news_outside n 0 u sorted a (inr (omega (arith, l))) in
        ground (arith, k, below a, l)
  ]

  -- What the loop appends for `u` keeps all of this.
  IsSorting-news :
      (u : ℕ) (sorted rest more : List ℕ)
      → ((a : ℕ) → count a more ≡ (if is_new u (0 ∷ sorted) a then 1 else 0))
      → IsSorting sorted (u ∷ rest)
      → IsSorting (sorted ++ more) (rest ++ more)
  IsSorting-news u sorted rest more new i = record {
    are_tables =
        (λ a. let c = count-append a sorted more in ground (arith, c, new a, i.are_tables a));
    are_pending = (λ a.
        let c = count-append a sorted more in
        let d = count-append a rest more in ground (arith, c, d, i.are_pending a));
    are_closed = (λ v a m t e.
        let c = count-append a sorted more in
        let d = count-append v rest more in
        let f = count-append v sorted more in
        ground (arith, c, d, f, new v, new a, i.are_closed v a, m, t, e));
    are_chained =
        is_chain-append conditions u (0 ∷ []) sorted more (ground (arith, i.are_pending u))
          i.are_chained (λ a l. ground (arith, new a, l));
  }

  -- The loop ends with the fuel of one step for each table and one more.
  pub sort_loop_lem :
      (n fuel : ℕ) (sorted pending : List ℕ)
      → ((a : ℕ) → 0 < count a tables → a < n)
      → IsSorting sorted pending
      → length pending + length tables ≤ length sorted + fuel
      → (result : List ℕ) × (sort_loop conditions tables n fuel (0 ∷ sorted) pending
          ≡ some (0 ∷ result))
        × IsSorting result []
  unfolding sort_loop
  sort_loop_lem n fuel sorted [] below i l = (sorted, refl, i)
  sort_loop_lem n zero sorted (u ∷ rest) below i l =
      let k = length-Within (0 ∷ sorted) (0 ∷ tables) i.are_tables in absurd (omega (arith, k, l))
  sort_loop_lem n (suc fuel) sorted (u ∷ rest) below i l =
      let more = news conditions tables n 0 u (0 ∷ sorted) in
      let c = length-append sorted more in
      let d = length-append rest more in
      sort_loop_lem n fuel (sorted ++ more) (rest ++ more) below
        (IsSorting-news u sorted rest more (count-news_all n u (0 ∷ sorted) below) i)
        (omega (arith, c, d, l))
