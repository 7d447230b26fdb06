-- ===== src/Mexc/Books.antt =====
-- mexc/mexc_handler.cpp: the sorted maps under incremental updates, and what is published of them.
use mathlib.Core.Option.{some-injective}
use trade_station.Common.{
  ℕ, ◌≡◌, refl, ap, ◌∙◌, subst, inl, inr, Bool, true, false, some, List, [], ◌∷◌, take, drop,
  take-append-drop, length-take, All, arith, Bool-cases, Option-cases,
}
use trade_station.Floats.{Floats}
use trade_station.Book.{PriceLevel, OrderBookUpdate}
use trade_station.Feed.{is_worth}
use trade_station.Feed.Levels.{IsOrder, Sorted}
use trade_station.Feed.Snapshot.{higher, lower}
use trade_station.Feed.Guard.{IsBook, update_of-IsBook, Sorted-prefix}
use trade_station.Mexc.{
  DepthItem, Depths, MexcHandler, assign, erase, merge, merge_all, greater, top_five, apply_depth,
}

module _ (F : Floats) (before : F.D → F.D → Bool) where
  -- The order of levels that the map's order of prices gives.
  abbrev ahead : PriceLevel F.D → PriceLevel F.D → Bool
  ahead a b = before a.price b.price

  All-weak :
      IsOrder ahead
      → (a b : PriceLevel F.D) (ys : List (PriceLevel F.D)) → ahead b a ≡ false
      → All (λ y. ahead y b ≡ false) ys
      → All (λ y. ahead y a ≡ false) ys
  All-weak o a b [] h ps = tt
  All-weak o a b (y ∷ ys) h (p, ps) = (o.weak a b y h p, All-weak o a b ys h ps)

  All-assign :
      (P : PriceLevel F.D → Type 0) (price qty : F.D) (ls : List (PriceLevel F.D))
      → ((l : PriceLevel F.D) → P l → P (record l { quantity = qty }))
      → P (record { price = price; quantity = qty })
      → All P ls
      → All P (assign F before price qty ls)
  unfolding assign
  All-assign P price qty [] stay new all = (new, tt)
  All-assign P price qty (l ∷ ls) stay new (p, ps) = elim (Bool-cases (before price l.price)) [
    | inl e ↦ rw e (new, (p, ps))
    | inr e ↦ elim (Bool-cases (before l.price price)) [
      | inl f ↦ rw (e, f) (p, All-assign P price qty ls stay new ps)
      | inr f ↦ rw (e, f) (stay l p, ps)
    ]
  ]

  All-erase :
      (P : PriceLevel F.D → Type 0) (price : F.D) (ls : List (PriceLevel F.D))
      → All P ls
      → All P (erase F before price ls)
  unfolding erase
  All-erase P price [] all = tt
  All-erase P price (l ∷ ls) (p, ps) = elim (Bool-cases (before price l.price)) [
    | inl e ↦ rw e (p, ps)
    | inr e ↦ elim (Bool-cases (before l.price price)) [
      | inl f ↦ rw (e, f) (p, All-erase P price ls ps)
      | inr f ↦ rw (e, f) ps
    ]
  ]

  assign-Sorted :
      IsOrder ahead
      → (price qty : F.D) (ls : List (PriceLevel F.D)) → Sorted ahead ls
      → Sorted ahead (assign F before price qty ls)
  unfolding assign Sorted
  assign-Sorted o price qty [] s = (tt, tt)
  assign-Sorted o price qty (l ∷ ls) (p, s) = elim (Bool-cases (before price l.price)) [
    | inl e ↦
        let after = o.asym (record { price = price; quantity = qty }) l e in
        rw e ((after, All-weak o (record { price = price; quantity = qty }) l ls after p), (p, s))
    | inr e ↦ elim (Bool-cases (before l.price price)) [
      | inl f ↦
          rw (e, f)
            (
              All-assign (λ y. ahead y l ≡ false) price qty ls (λ k h. h) e p,
              assign-Sorted o price qty ls s,
            )
      | inr f ↦ rw (e, f) (p, s)
    ]
  ]

  erase-Sorted :
      (price : F.D) (ls : List (PriceLevel F.D))
      → Sorted ahead ls
      → Sorted ahead (erase F before price ls)
  unfolding erase Sorted
  erase-Sorted price [] s = tt
  erase-Sorted price (l ∷ ls) (p, s) = elim (Bool-cases (before price l.price)) [
    | inl e ↦ rw e (p, s)
    | inr e ↦ elim (Bool-cases (before l.price price)) [
      | inl f ↦ rw (e, f) (All-erase (λ y. ahead y l ≡ false) price ls p, erase-Sorted price ls s)
      | inr f ↦ rw (e, f) s
    ]
  ]

  merge-Sorted :
      IsOrder ahead
      → (price qty : F.D) (ls : List (PriceLevel F.D)) → Sorted ahead ls
      → Sorted ahead (merge F before price qty ls)
  unfolding merge
  merge-Sorted o price qty ls s = elim (Bool-cases (F.eq qty F.nought)) [
    | inl e ↦ rw e (erase-Sorted price ls s)
    | inr e ↦ rw e (assign-Sorted o price qty ls s)
  ]

  merge_all-Sorted :
      IsOrder ahead
      → (ds : List DepthItem) (ls : List (PriceLevel F.D)) → Sorted ahead ls
      → Sorted ahead (merge_all F before ds ls).0
  unfolding merge_all
  merge_all-Sorted o [] ls s = s
  merge_all-Sorted o (d ∷ ds) ls s = elim (Option-cases (F.stod d.price)) [
    | inl e ↦ rw (e, merge_all) s
    | inr (price, e) ↦ elim (Option-cases (F.stod d.quantity)) [
      | inl f ↦ rw (e, f, merge_all) s
      | inr (qty, f) ↦
          rw (e, f, merge_all)
            (merge_all-Sorted o ds (merge F before price qty ls) (merge-Sorted o price qty ls s))
    ]
  ]

module _ (F : Floats) where
  -- Both maps are sorted, each in its order.
  pub record IsSorted (h : MexcHandler F.D) : Type 0 where
    pub bids : Sorted (higher F) h.bids_book
    pub asks : Sorted (lower F) h.asks_book

  top_five-IsBook :
      (now : ℕ) (h : MexcHandler F.D)
      → IsSorted h
      → is_worth (top_five F now h) ≡ true
      → IsBook F "MEXC" h.exchange.symbol (top_five F now h)
  unfolding top_five
  top_five-IsBook now h s worth =
      update_of-IsBook F "MEXC" h.exchange.symbol now (take 5 h.bids_book) (take 5 h.asks_book) refl
        (
          omega (arith, length-take 5 h.bids_book),
          Sorted-prefix (higher F) (take 5 h.bids_book) (drop 5 h.bids_book)
              (rw (take-append-drop 5 h.bids_book) s.bids),
        )
        (
          omega (arith, length-take 5 h.asks_book),
          Sorted-prefix (lower F) (take 5 h.asks_book) (drop 5 h.asks_book)
              (rw (take-append-drop 5 h.asks_book) s.asks),
        )
        worth

  -- For prices in a strict weak order, incremental updates keep both books sorted, also when an
  -- exception ends them, and a resulting update that has a level is of MEXC and of the symbol
  -- subscribed to, cut to 15 characters, has one to five levels, and has the best ones first.
  pub apply_depth-IsSorted :
      IsOrder (higher F)
      → IsOrder (lower F)
      → (now : ℕ) (depths : Depths) (h : MexcHandler F.D) → IsSorted h
      → IsSorted (apply_depth F now depths h).0
        × ((u : OrderBookUpdate F.D)
            → (apply_depth F now depths h).1 ≡ some u
            → is_worth u ≡ true
            → IsBook F "MEXC" h.exchange.symbol u)
  unfolding apply_depth higher lower greater
  apply_depth-IsSorted high low now depths h s =
      elim (Bool-cases (merge_all F (greater F) depths.bids h.bids_book).1) [
        | inr e ↦ rw e (record { bids = bids; asks = s.asks }, λ u h w. cc)
        | inl e ↦ elim (Bool-cases (merge_all F F.lt depths.asks h.asks_book).1) [
          | inr f ↦ rw (e, f) (record { bids = bids; asks = asks }, λ u h w. cc)
          | inl f ↦
              rw (e, f)
                (
                  record { bids = bids; asks = asks },
                  λ u k w.
                      let same = some-injective _ _ k in
                      subst (IsBook F "MEXC" h.exchange.symbol) same (
                        top_five-IsBook now (merged h) (record { bids = bids; asks = asks })
                          (ap is_worth same ∙ w)),
                )
        ]
      ]
    where
      merged : MexcHandler F.D → MexcHandler F.D
      merged g = record g {
        bids_book = (merge_all F (greater F) depths.bids h.bids_book).0;
        asks_book = (merge_all F F.lt depths.asks h.asks_book).0;
      }

      bids : Sorted (higher F) (merge_all F (greater F) depths.bids h.bids_book).0
      bids = merge_all-Sorted F (greater F) high depths.bids h.bids_book s.bids

      asks : Sorted (lower F) (merge_all F F.lt depths.asks h.asks_book).0
      asks = merge_all-Sorted F F.lt low depths.asks h.asks_book s.asks
