-- ===== src/Book/Slots.antt =====
-- The slots of the display as a list: `put` replaces the slot with the update's exchange or adds
-- one at the end, and `clear_books` clears every slot.
use mathlib.Core.Path.{ap₂}
use trade_station.Common.{
  ℕ, zero, suc, ◌+◌, ◌≤◌, ◌<◌, ◌≡◌, refl, ap, ◌∙◌, ◌⊎◌, inl, inr, Bool, true, false, none, some,
  String, ltb, str_eq, update, update_self, update_ne, window, first, window-ext, length-window,
  first-update_next, List, [], ◌∷◌, ◌++◌, map, length, All, arith, if◌then◌else◌, Bool-cases,
}
use trade_station.Book.{
  OrderBookUpdate, SharedDisplay, max_exchanges, find_slot, store, put, snapshot, cleared,
  clear_from, clear_books,
}

module _ {D : Type 0} where
  -- A slot of that exchange is replaced, the first one if there are several.
  unfoldable pub replace : OrderBookUpdate D → List (OrderBookUpdate D) → List (OrderBookUpdate D)
  replace u [] = []
  replace u (s ∷ ss) = if str_eq s.exchange u.exchange then u ∷ ss else s ∷ replace u ss

  unfoldable pub has : String → List (OrderBookUpdate D) → Bool
  has name [] = false
  has name (s ∷ ss) = if str_eq s.exchange name then true else has name ss

  unfoldable pub upsert : OrderBookUpdate D → List (OrderBookUpdate D) → List (OrderBookUpdate D)
  upsert u ss =
      if has u.exchange ss
      then replace u ss
      else if ltb (length ss) max_exchanges
      then ss ++ (u ∷ [])
      else ss

  -- What the search finds, against the list of the slots searched.
  find_slot_lem :
      (f : ℕ → OrderBookUpdate D) (u : OrderBookUpdate D) (i n : ℕ)
      → ((find_slot f u.exchange i n ≡ none) × (has u.exchange (window i n f) ≡ false))
        ⊎ ((k : ℕ) × (find_slot f u.exchange i n ≡ some k)
            × (i ≤ k)
            × (k < i + n)
            × (has u.exchange (window i n f) ≡ true)
            × (window i n (update f k u) ≡ replace u (window i n f)))
  unfolding find_slot has replace
  find_slot_lem f u i zero = inl (refl, refl)
  find_slot_lem f u i (suc n) = elim (Bool-cases (str_eq (f i).exchange u.exchange)) [
    | inl e ↦ inr (
      i,
      rw e,
      omega arith,
      omega arith,
      rw e,
      rw e (
          ap₂ ◌∷◌ (update_self f i u)
            (window-ext (suc i) n (update f i u) f (λ j ge lt. update_ne f u (omega arith)))),
    )
    | inr ne ↦ elim (find_slot_lem f u (suc i) n) [
      | inl (miss, absent) ↦ inl (rw (ne, miss), rw (ne, absent))
      | inr (k, hit, ge, lt, present, same) ↦ inr (
        k,
        rw (ne, hit),
        omega arith,
        omega arith,
        rw (ne, present),
        rw ne (ap₂ ◌∷◌ (update_ne f u (omega arith)) same),
      )
    ]
  ]

  -- The display's array is the list of its used slots, and an update reaches it by `upsert`: it
  -- replaces the slot of its exchange, takes a new slot if there is none and fewer than four are
  -- in use, and is dropped otherwise.
  pub snapshot-put :
      (d : SharedDisplay D) (u : OrderBookUpdate D) → snapshot (put d u) ≡ upsert u (snapshot d)
  unfolding snapshot put store upsert
  snapshot-put d u = elim (find_slot_lem d.exchanges u 0 d.exchange_count) [
    | inl (miss, absent) ↦
        rw (miss, absent, length-window 0 d.exchange_count d.exchanges, put)
          (grown (ltb d.exchange_count max_exchanges))
    | inr (k, hit, ge, lt, present, same) ↦ rw (hit, present, put) same
  ]
    where
      grown :
          (b : Bool)
          → snapshot (
              if b
              then record (store d d.exchange_count u) { exchange_count = d.exchange_count + 1 }
              else d)
            ≡ (if b
                then first d.exchange_count d.exchanges ++ (u ∷ [])
                else first d.exchange_count d.exchanges)
      grown true = first-update_next d.exchange_count d.exchanges u
      grown false = refl

  clear_from_lem :
      (z : D) (i n : ℕ) (f : ℕ → OrderBookUpdate D)
      → (window i n (clear_from z i n f) ≡ map (cleared z) (window i n f))
        × ((j : ℕ) → j < i → clear_from z i n f j ≡ f j)
  unfolding clear_from
  clear_from_lem z i zero f = (refl, λ j lt. refl)
  clear_from_lem z i (suc n) f =
      cleared_first (clear_from_lem z (suc i) n (update f i (cleared z (f i))))
    where
      own : OrderBookUpdate D
      own = cleared z (f i)

      cleared_first :
          (window (suc i) n (clear_from z (suc i) n (update f i own))
              ≡ map (cleared z) (window (suc i) n (update f i own)))
            × ((j : ℕ) → j < suc i → clear_from z (suc i) n (update f i own) j ≡ update f i own j)
          → (window i (suc n) (clear_from z i (suc n) f) ≡ map (cleared z) (window i (suc n) f))
            × ((j : ℕ) → j < i → clear_from z i (suc n) f j ≡ f j)
      cleared_first rest = (
        ap₂ ◌∷◌ (rest.1 i (omega arith) ∙ update_self f i own) (
            rest.0
            ∙ ap (map (cleared z)) (
                window-ext (suc i) n (update f i own) f
                  (λ j ge lt. update_ne f own (omega arith)))),
        λ j lt. rest.1 j (omega arith) ∙ update_ne f own (omega arith),
      )

  snapshot-cleared :
      (z : D) (d : SharedDisplay D) → snapshot (clear_books z d) ≡ map (cleared z) (snapshot d)
  unfolding snapshot clear_books
  snapshot-cleared z d = (clear_from_lem z 0 d.exchange_count d.exchanges).0

  -- A book without levels and without a symbol.
  pub record IsEmpty (z : D) (u : OrderBookUpdate D) : Type 0 where
    pub no_bids : u.bid_count ≡ 0
    pub no_asks : u.ask_count ≡ 0
    pub bids : (i : ℕ) → ((u.bids i).price ≡ z) × ((u.bids i).quantity ≡ z)
    pub asks : (i : ℕ) → ((u.asks i).price ≡ z) × ((u.asks i).quantity ≡ z)
    pub no_time : u.timestamp_ms ≡ 0
    pub no_symbol : u.symbol ≡ ""

  exchanges_kept :
      (z : D) (us : List (OrderBookUpdate D))
      → map (λ u. u.exchange) (map (cleared z) us) ≡ map (λ u. u.exchange) us
  unfolding cleared
  exchanges_kept z [] = refl
  exchanges_kept z (u ∷ us) = ap (◌∷◌ u.exchange) (exchanges_kept z us)

  cleared-IsEmpty : (z : D) (us : List (OrderBookUpdate D)) → All (IsEmpty z) (map (cleared z) us)
  unfolding cleared
  cleared-IsEmpty z [] = tt
  cleared-IsEmpty z (u ∷ us) = (
    record {
      no_bids = refl;
      no_asks = refl;
      bids = λ i. (refl, refl);
      asks = λ i. (refl, refl);
      no_time = refl;
      no_symbol = refl;
    },
    cleared-IsEmpty z us,
  )

  -- After clearing, the slots are those of the same exchanges in the same order, each with an empty
  -- book: no levels, prices and quantities 0, no time and no symbol.
  pub snapshot-clear_books :
      (z : D) (d : SharedDisplay D)
      → (map (λ u. u.exchange) (snapshot (clear_books z d)) ≡ map (λ u. u.exchange) (snapshot d))
        × All (IsEmpty z) (snapshot (clear_books z d))
  snapshot-clear_books z d =
      rw (snapshot-cleared z d) (exchanges_kept z (snapshot d), cleared-IsEmpty z (snapshot d))
