-- ===== src/Render/Market.antt =====
-- ui/render.cpp, `render_run`: the flags of the panels between which an arbitrage is open.
use trade_station.Common.{
  ℕ, zero, suc, ◌+◌, ◌<◌, ◌≤◌, ◌≡◌, ◌≢◌, ◌↔◌, refl, sym, ◌∙◌, ap, inl, inr, Bool, true, false, ◌&&◌,
  ◌||◌, not, ◌==◌, ltb, leb, update, if◌then◌else◌, arith, Bool-cases,
}
use native.Mathlib.Decide.{ℕ_discrete}
use trade_station.Floats.{Floats, le}
use trade_station.Book.{OrderBookUpdate}

-- `arb_ask_flag` and `arb_bid_flag`.
abbrev pub Flags : Type 0
Flags = (ℕ → Bool) × (ℕ → Bool)

-- The two flags are set under a condition.
unfoldable pub raise : Bool → ℕ → ℕ → Flags → Flags
raise c i j (a, b) = if c then (update a i true, update b j true) else (a, b)

raise_asks :
    (c : Bool) (i j k : ℕ) (flags : Flags)
    → (raise c i j flags).0 k ≡ (flags.0 k || ((k == i) && c))
unfolding raise
raise_asks true i j k flags = ground arith
raise_asks false i j k flags = ground arith

raise_bids :
    (c : Bool) (i j k : ℕ) (flags : Flags)
    → (raise c i j flags).1 k ≡ (flags.1 k || ((k == j) && c))
unfolding raise
raise_bids true i j k flags = ground arith
raise_bids false i j k flags = ground arith

module _ (F : Floats) (books : ℕ → OrderBookUpdate F.D) where
  unfoldable pub no_ask : ℕ → Bool
  no_ask i = (books i).ask_count == 0 || le F ((books i).asks 0).price F.nought

  unfoldable pub no_bid : ℕ → Bool
  no_bid j = (books j).bid_count == 0 || le F ((books j).bids 0).price F.nought

  -- What one round of the inner loop tests.
  unfoldable pub crossed : ℕ → ℕ → Bool
  crossed i j = not (i == j || no_bid j) && F.lt ((books i).asks 0).price ((books j).bids 0).price

  -- The inner loop, over the `n` books from `j` on.
  unfoldable pub against : ℕ → ℕ → ℕ → Flags → Flags
  against i j zero flags = flags
  against i j (suc n) flags = against i (suc j) n (raise (crossed i j) i j flags)

  -- One round of the outer loop.
  unfoldable pub round : ℕ → ℕ → Flags → Flags
  round count i flags = if no_ask i then flags else against i 0 count flags

  -- The outer loop, over the `n` books from `i` on.
  unfoldable pub arbitrage_from : ℕ → ℕ → ℕ → Flags → Flags
  arbitrage_from count i zero flags = flags
  arbitrage_from count i (suc n) flags = arbitrage_from count (suc i) n (round count i flags)

  unfoldable pub arbitrage : ℕ → Flags
  arbitrage count = arbitrage_from count 0 count (λ _. false, λ _. false)

  -- Some of the `n` numbers from `j` on passes the test.
  unfoldable any : (ℕ → Bool) → ℕ → ℕ → Bool
  any p j zero = false
  any p j (suc n) = p j || any p (suc j) n

  -- To buy on `i` and sell on `j` brings a profit.
  unfoldable profitable : ℕ → ℕ → Bool
  profitable i j = not (no_ask i) && crossed i j

  against_asks :
      (i j n k : ℕ) (flags : Flags)
      → (against i j n flags).0 k ≡ (flags.0 k || ((k == i) && any (crossed i) j n))
  unfolding against any
  against_asks i j zero k flags = ground arith
  against_asks i j (suc n) k flags = ground (
    arith,
    against_asks i (suc j) n k (raise (crossed i j) i j flags),
    raise_asks (crossed i j) i j k flags,
  )

  against_bids :
      (i j n k : ℕ) (flags : Flags)
      → (against i j n flags).1 k ≡ (flags.1 k || ((leb j k && ltb k (j + n)) && crossed i k))
  unfolding against
  against_bids i j zero k flags = ground arith
  against_bids i j (suc n) k flags = ground (
    arith,
    against_bids i (suc j) n k (raise (crossed i j) i j flags),
    raise_bids (crossed i j) i j k flags,
    own,
  )
    where
      own : k ≡ j → crossed i k ≡ crossed i j
      own e = ap (crossed i) e

  any-profitable : (k j n : ℕ) → any (profitable k) j n ≡ (not (no_ask k) && any (crossed k) j n)
  unfolding any profitable
  any-profitable k j zero = ground arith
  any-profitable k j (suc n) = ground (arith, any-profitable k (suc j) n)

  round_asks :
      (count i k : ℕ) (flags : Flags)
      → (round count i flags).0 k ≡ (flags.0 k || ((k == i) && any (profitable i) 0 count))
  unfolding round
  round_asks count i k flags = elim (Bool-cases (no_ask i)) [
    | inl e ↦ rw (e, any-profitable i 0 count, e) (ground arith)
    | inr e ↦ rw (e, any-profitable i 0 count, e) (against_asks i 0 count k flags)
  ]

  round_bids :
      (count i k : ℕ) (flags : Flags)
      → (round count i flags).1 k ≡ (flags.1 k || (ltb k count && profitable i k))
  unfolding round profitable
  round_bids count i k flags = elim (Bool-cases (no_ask i)) [
    | inl e ↦ rw e (ground arith)
    | inr e ↦ rw e (ground (arith, against_bids i 0 count k flags))
  ]

  arbitrage_asks :
      (count i n k : ℕ) (flags : Flags)
      → (arbitrage_from count i n flags).0 k
        ≡ (flags.0 k || ((leb i k && ltb k (i + n)) && any (profitable k) 0 count))
  unfolding arbitrage_from
  arbitrage_asks count i zero k flags = ground arith
  arbitrage_asks count i (suc n) k flags = ground (
    arith,
    arbitrage_asks count (suc i) n k (round count i flags),
    round_asks count i k flags,
    own,
  )
    where
      own : k ≡ i → any (profitable k) 0 count ≡ any (profitable i) 0 count
      own e = ap (λ l. any (profitable l) 0 count) e

  arbitrage_bids :
      (count i n k : ℕ) (flags : Flags)
      → (arbitrage_from count i n flags).1 k
        ≡ (flags.1 k || (ltb k count && any (λ l. profitable l k) i n))
  unfolding arbitrage_from any
  arbitrage_bids count i zero k flags = ground arith
  arbitrage_bids count i (suc n) k flags =
      ground
        (arith, arbitrage_bids count (suc i) n k (round count i flags), round_bids count i k flags)

  arbitrage_flags :
      (count k : ℕ)
      → k < count
      → ((arbitrage count).0 k ≡ any (profitable k) 0 count)
        × ((arbitrage count).1 k ≡ any (λ i. profitable i k) 0 count)
  unfolding arbitrage
  arbitrage_flags count k lt = (
    ground (arith, arbitrage_asks count 0 count k (λ _. false, λ _. false)),
    ground (arith, arbitrage_bids count 0 count k (λ _. false, λ _. false)),
  )

  any-found :
      (p : ℕ → Bool) (j n : ℕ) → any p j n ≡ true → (i : ℕ) × (j ≤ i) × (i < j + n) × (p i ≡ true)
  unfolding any
  any-found p j zero h = cc
  any-found p j (suc n) h = elim (Bool-cases (p j)) [
    | inl e ↦ (j, omega arith, omega arith, e)
    | inr e ↦
        let (i, ge, lt, found) = any-found p (suc j) n (ground (arith, h, e)) in
        (i, omega arith, omega arith, found)
  ]

  any_of : (p : ℕ → Bool) (j n i : ℕ) → j ≤ i → i < j + n → p i ≡ true → any p j n ≡ true
  unfolding any
  any_of p j zero i ge lt found = absurd (omega arith)
  any_of p j (suc n) i ge lt found = elim (ℕ_discrete i j) [
    | yes e ↦ rw (sym (ap p e) ∙ found) refl
    | no ne ↦ ground (arith, any_of p (suc j) n i (omega arith) (omega arith) found)
  ]

  -- On two panels, one asks for a positive price and the other bids a positive price that is higher.
  pub record IsOpen (i j : ℕ) : Type 0 where
    pub different : i ≢ j
    pub asked : (books i).ask_count ≢ 0
    pub ask_positive : le F ((books i).asks 0).price F.nought ≡ false
    pub offered : (books j).bid_count ≢ 0
    pub bid_positive : le F ((books j).bids 0).price F.nought ≡ false
    pub profit : F.lt ((books i).asks 0).price ((books j).bids 0).price ≡ true

  profitable-IsOpen : (i j : ℕ) → (profitable i j ≡ true) ↔ IsOpen i j
  unfolding profitable crossed no_ask no_bid
  profitable-IsOpen i j = (
    λ h. record {
      different = λ e. ground (arith, h, e);
      asked = λ e. ground (arith, h, e);
      ask_positive = ground (arith, h);
      offered = λ e. ground (arith, h, e);
      bid_positive = ground (arith, h);
      profit = ground (arith, h);
    },
    λ o. ground (arith, o.different, o.asked, o.ask_positive, o.offered, o.bid_positive, o.profit),
  )

  -- A panel's ask is marked exactly when another panel's best bid is above its best ask, and its bid
  -- exactly when another panel's best ask is below its best bid, where both sides are there and both
  -- prices positive. A panel is not compared with itself.
  pub arbitrage_lem :
      (count k : ℕ)
      → k < count
      → (((arbitrage count).0 k ≡ true) ↔ ((j : ℕ) × (j < count) × IsOpen k j))
        × (((arbitrage count).1 k ≡ true) ↔ ((i : ℕ) × (i < count) × IsOpen i k))
  arbitrage_lem count k lt =
      let (asks, bids) = arbitrage_flags count k lt in
      (
        (
          λ h.
              let (j, ge, fits, found) = any-found (profitable k) 0 count (sym asks ∙ h) in
              (j, omega arith, (profitable-IsOpen k j).0 found),
          λ (j, fits, chance).
              asks
              ∙ any_of (profitable k) 0 count j (omega arith) (omega arith)
                  ((profitable-IsOpen k j).1 chance),
        ),
        (
          λ h.
              let (i, ge, fits, found) = any-found (λ l. profitable l k) 0 count (sym bids ∙ h) in
              (i, omega arith, (profitable-IsOpen i k).0 found),
          λ (i, fits, chance).
              bids
              ∙ any_of (λ l. profitable l k) 0 count i (omega arith) (omega arith)
                  ((profitable-IsOpen i k).1 chance),
        ),
      )
