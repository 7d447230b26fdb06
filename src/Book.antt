-- ===== src/Book.antt =====
-- scr/orderbook.h: price levels, an exchange's order book as it is passed around, and the display
-- state that the aggregator writes and the render thread reads. `D` is the type of prices and
-- quantities (`double`). A C string of the program is its text up to the terminating zero.
pub mod Slots
pub mod Newest
mod Examples
use trade_station.Common.{
  ℕ, zero, suc, ◌+◌, Bool, Option, none, some, String, ltb, str_eq, update, first, List,
  if◌then◌else◌,
}

pub record PriceLevel (D : Type 0) : Type 0 where
  pub price : D
  pub quantity : D

pub record OrderBookUpdate (D : Type 0) : Type 0 where
  pub exchange : String
  pub symbol : String
  pub bids : ℕ → PriceLevel D
  pub asks : ℕ → PriceLevel D
  pub timestamp_ms : ℕ
  pub bid_count : ℕ
  pub ask_count : ℕ

-- The array `exchanges` and the number of its slots in use.
pub record SharedDisplay (D : Type 0) : Type 0 where
  pub exchanges : ℕ → OrderBookUpdate D
  pub exchange_count : ℕ

abbrev pub max_exchanges : ℕ
max_exchanges = 4

module _ {D : Type 0} where
  -- The loop of `SharedDisplay::update`, over the `n` slots from `i` on.
  pub find_slot : (ℕ → OrderBookUpdate D) → String → ℕ → ℕ → Option ℕ
  find_slot exchanges name i zero = none
  find_slot exchanges name i (suc n) =
      let rest = find_slot exchanges name (suc i) n in
      if str_eq (exchanges i).exchange name then some i else rest

  pub store : SharedDisplay D → ℕ → OrderBookUpdate D → SharedDisplay D
  store d i u = record d { exchanges = update d.exchanges i u }

  -- `SharedDisplay::update`.
  pub put : SharedDisplay D → OrderBookUpdate D → SharedDisplay D
  put d u = elim (find_slot d.exchanges u.exchange 0 d.exchange_count) [
    | some i ↦ store d i u
    | none ↦
        if ltb d.exchange_count max_exchanges
        then record (store d d.exchange_count u) { exchange_count = d.exchange_count + 1 }
        else d
  ]

  -- What `SharedDisplay::snapshot` copies out.
  pub snapshot : SharedDisplay D → List (OrderBookUpdate D)
  snapshot d = first d.exchange_count d.exchanges

  -- One round of the loop of `clear_books`; `zero` is the `double` 0.
  pub cleared : D → OrderBookUpdate D → OrderBookUpdate D
  cleared nought u =
      let blank : PriceLevel D = record { price = nought; quantity = nought } in
      record u {
        bids = λ _. blank;
        asks = λ _. blank;
        bid_count = 0;
        ask_count = 0;
        timestamp_ms = 0;
        symbol = "";
      }

  -- The loop of `clear_books`.
  pub clear_from : D → ℕ → ℕ → (ℕ → OrderBookUpdate D) → ℕ → OrderBookUpdate D
  clear_from nought i zero f = f
  clear_from nought i (suc n) f = clear_from nought (suc i) n (update f i (cleared nought (f i)))

  pub clear_books : D → SharedDisplay D → SharedDisplay D
  clear_books nought d = record d { exchanges = clear_from nought 0 d.exchange_count d.exchanges }
