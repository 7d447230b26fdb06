-- ===== src/Feed.antt =====
-- scr/exchange.h and what the four handlers of market data share. nlohmann::json is a parameter,
-- and so is the clock. A message that a handler sends is the JSON object it builds.
pub mod Connection
pub mod Levels
pub mod Snapshot
pub mod Guard
pub mod Sample
mod Examples
use trade_station.Trades.{Trade, SharedTrades, add}
use trade_station.Common.{
  ℕ, zero, suc, ◌+◌, ◌-◌, Bool, true, false, ◌&&◌, ◌||◌, not, Option, none, some, String, List, [],
  ◌∷◌, ltb, length, get_elem?, take, min, if◌then◌else◌, ◌>>=◌,
}
use trade_station.Common.Int.{ℤ}
use trade_station.Floats.{Floats}
use trade_station.Book.{PriceLevel, OrderBookUpdate}
use trade_station.Text.{take_chars}

-- A parsed document and the accessors that the handlers call. `none` is an exception.
pub record Json (D : Type 0) : Type 1 where
  pub J : Type 0
  pub parse : String → Option J
  pub contains : J → String → Bool
  -- `j[key]`, on a key that is there.
  pub field : J → String → J
  -- `j == text`
  pub equals : J → String → Bool
  pub is_string : J → Bool
  pub is_array : J → Bool
  pub is_number : J → Bool
  -- What a range-for goes through, and `size()` and `j[i]` of an array.
  pub elements : J → List J
  pub to_text : J → Option String
  pub to_double : J → Option D
  pub to_integer : J → Option ℤ
  pub to_bool : J → Option Bool

-- A field of an object that is sent.
pub data Field (J : Type 0) : Type 0 where
  text : String → Field J
  number : ℕ → Field J
  texts : List String → Field J
  json : J → Field J

abbrev pub Message : Type 0 → Type 0
Message J = List (String × Field J)

-- The state of a handler. `running` is an atomic that the websocket callbacks set.
pub record Exchange : Type 0 where
  pub name : String
  pub symbol : String
  pub running : Bool

-- What a call of `on_message` does: the update it publishes, the trades afterwards (`none` is the
-- null pointer), and the messages it sends.
pub record Outcome (D J : Type 0) : Type 0 where
  pub published : Option (OrderBookUpdate D)
  pub shared_trades : Option (SharedTrades D)
  pub sent : List (Message J)

unfoldable pub nothing : {D J : Type 0} → Option (SharedTrades D) → Outcome D J
nothing st = record { published = none; shared_trades = st; sent = [] }

module _ (F : Floats) (json : Json F.D) where
  -- The lambda `to_d`, also `level_to_double`.
  unfoldable pub to_d : json.J → Option F.D
  to_d v =
      if json.is_string v
      then elim (json.to_text v) [ none ↦ none | some s ↦ F.stod s ]
      else json.to_double v

  unfoldable pub is_level : json.J → Bool
  is_level level = json.is_array level && not (ltb (length (json.elements level)) 2)

  -- `{ to_d(level[0]), to_d(level[1]) }`
  unfoldable pub to_level : json.J → Option (PriceLevel F.D)
  to_level level = elim (json.elements level) [
    | p ∷ q ∷ _ ↦ do
      price ← to_d p
      quantity ← to_d q
      some (record { price = price; quantity = quantity })
    | _ ↦ none
  ]

  -- The loop that collects the levels of a side; elements of another form are skipped.
  unfoldable pub collect : List json.J → Option (List (PriceLevel F.D))
  collect [] = some []
  collect (level ∷ levels) =
      let rest = collect levels in
      if is_level level then to_level level >>= (λ l. rest >>= (λ ls. some (l ∷ ls))) else rest

-- The array of an update that holds the levels, with blank ones behind.
unfoldable pub array_of : {D : Type 0} → D → List (PriceLevel D) → ℕ → PriceLevel D
array_of nought ls i = elim (get_elem? ls i) [
  | none ↦ record { price = nought; quantity = nought }
  | some l ↦ l
]

-- An update with the given sides, built as the handlers do: zeroed, then filled.
unfoldable pub update_of :
    {D : Type 0}
    → D
    → String
    → String
    → ℕ
    → List (PriceLevel D)
    → List (PriceLevel D)
    → OrderBookUpdate D
update_of nought exchange symbol now bids asks = record {
  exchange = take_chars 15 exchange;
  symbol = take_chars 15 symbol;
  bids = array_of nought bids;
  asks = array_of nought asks;
  timestamp_ms = now;
  bid_count = length bids;
  ask_count = length asks;
}

-- `update.bid_count > 0 || update.ask_count > 0`
unfoldable pub is_worth : {D : Type 0} → OrderBookUpdate D → Bool
is_worth u = ltb 0 u.bid_count || ltb 0 u.ask_count

-- The end of the branch for order books: an exception or an update, which is published if it has
-- a level.
unfoldable pub deliver :
    {D J : Type 0} → Option (SharedTrades D) → Option (OrderBookUpdate D) → Outcome D J
deliver st none = nothing st
deliver st (some u) = if is_worth u then record (nothing st) { published = some u } else nothing st

-- A loop that adds what is read from each element, up to the first exception.
unfoldable pub add_all :
    {D J : Type 0} → (J → Option (Trade D)) → String → List J → SharedTrades D → SharedTrades D
add_all read name [] st = st
add_all read name (r ∷ rs) st = elim (read r) [
  | none ↦ st
  | some t ↦ add_all read name rs (add st name t)
]
