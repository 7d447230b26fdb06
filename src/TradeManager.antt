-- ===== src/TradeManager.antt =====
-- trading/trade_manager.h: the traders that have keys, and the choice of one by the exchange's name.
-- A call runs on a thread of its own; what is modelled is the value that its future delivers. A
-- trader's requests change nothing that this class holds.
pub mod Dispatch
pub mod Interface
pub mod Traders
mod Examples
use trade_station.Common.{
  Bool, true, false, ◌&&◌, not, Option, none, some, String, List, [], str_eq, if◌then◌else◌,
}
use trade_station.Orders.{Side, OrderResult, PlacedOrder}
use trade_station.Text.{◌<>◌, empty}

-- A trader, by its operations; `none` is an exception.
pub record Trader (D : Type 0) : Type 0 where
  pub place_limit_order : Side → String → D → D → Option OrderResult
  pub fetch_open_orders : String → Option (List (PlacedOrder D))
  pub cancel_all_orders : String → Option OrderResult
  pub cancel_limit_order : String → String → Option OrderResult

-- A null pointer is `none`.
pub record TradeManager (D : Type 0) : Type 0 where
  pub mexc : Option (Trader D)
  pub gate : Option (Trader D)
  pub bingx : Option (Trader D)
  pub lbank : Option (Trader D)

-- `load`, and the test of both keys: a variable that is not set counts as empty.
unfoldable pub value_of : Option String → String
value_of none = ""
value_of (some v) = v

unfoldable pub no_trader : String → OrderResult
no_trader exchange = record {
  success = false;
  order_id = "";
  message = "No trader for " <> exchange;
}

-- What a `try` block returns, or the value behind it.
unfoldable pub or_value : {R : Type 0} → R → Option R → R
or_value r none = r
or_value r (some x) = x

module _ {D : Type 0} where
  unfoldable pub with_keys :
      (String → Option String) → (String → String → Trader D) → String → String → Option (Trader D)
  with_keys getenv make k s =
      let key = value_of (getenv k) in
      let secret = value_of (getenv s) in
      if not (empty key) && not (empty secret) then some (make key secret) else none

  -- The constructor. `getenv` is the environment; the other arguments are the traders'
  -- constructors.
  unfoldable pub init :
      (String → Option String)
      → (String → String → Trader D)
      → (String → String → Trader D)
      → (String → String → Trader D)
      → (String → String → Trader D)
      → TradeManager D
  init getenv mexc gate bingx lbank = record {
    mexc = with_keys getenv mexc "MEXC_API_KEY" "MEXC_API_SECRET";
    gate = with_keys getenv gate "GATE_API_KEY" "GATE_API_SECRET";
    bingx = with_keys getenv bingx "BINGX_API_KEY" "BINGX_API_SECRET";
    lbank = with_keys getenv lbank "LBANK_API_KEY" "LBANK_API_SECRET";
  }

  unfoldable pub shutdown : TradeManager D → TradeManager D
  shutdown m = record { mexc = none; gate = none; bingx = none; lbank = none }

  unfoldable pub is_set : Option (Trader D) → Bool
  is_set none = false
  is_set (some t) = true

  unfoldable pub has_keys : TradeManager D → String → Bool
  has_keys m exchange =
      if str_eq exchange "MEXC"
      then is_set m.mexc
      else (if str_eq exchange "Gate"
          then is_set m.gate
          else (if str_eq exchange "BingX"
              then is_set m.bingx
              else (if str_eq exchange "LBank" then is_set m.lbank else false)))

  -- `if (exchange == name && trader) return call(trader);`, then what follows.
  unfoldable pub try_one :
      {R : Type 0} → String → String → Option (Trader D) → (Trader D → R) → R → R
  try_one exchange name none call rest = rest
  try_one exchange name (some t) call rest = if str_eq exchange name then call t else rest

  -- The four lines that each operation has.
  unfoldable pub dispatch : {R : Type 0} → TradeManager D → String → (Trader D → R) → R → R
  dispatch m exchange call rest = try_one exchange "MEXC" m.mexc call (
      try_one exchange "Gate" m.gate call
        (try_one exchange "BingX" m.bingx call (try_one exchange "LBank" m.lbank call rest)))

  unfoldable pub submit : TradeManager D → String → Side → String → D → D → Option OrderResult
  submit m exchange side symbol price qty =
      dispatch m exchange (λ t. t.place_limit_order side symbol price qty)
        (some (no_trader exchange))

  -- An exception of the trader counts as no orders.
  unfoldable pub fetch_orders : TradeManager D → String → String → List (PlacedOrder D)
  fetch_orders m exchange symbol =
      or_value [] (dispatch m exchange (λ t. t.fetch_open_orders symbol) (some []))

  -- An exception of the trader counts as no trader.
  unfoldable pub cancel_all : TradeManager D → String → String → OrderResult
  cancel_all m exchange symbol =
      or_value (no_trader exchange)
        (dispatch m exchange (λ t. t.cancel_all_orders symbol) (some (no_trader exchange)))

  unfoldable pub cancel : TradeManager D → String → String → String → Option OrderResult
  cancel m exchange symbol order_id =
      dispatch m exchange (λ t. t.cancel_limit_order symbol order_id) (some (no_trader exchange))
