-- ===== src/Gate/Trader.antt =====
-- gate/gate_trader.cpp, GateTrader: the choice between the websocket and REST. `ts` and `ms` are the
-- clock in seconds and in milliseconds.
use trade_station.Common.{ℕ, Bool, String, List, [], ◌∷◌, if◌then◌else◌}
use trade_station.Floats.{Floats}
use trade_station.Orders.{Side, OrderResult, PlacedOrder}
use trade_station.Text.Dictionary.{Dictionary, assign}
use trade_station.Rest.Answers.{Client}
use trade_station.Gate.Rest.{gate_place_rest, gate_cancel_rest, gate_cancel_all_rest, fetch_rest}
use trade_station.Gate.Socket.{Socket}
use trade_station.Gate.Socket.Requests.{place_order_ws, cancel_order_ws, cancel_all_ws}

-- The ids of the orders lead to themselves.
unfoldable pub seeded : {D : Type 0} → List (PlacedOrder D) → Dictionary → Dictionary
seeded [] ids = ids
seeded (o ∷ os) ids = seeded os (assign o.order_id o.order_id ids)

module _ (F : Floats) (c : Client F.D) (accepts : List String → String → Bool)
    (key secret : String) where
  unfoldable pub place_limit_order :
      Socket F.D → ℕ → ℕ → Side → String → F.D → F.D → OrderResult × Socket F.D
  place_limit_order s ts ms side symbol price qty =
      if s.authenticated
      then place_order_ws F c accepts key secret s ts ms side symbol price qty
      else (gate_place_rest F c key secret ts side symbol price qty, s)

  unfoldable pub cancel_limit_order :
      Socket F.D → ℕ → ℕ → String → String → OrderResult × Socket F.D
  cancel_limit_order s ts ms symbol order_id =
      if s.authenticated
      then cancel_order_ws F c accepts key secret s ts ms symbol order_id
      else (gate_cancel_rest F c key secret ts symbol order_id, s)

  unfoldable pub cancel_all_orders : Socket F.D → ℕ → ℕ → String → OrderResult × Socket F.D
  cancel_all_orders s ts ms symbol =
      if s.authenticated
      then cancel_all_ws F c accepts key secret s ts ms symbol
      else (gate_cancel_all_rest F c key secret ts symbol, s)

  unfoldable pub fetch_open_orders : Socket F.D → ℕ → String → List (PlacedOrder F.D) × Socket F.D
  fetch_open_orders s ts symbol =
      let out = fetch_rest F c key secret ts symbol in
      (out, record s { order_id_map = seeded out s.order_id_map })
