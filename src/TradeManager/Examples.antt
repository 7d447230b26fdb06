-- ===== src/TradeManager/Examples.antt =====
-- A manager with keys for Gate only.
use trade_station.Common.{ℕ, ◌≡◌, true, Bool, Option, none, some, String, List, [], All}
use trade_station.Orders.{Side, OrderResult}
use trade_station.TradeManager.{
  Trader, TradeManager, is_set, has_keys, no_trader, or_value, submit, fetch_orders, cancel_all,
  cancel,
}
use trade_station.Feed.Sample.{naturals, Value, entry, words, item, end_items, end_entries}
use trade_station.Rest.Sample.{client}
use trade_station.Rest.Outcomes.{IsSafe}
use trade_station.Rest.Listing.{IsListed}
use trade_station.Gate.Socket.{fresh}
use trade_station.TradeManager.Traders.{trade_manager, futures-delivered, manager_orders-IsListed}
use trade_station.TradeManager.Dispatch.{trader_of, or_else, operations_by_trader}

abbrev answer : OrderResult
answer = record { success = true; order_id = "1"; message = "" }

-- Its list of orders cannot be fetched.
abbrev trader : Trader ℕ
trader = record {
  place_limit_order = λ side symbol p q. some answer;
  fetch_open_orders = λ symbol. none;
  cancel_all_orders = λ symbol. some answer;
  cancel_limit_order = λ symbol id. some answer;
}

abbrev manager : TradeManager ℕ
manager = record { mexc = none; gate = some trader; bingx = none; lbank = none }

operations_by_trader_example :
    (has_keys manager "Gate" ≡ is_set (trader_of manager "Gate"))
    × (submit manager "Gate" Side.buy "BTC_USDT" 3 5
        ≡ or_else
            (trader_of manager "Gate")
            (λ t. t.place_limit_order Side.buy "BTC_USDT" 3 5)
            (some (no_trader "Gate")))
    × (cancel manager "Gate" "BTC_USDT" "1"
        ≡ or_else
            (trader_of manager "Gate")
            (λ t. t.cancel_limit_order "BTC_USDT" "1")
            (some (no_trader "Gate")))
    × (cancel_all manager "Gate" "BTC_USDT"
        ≡ or_else
            (trader_of manager "Gate")
            (λ t. or_value (no_trader "Gate") (t.cancel_all_orders "BTC_USDT"))
            (no_trader "Gate"))
    × (fetch_orders manager "Gate" "BTC_USDT"
        ≡ or_else (trader_of manager "Gate") (λ t. or_value [] (t.fetch_open_orders "BTC_USDT")) [])
operations_by_trader_example = operations_by_trader manager "Gate" Side.buy "BTC_USDT" "1" 3 5

-- Keys are set for every exchange, and each answers every request with an empty array.
abbrev all_keys : String → Option String
all_keys name = some "k"

abbrev takes_all : List String → String → Bool
takes_all sent message = true

abbrev traders : TradeManager ℕ
traders = trade_manager naturals (client end_items) takes_all 5 (fresh none) 5 5 all_keys

futures-delivered_example :
    ((r : OrderResult) × (submit traders "MEXC" Side.buy "BTCUSDT" 3 2 ≡ some r) × IsSafe r)
    × ((r : OrderResult) × (cancel traders "MEXC" "BTCUSDT" "1" ≡ some r))
futures-delivered_example =
    futures-delivered naturals (client end_items) takes_all 5 (fresh none) 5 5 all_keys "MEXC"
      Side.buy "BTCUSDT" "1" 3 2

-- Two orders are listed by MEXC, one of them without an id.
abbrev two_orders : Value
two_orders =
    item (entry "orderId" (words "9") end_entries)
      (item (entry "side" (words "SELL") end_entries) end_items)

manager_orders-IsListed_example : All (IsListed "MEXC" "BTCUSDT") (
    fetch_orders
      (trade_manager naturals (client two_orders) takes_all 5 (fresh none) 5 5 all_keys)
      "MEXC"
      "BTCUSDT")
manager_orders-IsListed_example =
    manager_orders-IsListed naturals (client two_orders) takes_all 5 (fresh none) 5 5 all_keys
      "MEXC" "BTCUSDT"
