-- ===== src/Mexc/Trader/Examples.antt =====
-- An order at MEXC that is answered.
use trade_station.Common.{ℕ, ◌≡◌, ◌↔◌, String}
use trade_station.Orders.{Side}
use trade_station.Feed.Sample.{naturals, entry, words, end_entries}
use trade_station.Rest.{ok}
use trade_station.Rest.Answers.{Client, accepted}
use trade_station.Rest.Outcomes.{IsSafe}
use trade_station.Rest.Sample.{client}
use trade_station.Mexc.Trader.{send_place, place_limit_order}
use trade_station.Mexc.Trader.Answers.{IsPlaced, place_limit_order-accepted}

abbrev placed : Client ℕ
placed = client (entry "orderId" (words "C02__1") end_entries)

place_limit_order-accepted_example :
    ((place_limit_order naturals placed "k" "s" 5 Side.buy "BTCUSDT" 3 2 ≡ accepted "C02__1" "OK")
      ↔ ((raw : String) × (send_place naturals placed "k" "s" 5 Side.buy "BTCUSDT" 3 2 ≡ ok raw)
          × IsPlaced naturals placed "k" "s" 5 raw "C02__1"))
    × IsSafe (place_limit_order naturals placed "k" "s" 5 Side.buy "BTCUSDT" 3 2)
place_limit_order-accepted_example =
    place_limit_order-accepted naturals placed "k" "s" 5 Side.buy "BTCUSDT" 3 2 "C02__1"
