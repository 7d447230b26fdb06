-- ===== src/Orders/Examples.antt =====
-- An event pushed, drained, and another one left in the queue.
use trade_station.Common.{ℕ, ◌≡◌, String, [], ◌∷◌, ◌++◌}
use trade_station.Orders.{OrderEvent}
use trade_station.Orders.Events.{pushes, drains, run, pushed, run-pushed}

abbrev event : String → OrderEvent ℕ
event id = record {
  exchange = "Gate";
  order_id = id;
  client_id = "";
  finish_as = "";
  event_type = "new";
  symbol = "BTC_USDT";
  status = 0;
  cum_qty = 0;
  avg_price = 0;
  price = 3;
  qty = 5;
  side = 0;
}

run-pushed_example :
    (run (pushes (event "1") ∷ drains ∷ pushes (event "2") ∷ []) []).0
      ++ (run (pushes (event "1") ∷ drains ∷ pushes (event "2") ∷ []) []).1
    ≡ [] ++ pushed (pushes (event "1") ∷ drains ∷ pushes (event "2") ∷ [])
run-pushed_example = run-pushed (pushes (event "1") ∷ drains ∷ pushes (event "2") ∷ []) []
