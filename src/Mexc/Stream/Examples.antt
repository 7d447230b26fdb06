-- ===== src/Mexc/Stream/Examples.antt =====
-- A report of an order at MEXC that the screen knows by its client id.
use trade_station.Common.{ℕ, ◌≡◌, refl, true, false, inr, none, some}
use trade_station.Orders.{OrderEvent, PlacedOrder, Side, Future}
use trade_station.Feed.Sample.{naturals, end_entries}
use trade_station.Rest.Sample.{client}
use trade_station.Render.Events.{is_for}
use trade_station.Mexc.Stream.{PrivateOrders, Wrapper, read_order}
use trade_station.Mexc.Stream.Events.{read_order-is_for}

abbrev report : PrivateOrders
report = record {
  id = "77";
  client_id = "C02__1";
  status = 2;
  price = "3";
  quantity = "2";
  cumulative_quantity = "2";
  avg_price = "3";
  trade_type = 1;
  market = none;
  symbol_id = none;
  market_id = none;
}

abbrev envelope : Wrapper
envelope = record { private_orders = some report; symbol = some "BTCUSDT"; symbol_id = none }

abbrev row : PlacedOrder ℕ
row = record {
  order_id = "C02__1";
  exchange = "MEXC";
  symbol = "BTCUSDT";
  side = Side.buy;
  price = 3;
  qty = 2;
  cum_qty = 0;
  cancel_fut = Future.invalid;
  cancelling = false;
  cancelled = false;
  cancel_error = false;
  cancel_msg = "";
  ui_seq = 1;
}

read_order-is_for_example :
    (ev : OrderEvent ℕ) × (read_order naturals (client end_entries) "k" "s" envelope report
      ≡ some ev)
    × (is_for ev row ≡ true)
read_order-is_for_example =
    read_order-is_for naturals (client end_entries) "k" "s" envelope report row refl (inr refl)
