-- ===== src/Render/Examples.antt =====
-- A panel with two orders.
use trade_station.Feed.{update_of}
use trade_station.Book.{OrderBookUpdate}
use trade_station.Render.Market.{arbitrage, IsOpen, arbitrage_lem}
use trade_station.Render.Polls.Merge.{open_count-merge_fetched, open_count-on_placed}
use trade_station.Render.Polls.{merge_fetched, on_placed}
use trade_station.Common.{
  ℕ, ◌-◌, ◌≤◌, ◌<◌, ◌≡◌, ◌↔◌, refl, min, Bool, true, false, none, String, List, [], ◌∷◌, ◌++◌, All,
  drop, length, arith, ◌+◌, ◌==◌, if◌then◌else◌,
}
use trade_station.Feed.Sample.{naturals}
use trade_station.Orders.{
  PlacedOrder, OrderEvent, blank_order, OrderFormState, OrderResult, OrderStatus, Future,
}
use trade_station.Render.Lists.{count_done, trim_history, cap_placed_orders}
use trade_station.Render.Lists.Trim.{open_orders, done_orders, trim_history_lem}
use trade_station.Render.Lists.Cap.{newer, cap_placed_orders_lem}
use trade_station.Render.Lists.Counting.{open_for, open_count}
use trade_station.Render.Events.{row_of, finish, find_open, is_for, on_event, on_events}
use trade_station.Render.Events.OpenRows.{WellFormed, on_events-WellFormed}
use trade_station.Render.Events.Finish.{on_event-closes, on_event-again}

abbrev order : String → Bool → ℕ → PlacedOrder ℕ
order id done seq = record (blank_order 0) { order_id = id; cancelled = done; ui_seq = seq }

abbrev two : List (PlacedOrder ℕ)
two = order "a" true 1 ∷ order "b" false 2 ∷ []

abbrev event : String → String → OrderEvent ℕ
event type id = record {
  exchange = "Gate";
  order_id = id;
  client_id = "";
  finish_as = "filled";
  event_type = type;
  symbol = "BTC_USDT";
  status = 0;
  cum_qty = 0;
  avg_price = 0;
  price = 3;
  qty = 5;
  side = 0;
}

trim_history_example :
    (open_orders (trim_history two 0) ≡ open_orders two)
    × (done_orders (trim_history two 0) ≡ drop (count_done two - 0) (done_orders two))
    × (count_done (trim_history two 0) ≡ min 0 (count_done two))
trim_history_example = trim_history_lem two 0

cap_placed_orders_example :
    (length (cap_placed_orders two 2) ≡ min (length two) 1)
    × (newer 2 (cap_placed_orders two 2) ≡ newer 2 two)
unfolding newer
cap_placed_orders_example = cap_placed_orders_lem two 2 2 (omega arith) (omega arith)

none-WellFormed : WellFormed {D = ℕ} 50 []
unfolding WellFormed open_count
none-WellFormed = (omega arith, λ id. omega arith)

on_events-WellFormed_example :
    All
      (WellFormed 50)
      (on_events naturals (event "new" "c" ∷ event "finish" "c" ∷ []) ("Gate" ∷ []) ([] ∷ [], 0)).0
on_events-WellFormed_example =
    on_events-WellFormed naturals (event "new" "c" ∷ event "finish" "c" ∷ []) 50 ("Gate" ∷ [])
      ([] ∷ []) 0 (omega arith) (none-WellFormed, tt)

one_open : open_count "b" two ≤ 1
unfolding open_count open_for blank_order
one_open = omega arith

on_event-closes_example : open_count "b" (on_event naturals (event "finish" "b") (two, 2)).0 ≡ 0
on_event-closes_example =
    on_event-closes naturals (event "finish" "b") two 2 refl refl refl one_open

not_open : find_open (event "finish" "a") two ≡ none
unfolding find_open is_for blank_order
not_open = refl

one_done : count_done two < 20
unfolding blank_order
one_done = omega arith

on_event-again_example :
    (on_event naturals (event "finish" "a") (two, 2)).0
    ≡ two ++ (finish naturals (event "finish" "a") (row_of naturals (event "finish" "a") 3) ∷ [])
on_event-again_example =
    on_event-again naturals (event "finish" "a") two 2 refl refl not_open (omega arith) one_done

abbrev form : OrderFormState ℕ
form = record {
  side = 0;
  price_buf = "3";
  qty_buf = "5";
  pending_fut = Future.invalid;
  status = OrderStatus.pending;
  status_msg = "";
  orders = two;
  fetch_fut = Future.invalid;
  fetching = false;
  cancel_all_fut = Future.invalid;
  cancelling_all = true;
}

abbrev success : String → OrderResult
success id = record { success = true; order_id = id; message = "" }

open_count-merge_fetched_example :
    open_count "b" (merge_fetched (order "b" false 0 ∷ order "c" false 0 ∷ []) (two, 2)).0 ≤ 1
open_count-merge_fetched_example =
    open_count-merge_fetched "b" (order "b" false 0 ∷ order "c" false 0 ∷ []) two 2 one_open

open_count-on_placed_example :
    open_count "b" (on_placed naturals form "Gate" "BTC_USDT" (success "b") 2).0.orders
    ≡ open_count "b" two + 1
open_count-on_placed_example =
    open_count-on_placed naturals form "Gate" "BTC_USDT" (success "b") 2 refl refl (omega arith)

-- Three books, with prices 3, 5 and 4 on both sides.
abbrev books : ℕ → OrderBookUpdate ℕ
books i =
    let price = if i == 0 then 3 else (if i == 1 then 5 else 4) in
    update_of 0 "Gate" "BTC_USDT" 1 (record { price = price; quantity = 1 } ∷ [])
      (record { price = price; quantity = 1 } ∷ [])

arbitrage_example :
    (((arbitrage naturals books 3).0 0 ≡ true) ↔ ((j : ℕ) × (j < 3) × IsOpen naturals books 0 j))
    × (((arbitrage naturals books 3).1 0 ≡ true) ↔ ((i : ℕ) × (i < 3) × IsOpen naturals books i 0))
arbitrage_example = arbitrage_lem naturals books 3 0 (omega arith)
