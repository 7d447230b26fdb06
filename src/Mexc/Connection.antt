-- ===== src/Mexc/Connection.antt =====
-- mexc/mexc_handler.cpp: the callbacks of the connection. `on_open` does not call `schedule_ping`.
use trade_station.Common.{Bool, false, List, [], ◌∷◌}
use trade_station.Feed.{text, Message, Exchange}
use trade_station.Feed.Connection.{Called, opened, timed_out}
use trade_station.Mexc.{MexcHandler, request, depth_channel, deals_channel}

unfoldable fresh : {D : Type 0} → MexcHandler D
fresh = record {
  exchange = record { name = "MEXC"; symbol = "BTCUSDT"; running = false };
  bids_book = [];
  asks_book = [];
  awaiting_sub_ack = false;
}

unfoldable subscriptions : {J : Type 0} → Exchange → List (Message J)
subscriptions h =
    request "SUBSCRIPTION" (depth_channel h.symbol)
    ∷ request "SUBSCRIPTION" (deals_channel h.symbol)
    ∷ []

unfoldable on_open : {J : Type 0} → (Message J → Bool) → Exchange → Called J
on_open accepts h = opened accepts false (subscriptions h) h

unfoldable ping : {J : Type 0} → Message J
ping = ("msg", text "ping") ∷ []

unfoldable on_timer : {J : Type 0} → (Message J → Bool) → Bool → Exchange → Called J
on_timer accepts ec h = timed_out accepts ec ping h
