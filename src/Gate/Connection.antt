-- ===== src/Gate/Connection.antt =====
-- gate/gate_handler.cpp: the callbacks of the connection. The clock is read by each message.
use trade_station.Common.{ℕ, Bool, true, false, List, [], ◌∷◌}
use trade_station.Feed.{text, number, Message, Exchange}
use trade_station.Feed.Connection.{Called, opened, timed_out}
use trade_station.Gate.{request}

unfoldable fresh : Exchange
fresh = record { name = "Gate"; symbol = "BTC_USDT"; running = false }

unfoldable subscriptions : {J : Type 0} → ℕ → ℕ → Exchange → List (Message J)
subscriptions ts ts2 h =
    request ts "spot.order_book" "subscribe" (h.symbol ∷ "5" ∷ "100ms" ∷ [])
    ∷ request ts2 "spot.trades" "subscribe" (h.symbol ∷ [])
    ∷ []

unfoldable on_open : {J : Type 0} → (Message J → Bool) → ℕ → ℕ → Exchange → Called J
on_open accepts ts ts2 h = opened accepts true (subscriptions ts ts2 h) h

unfoldable ping : {J : Type 0} → ℕ → Message J
ping ts = ("time", number ts) ∷ ("channel", text "spot.ping") ∷ []

unfoldable on_timer : {J : Type 0} → (Message J → Bool) → ℕ → Bool → Exchange → Called J
on_timer accepts ts ec h = timed_out accepts ec (ping ts) h
