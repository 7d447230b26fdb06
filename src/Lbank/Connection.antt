-- ===== src/Lbank/Connection.antt =====
-- lbank/lbank_handler.cpp: the callbacks of the connection.
use trade_station.Common.{ℕ, Bool, true, false, List, [], ◌∷◌}
use trade_station.Feed.{text, number, Message, Exchange}
use trade_station.Feed.Connection.{Called, opened, timed_out}
use trade_station.Lbank.{on_depth, on_trades}

unfoldable fresh : Exchange
fresh = record { name = "LBank"; symbol = "btc_usdt"; running = false }

unfoldable subscriptions : {J : Type 0} → Exchange → List (Message J)
subscriptions h = on_depth "subscribe" h.symbol ∷ on_trades "subscribe" h.symbol ∷ []

unfoldable on_open : {J : Type 0} → (Message J → Bool) → Exchange → Called J
on_open accepts h = opened accepts true (subscriptions h) h

unfoldable ping : {J : Type 0} → ℕ → Message J
ping ts = ("action", text "ping") ∷ ("ping", number ts) ∷ []

unfoldable on_timer : {J : Type 0} → (Message J → Bool) → ℕ → Bool → Exchange → Called J
on_timer accepts ts ec h = timed_out accepts ec (ping ts) h
