-- ===== src/Lbank/Examples.antt =====
-- A depth frame of LBank.
use trade_station.Common.{ℕ, ◌≡◌, ◌≢◌, refl, true, none, some, String, [], ◌∷◌, str_eq→ne}
use trade_station.Book.{OrderBookUpdate}
use trade_station.Feed.{
  Exchange, nothing, deliver, is_worth, update_of, collect, is_level, to_level, to_d,
}
use trade_station.Feed.Levels.{best, sort, insert}
use trade_station.Feed.Snapshot.{higher, lower, side_of}
use trade_station.Feed.Guard.{IsBook}
use trade_station.Feed.Sample.{
  naturals, Value, words, entry, end_entries, reading, two_bids, higher-IsOrder, lower-IsOrder,
}
use trade_station.Lbank.{change_symbol, parse_snapshot, current, on_json, on_message}
use trade_station.Text.{lower_case, translated}
use trade_station.Lbank.Published.{on_message-IsBook, on_message-stale}

abbrev handler : Exchange
handler = record { name = "LBank"; symbol = "btc_usdt"; running = true }

abbrev frame : Value
frame =
    entry "type" (words "depth")
      (entry "depth" two_bids (entry "pair" (words "btc_usdt") end_entries))

abbrev shown : OrderBookUpdate ℕ
shown =
    update_of 0 "LBank" "btc_usdt" 5
      (record { price = 4; quantity = 1 } ∷ record { price = 3; quantity = 1 } ∷ []) []

frame-shown : (on_message naturals (reading frame) handler 5 "" none).published ≡ some shown
unfolding on_message on_json nothing deliver current parse_snapshot side_of collect is_level
    to_level to_d best sort insert higher lower is_worth update_of
frame-shown = refl

on_message-IsBook_example : IsBook naturals "LBank" "btc_usdt" shown
on_message-IsBook_example =
    on_message-IsBook naturals (reading frame) higher-IsOrder lower-IsOrder handler 5 "" none
      frame-shown

other_symbol : ◌≢◌ {A = String} "btc_usdt" "eth_usdt"
other_symbol = str_eq→ne "btc_usdt" "eth_usdt" refl

on_message-stale_example :
    (on_message naturals
      (reading frame)
      (change_symbol {J = Value} handler "ETH" "USDT").0
      5
      ""
      none).published
    ≡ none
unfolding lower_case translated
on_message-stale_example =
    on_message-stale naturals (reading frame) handler "ETH" "USDT" 5 "" none frame refl other_symbol
      refl refl refl
