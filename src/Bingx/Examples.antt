-- ===== src/Bingx/Examples.antt =====
-- Depth frames of BingX.
use trade_station.Common.{ℕ, ◌≡◌, refl, true, false, none, some, [], ◌∷◌}
use trade_station.Book.{OrderBookUpdate}
use trade_station.Feed.{
  Exchange, nothing, deliver, is_worth, update_of, collect, is_level, to_level, to_d,
}
use trade_station.Feed.Levels.{best, sort, insert}
use trade_station.Feed.Snapshot.{higher, lower, side_of}
use trade_station.Feed.Guard.{IsBook}
use trade_station.Feed.Sample.{
  naturals, Value, words, entry, end_entries, reading, two_bids, higher-IsOrder, lower-IsOrder,
}
use trade_station.Bingx.{parse_snapshot, is_gzip, on_data, on_type, on_json, on_raw, on_message}
use trade_station.Bingx.Published.{published-IsBook, on_type-suffix}
use trade_station.Text.{contains_text, starts_with}

abbrev handler : Exchange
handler = record { name = "BingX"; symbol = "BTC-USDT"; running = true }

abbrev frame : Value
frame = entry "dataType" (words "BTC-USDT@depth20") (entry "data" two_bids end_entries)

abbrev shown : OrderBookUpdate ℕ
shown =
    update_of 0 "BingX" "BTC-USDT" 5
      (record { price = 4; quantity = 1 } ∷ record { price = 3; quantity = 1 } ∷ []) []

frame-shown :
    (on_message naturals (reading frame) (λ s. none) handler 5 "{}" none).published ≡ some shown
unfolding on_message is_gzip on_raw on_json on_type on_data contains_text starts_with nothing
    deliver parse_snapshot side_of collect is_level to_level to_d best sort insert higher lower
    is_worth update_of
frame-shown = refl

published-IsBook_example : IsBook naturals "BingX" "BTC-USDT" shown
published-IsBook_example =
    published-IsBook naturals (reading frame) higher-IsOrder lower-IsOrder (λ s. none) handler 5
      "{}" none frame-shown

no_trade : contains_text "WBTC-USDT@depth20" "@trade" ≡ false
unfolding contains_text starts_with
no_trade = refl

is_depth : contains_text "WBTC-USDT@depth20" "@depth" ≡ true
unfolding contains_text starts_with
is_depth = refl

on_type-suffix_example :
    on_type naturals (reading frame) handler 5 (some "WBTC-USDT@depth20") two_bids none
    ≡ deliver none (parse_snapshot naturals (reading frame) handler 5 two_bids)
on_type-suffix_example =
    on_type-suffix naturals (reading frame) handler 5 "W" "20" two_bids none no_trade is_depth
