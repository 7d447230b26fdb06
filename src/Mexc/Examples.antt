-- ===== src/Mexc/Examples.antt =====
-- A change of symbol, and an incremental update.
use trade_station.Feed.Snapshot.{higher}
use trade_station.Common.{ℕ, ◌≡◌, refl, true, false, none, some, [], ◌∷◌}
use trade_station.Book.{OrderBookUpdate}
use trade_station.Feed.{is_worth}
use trade_station.Feed.Levels.{Sorted}
use trade_station.Feed.Guard.{IsBook}
use trade_station.Feed.Sample.{
  naturals, Value, words, entry, end_entries, reading, higher-IsOrder, lower-IsOrder,
}
use trade_station.Mexc.{Depths, Proto, MexcHandler, change_symbol, apply_depth, on_frames}
use trade_station.Mexc.Switch.{names_depth, text_acks, acks, on_frames-change_symbol}
use trade_station.Mexc.Books.{IsSorted, apply_depth-IsSorted}
use trade_station.Text.{contains_text, starts_with}

abbrev handler : MexcHandler ℕ
handler = record {
  exchange = record { name = "MEXC"; symbol = "BTCUSDT"; running = true };
  bids_book = record { price = 4; quantity = 1 } ∷ record { price = 3; quantity = 1 } ∷ [];
  asks_book = [];
  awaiting_sub_ack = false;
}

-- Every binary frame is an update of one bid.
abbrev update : Depths
update = record { bids = record { price = "3"; quantity = "2" } ∷ []; asks = [] }

abbrev frames : Proto
frames = record {
  W = Depths;
  parse = λ raw. some update;
  depths = λ w. some w;
  deals = λ w. none;
  symbol = λ w. none;
}

abbrev other_ack : Value
other_ack = entry "msg" (words "spot@public.aggre.depth.v3.api.pb@100ms@BTCUSDT") end_entries

on_frames-change_symbol_example :
    (on_frames naturals
        (reading other_ack)
        frames
        (change_symbol {J = Value} handler "ETH" "USDT").0
        5
        ("x" ∷ "{" ∷ [])
        none
      ≡ ((change_symbol {J = Value} handler "ETH" "USDT").0, []))
    × ((change_symbol {J = Value} handler "ETH" "USDT").0.awaiting_sub_ack ≡ true)
    × ((change_symbol {J = Value} handler "ETH" "USDT").0.bids_book ≡ [])
    × ((change_symbol {J = Value} handler "ETH" "USDT").0.asks_book ≡ [])
unfolding acks text_acks names_depth contains_text starts_with
on_frames-change_symbol_example =
    on_frames-change_symbol naturals (reading other_ack) frames handler "ETH" "USDT" 5
      ("x" ∷ "{" ∷ []) none refl (refl, (refl, tt))

handler-IsSorted : IsSorted naturals handler
unfolding Sorted higher
handler-IsSorted = record { bids = ((refl, tt), (tt, tt)); asks = tt }

apply_depth-IsSorted_example :
    IsSorted naturals (apply_depth naturals 5 update handler).0
    × ((u : OrderBookUpdate ℕ)
        → (apply_depth naturals 5 update handler).1 ≡ some u
        → is_worth u ≡ true
        → IsBook naturals "MEXC" "BTCUSDT" u)
apply_depth-IsSorted_example =
    apply_depth-IsSorted naturals higher-IsOrder lower-IsOrder 5 update handler handler-IsSorted
