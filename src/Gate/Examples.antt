-- ===== src/Gate/Examples.antt =====
-- A frame of Gate's order book.
use trade_station.Common.{◌≡◌, true, List, [], ◌∷◌, take}
use trade_station.Feed.{Exchange, collect}
use trade_station.Feed.Sample.{naturals, Value, words, level, entry, end_entries, reading}
use trade_station.Gate.{collect_first}
use trade_station.Gate.Published.{only_levels, collect_first_lem}

abbrev handler : Exchange
handler = record { name = "Gate"; symbol = "BTC_USDT"; running = true }

abbrev result : Value
result = entry "currency_pair" (words "BTC_USDT") end_entries

abbrev frame : Value
frame =
    entry "event" (words "update")
      (entry "channel" (words "spot.order_book") (entry "result" result end_entries))

abbrev levels : List Value
levels = words "no level" ∷ level 3 1 ∷ level 4 1 ∷ []

collect_first_lem_example :
    collect_first naturals (reading frame) 1 levels
    ≡ collect naturals (reading frame) (take 1 (only_levels naturals (reading frame) levels))
collect_first_lem_example = collect_first_lem naturals (reading frame) 1 levels
