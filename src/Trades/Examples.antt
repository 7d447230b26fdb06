-- ===== src/Trades/Examples.antt =====
-- Trades of two exchanges.
use trade_station.Trades.Clear.{snapshot-clear_all}
use trade_station.Common.{ℕ, ◌≡◌, refl, true, String, str_eq, ◌∷◌, take, arith, if◌then◌else◌, []}
use trade_station.Common.Int.{pos}
use trade_station.Text.{take_chars}
use trade_station.Trades.{Trade, SharedTrades, add, snapshot, clear_all, find_idx}
use trade_station.Trades.Latest.{IsValid, snapshot-add}

abbrev trade : ℕ → Trade ℕ
trade price = record { price = price; qty = 1; is_buy = true; time_ms = pos 0 }

abbrev no_trades : SharedTrades ℕ
no_trades = record { trades = λ _ _. trade 0; counts = λ _. 0; names = λ _. ""; exchange_count = 0 }

no_trades-IsValid : IsValid no_trades
no_trades-IsValid = record { few = omega arith; bounded = λ i. omega arith; unused = λ i lt. refl }

fits : take_chars 15 "Gate" ≡ "Gate"
unfolding take_chars
fits = refl

snapshot-add_example :
    IsValid (add no_trades "Gate" (trade 9))
    × ((other : String)
        → snapshot (add no_trades "Gate" (trade 9)) other ≡ (
            if str_eq "Gate" other
            then take 20 (trade 9 ∷ snapshot no_trades "Gate")
            else snapshot no_trades other))
snapshot-add_example =
    snapshot-add no_trades "Gate" (trade 9) no_trades-IsValid fits (λ _. omega arith)

snapshot-clear_all_example :
    (snapshot (clear_all (trade 0) (add no_trades "Gate" (trade 9))) "Gate" ≡ [])
    × (find_idx (clear_all (trade 0) (add no_trades "Gate" (trade 9))) "Gate"
        ≡ find_idx (add no_trades "Gate" (trade 9)) "Gate")
snapshot-clear_all_example = snapshot-clear_all (trade 0) (add no_trades "Gate" (trade 9)) "Gate"
