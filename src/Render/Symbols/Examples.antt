-- ===== src/Render/Symbols/Examples.antt =====
-- "Apply All" with keys for Gate.
use trade_station.Common.{ℕ, ◌≡◌, refl, true, false, String, Bool, [], ◌∷◌, All, str_eq}
use trade_station.Common.Int.{pos}
use trade_station.Trades.{Trade}
use trade_station.Feed.{Exchange, update_of}
use trade_station.Text.{upper_case}
use trade_station.Render.Symbols.{Desk, IsInStep, exchange_symbol, apply_all, apply_all-IsInStep}

abbrev handler : String → Exchange
handler name = record { name = name; symbol = ""; running = true }

abbrev blank : Trade ℕ
blank = record { price = 0; qty = 0; is_buy = false; time_ms = pos 0 }

abbrev desk : Desk ℕ
desk = record {
  base = "eth";
  quote = "usdt";
  display = record { exchanges = λ i. update_of 0 "Gate" "BTC_USDT" 1 [] []; exchange_count = 1 };
  trades = record { trades = λ i j. blank; counts = λ i. 0; names = λ i. ""; exchange_count = 0 };
  forms = [];
  mexc = record {
    exchange = handler "MEXC";
    bids_book = [];
    asks_book = [];
    awaiting_sub_ack = false;
  };
  gate = handler "Gate";
  bingx = handler "BingX";
  lbank = handler "LBank";
}

abbrev gate_keys : String → Bool
gate_keys name = str_eq name "Gate"

apply_all-IsInStep_example :
    IsInStep (apply_all ℕ 0 blank (λ n. "") 1 2 gate_keys ("Gate" ∷ []) desk).desk
    × All
        (λ r. r.1 ≡ exchange_symbol (upper_case "eth") (upper_case "usdt") r.0)
        (apply_all ℕ 0 blank (λ n. "") 1 2 gate_keys ("Gate" ∷ []) desk).fetches
apply_all-IsInStep_example =
    apply_all-IsInStep ℕ 0 blank (λ n. "") 1 2 gate_keys ("Gate" ∷ []) desk refl refl refl refl
