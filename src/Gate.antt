-- ===== src/Gate.antt =====
-- gate/gate_handler.cpp: the market data of Gate.
pub mod Connection
pub mod Published
pub mod Rest
pub mod Socket
pub mod Trader
mod Examples
use trade_station.Common.{
  ℕ, zero, suc, ◌+◌, Bool, true, false, ◌&&◌, ◌||◌, not, Option, none, some, ◌>>=◌, String, List,
  [], ◌∷◌, str_eq, if◌then◌else◌,
}
use trade_station.Common.Int.{ℤ, pos}
use trade_station.Floats.{Floats}
use trade_station.Book.{PriceLevel, OrderBookUpdate}
use trade_station.Trades.{Trade, SharedTrades, add}
use trade_station.Feed.{
  Json, Field, text, number, texts, Message, Exchange, Outcome, nothing, is_level, to_level,
  update_of, deliver, add_all,
}
use trade_station.Text.{◌<>◌}

abbrev pub request : {J : Type 0} → ℕ → String → String → List String → Message J
request ts channel event payload =
    ("time", number ts)
    ∷ ("channel", text channel)
    ∷ ("event", text event)
    ∷ ("payload", texts payload)
    ∷ []

-- The clock is read twice, and gives `ts` and `ts2`.
unfoldable pub change_symbol :
    {J : Type 0} → ℕ → ℕ → Exchange → String → String → Exchange × List (Message J)
change_symbol ts ts2 h base quote =
    let old = h.symbol in
    let new = base <> "_" <> quote in
    if h.running
    then (
      record h { symbol = new },
      request ts "spot.order_book" "unsubscribe" (old ∷ "5" ∷ "100ms" ∷ [])
          ∷ request ts "spot.order_book" "subscribe" (new ∷ "5" ∷ "100ms" ∷ [])
          ∷ request ts2 "spot.trades" "unsubscribe" (old ∷ [])
          ∷ request (ts2 + 1) "spot.trades" "subscribe" (new ∷ [])
          ∷ [],
    )
    else (h, [])

module _ (F : Floats) (api : Json F.D) where
  -- The loop over a side: it stops once `n` levels are read, and does not look at the rest.
  unfoldable pub collect_first : ℕ → List api.J → Option (List (PriceLevel F.D))
  collect_first zero levels = some []
  collect_first (suc n) [] = some []
  collect_first (suc n) (level ∷ levels) =
      let taken = collect_first n levels in
      let skipped = collect_first (suc n) levels in
      if is_level F api level
      then to_level F api level >>= (λ l. taken >>= (λ ls. some (l ∷ ls)))
      else skipped

  unfoldable pub levels_of : api.J → String → Option (List (PriceLevel F.D))
  levels_of result key =
      if api.contains result key
      then collect_first 5 (api.elements (api.field result key))
      else some []

  unfoldable pub parse_snapshot : Exchange → ℕ → api.J → Option (OrderBookUpdate F.D)
  parse_snapshot h now result = levels_of result "bids" >>= (λ bids.
      levels_of result "asks" >>= (λ asks. some (update_of F.nought "Gate" h.symbol now bids asks)))

  -- `std::stod(r[key].get<std::string>())`, where the key is there.
  unfoldable pub number_at : api.J → String → Option F.D
  number_at r key =
      if api.contains r key then api.to_text (api.field r key) >>= F.stod else some F.nought

  unfoldable pub is_buy_of : api.J → Option Bool
  is_buy_of r =
      if api.contains r "side"
      then api.to_text (api.field r "side") >>= (λ s. some (str_eq s "buy"))
      else some false

  unfoldable pub time_of : (String → Option ℤ) → api.J → Option ℤ
  time_of stoll r =
      if api.contains r "create_time_ms"
      then api.to_text (api.field r "create_time_ms") >>= stoll
      else some (pos 0)

  -- `process`, up to the call of `add`. `stoll` is std::stoll.
  unfoldable pub read_trade : (String → Option ℤ) → api.J → Option (Trade F.D)
  read_trade stoll r = number_at r "price" >>= (λ price. number_at r "amount" >>= (λ qty.
      is_buy_of r >>= (λ is_buy.
        time_of stoll r
        >>= (λ time. some (record { price = price; qty = qty; is_buy = is_buy; time_ms = time })))))

  unfoldable pub parse_trade :
      (String → Option ℤ) → Exchange → api.J → SharedTrades F.D → SharedTrades F.D
  parse_trade stoll h result st =
      if api.is_array result
      then add_all (read_trade stoll) h.name (api.elements result) st
      else add_all (read_trade stoll) h.name (result ∷ []) st

  -- The guard against frames of an old subscription, then the snapshot; `none` is an exception,
  -- and also a frame that is stale.
  unfoldable pub current : Exchange → ℕ → api.J → Option (OrderBookUpdate F.D)
  current h now result =
      if api.contains result "currency_pair"
      then api.to_text (api.field result "currency_pair")
        >>= (λ pair. if str_eq pair h.symbol then parse_snapshot h now result else none)
      else parse_snapshot h now result

  unfoldable pub on_channel : api.J → String → Bool
  on_channel j channel = api.contains j "channel" && api.equals (api.field j "channel") channel

  unfoldable pub on_json :
      (String → Option ℤ) → Exchange → ℕ → api.J → Option (SharedTrades F.D) → Outcome F.D api.J
  on_json stoll h now j st =
      if not (api.contains j "event") || not (api.equals (api.field j "event") "update")
      then nothing st
      else (if on_channel j "spot.trades" && api.contains j "result"
          then nothing (st >>= (λ s. some (parse_trade stoll h (api.field j "result") s)))
          else (if not (on_channel j "spot.order_book") || not (api.contains j "result")
              then nothing st
              else deliver st (current h now (api.field j "result"))))

  unfoldable pub on_message :
      (String → Option ℤ) → Exchange → ℕ → String → Option (SharedTrades F.D) → Outcome F.D api.J
  on_message stoll h now raw st = elim (api.parse raw) [
    | none ↦ nothing st
    | some j ↦ on_json stoll h now j st
  ]
