-- ===== src/Lbank.antt =====
-- lbank/lbank_handler.cpp: the market data of LBank.
pub mod Connection
pub mod Published
pub mod Trader
mod Examples
use trade_station.Common.{
  ℕ, Bool, true, false, ◌&&◌, not, Option, none, some, ◌>>=◌, String, List, [], ◌∷◌, map, str_eq,
  if◌then◌else◌,
}
use trade_station.Common.Int.{ℤ, pos}
use trade_station.Floats.{Floats}
use trade_station.Book.{PriceLevel, OrderBookUpdate}
use trade_station.Trades.{Trade, SharedTrades, add}
use trade_station.Feed.{
  Json, Field, text, number, json, Message, Exchange, Outcome, nothing, to_d, collect, update_of,
  deliver, add_all,
}
use trade_station.Feed.Snapshot.{higher, lower, side_of, number_at}
use trade_station.Text.{◌<>◌, lower_case}

-- The messages of `subscribe`, `subscribe_trades` and `change_symbol`.
abbrev pub on_depth : {J : Type 0} → String → String → Message J
on_depth action symbol =
    ("action", text action)
    ∷ ("subscribe", text "depth")
    ∷ ("depth", number 20)
    ∷ ("pair", text symbol)
    ∷ []

abbrev pub on_trades : {J : Type 0} → String → String → Message J
on_trades action symbol =
    ("action", text action) ∷ ("subscribe", text "trade") ∷ ("pair", text symbol) ∷ []

unfoldable pub change_symbol :
    {J : Type 0} → Exchange → String → String → Exchange × List (Message J)
change_symbol h base quote =
    let old = h.symbol in
    let new = lower_case base <> "_" <> lower_case quote in
    if h.running
    then (
      record h { symbol = new },
      on_depth "unsubscribe" old
          ∷ on_depth "subscribe" new
          ∷ on_trades "unsubscribe" old
          ∷ on_trades "subscribe" new
          ∷ [],
    )
    else (h, [])

module _ (F : Floats) (api : Json F.D) where
  unfoldable pub parse_snapshot : Exchange → ℕ → api.J → Option (OrderBookUpdate F.D)
  parse_snapshot h now depth = side_of F api (higher F) depth "bids" >>= (λ bids.
      side_of F api (lower F) depth "asks"
      >>= (λ asks. some (update_of F.nought "LBank" h.symbol now bids asks)))

  unfoldable pub quantity_of : api.J → Option F.D
  quantity_of t =
      if api.contains t "amount"
      then to_d F api (api.field t "amount")
      else (if api.contains t "vol"
          then to_d F api (api.field t "vol")
          else number_at F api t "volume")

  unfoldable pub is_buy_of : api.J → Option Bool
  is_buy_of t =
      if api.contains t "direction"
      then api.to_text (api.field t "direction") >>= (λ d. some (str_eq d "buy"))
      else some false

  unfoldable pub time_of : ℕ → api.J → Option ℤ
  time_of now t =
      if api.contains t "TS" && api.is_number (api.field t "TS")
      then api.to_integer (api.field t "TS")
      else (if api.contains t "ts" && api.is_number (api.field t "ts")
          then api.to_integer (api.field t "ts")
          else some (pos now))

  -- `process`, up to the call of `add`.
  unfoldable pub read_trade : ℕ → api.J → Option (Trade F.D)
  read_trade now t = number_at F api t "price" >>= (λ price. quantity_of t >>= (λ qty.
      is_buy_of t >>= (λ is_buy.
        time_of now t
        >>= (λ time. some (record { price = price; qty = qty; is_buy = is_buy; time_ms = time })))))

  unfoldable pub parse_trade : Exchange → ℕ → api.J → SharedTrades F.D → SharedTrades F.D
  parse_trade h now j st =
      if api.contains j "trade"
      then (if api.is_array (api.field j "trade")
          then add_all (read_trade now) h.name (api.elements (api.field j "trade")) st
          else add_all (read_trade now) h.name (api.field j "trade" ∷ []) st)
      else st

  -- The guard against frames of an old subscription, then the snapshot; `none` is an exception,
  -- and also a frame that is stale.
  unfoldable pub current : Exchange → ℕ → api.J → Option (OrderBookUpdate F.D)
  current h now j =
      if api.contains j "pair"
      then api.to_text (api.field j "pair") >>= (λ pair.
        if str_eq pair h.symbol then parse_snapshot h now (api.field j "depth") else none)
      else parse_snapshot h now (api.field j "depth")

  unfoldable pub on_json : Exchange → ℕ → api.J → Option (SharedTrades F.D) → Outcome F.D api.J
  on_json h now j st =
      if api.contains j "ping"
      then record (nothing st) {
        sent = (("action", text "pong") ∷ ("pong", json (api.field j "ping")) ∷ []) ∷ [];
      }
      else (if api.contains j "pong"
          then nothing st
          else (if api.contains j "type" && api.equals (api.field j "type") "trade"
              then nothing (st >>= (λ s. some (parse_trade h now j s)))
              else (if api.contains j "type"
                    && (api.equals (api.field j "type") "depth" && api.contains j "depth")
                  then deliver st (current h now j)
                  else nothing st)))

  unfoldable pub on_message : Exchange → ℕ → String → Option (SharedTrades F.D) → Outcome F.D api.J
  on_message h now raw st = elim (api.parse raw) [ none ↦ nothing st | some j ↦ on_json h now j st ]
