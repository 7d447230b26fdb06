-- ===== src/Bingx.antt =====
-- bingx/bingx_handler.cpp: the market data of BingX. `decompress_gzip`, which runs zlib over a frame,
-- is the argument `inflate`; `none` is an exception. Bingx/Connection has a model of it.
pub mod Connection
pub mod Published
pub mod Trader
pub mod Stream
mod Examples
use Prim.Native.Char.{code}
use Prim.Native.String
use trade_station.Common.{
  ℕ, ◌+◌, Bool, true, false, ◌&&◌, ◌||◌, not, Option, none, some, ◌>>=◌, String, List, [], ◌∷◌,
  ◌==◌, if◌then◌else◌,
}
use trade_station.Common.Int.{ℤ, pos}
use trade_station.Floats.{Floats}
use trade_station.Book.{OrderBookUpdate}
use trade_station.Trades.{Trade, SharedTrades, add}
use trade_station.Feed.{
  Json, Field, text, json, Message, Exchange, Outcome, nothing, to_d, update_of, deliver, add_all,
}
use trade_station.Feed.Snapshot.{higher, lower, side_of, number_at}
use trade_station.Text.{◌<>◌, contains_text}

-- A message to subscribe or unsubscribe. `print` is std::to_string.
abbrev pub request : {J : Type 0} → String → String → String → Message J
request id kind data_type =
    ("id", text id) ∷ ("reqType", text kind) ∷ ("dataType", text data_type) ∷ []

-- The clock is read twice, and gives `ts` and `ts2`.
unfoldable pub change_symbol :
    {J : Type 0} → (ℕ → String) → ℕ → ℕ → Exchange → String → String → Exchange × List (Message J)
change_symbol print ts ts2 h base quote =
    let old = h.symbol in
    let new = base <> "-" <> quote in
    if h.running
    then (
      record h { symbol = new },
      request (print ts) "unsub" (old <> "@depth20")
          ∷ request (print (ts + 1)) "sub" (new <> "@depth20")
          ∷ request (print ts2) "unsub" (old <> "@trade")
          ∷ request (print (ts2 + 1)) "sub" (new <> "@trade")
          ∷ [],
    )
    else (h, [])

-- The test for the magic number of gzip, 1f 8b. A frame is its bytes.
unfoldable pub is_gzip : String → Bool
is_gzip (String.◌∷◌ a (String.◌∷◌ b s)) = (code a == 31) && (code b == 139)
is_gzip s = false

module _ (F : Floats) (api : Json F.D) where
  unfoldable pub parse_snapshot : Exchange → ℕ → api.J → Option (OrderBookUpdate F.D)
  parse_snapshot h now body = side_of F api (higher F) body "bids" >>= (λ bids.
      side_of F api (lower F) body "asks"
      >>= (λ asks. some (update_of F.nought "BingX" h.symbol now bids asks)))

  unfoldable pub is_buy_of : api.J → Option Bool
  is_buy_of body =
      if api.contains body "m"
      then api.to_bool (api.field body "m") >>= (λ maker. some (not maker))
      else some false

  unfoldable pub time_of : api.J → Option ℤ
  time_of body = if api.contains body "T" then api.to_integer (api.field body "T") else some (pos 0)

  -- `parse_trade`, up to the call of `add`.
  unfoldable pub read_trade : api.J → Option (Trade F.D)
  read_trade body = number_at F api body "p" >>= (λ price. number_at F api body "q" >>= (λ qty.
      is_buy_of body >>= (λ is_buy.
        time_of body
        >>= (λ time. some (record { price = price; qty = qty; is_buy = is_buy; time_ms = time })))))

  unfoldable pub parse_trade : Exchange → api.J → SharedTrades F.D → SharedTrades F.D
  parse_trade h body st = add_all read_trade h.name (body ∷ []) st

  -- What `on_message` does with a frame that has a data type.
  unfoldable pub on_data :
      Exchange → ℕ → String → api.J → Option (SharedTrades F.D) → Outcome F.D api.J
  on_data h now data_type body st =
      if contains_text data_type "@trade"
      then nothing (st >>= (λ s. some (parse_trade h body s)))
      else (if contains_text data_type "@depth"
          then (if contains_text data_type (h.symbol <> "@depth")
              then deliver st (parse_snapshot h now body)
              else nothing st)
          else nothing st)

  -- `none` is the exception of a data type that is no text.
  unfoldable pub on_type :
      Exchange → ℕ → Option String → api.J → Option (SharedTrades F.D) → Outcome F.D api.J
  on_type h now none body st = nothing st
  on_type h now (some data_type) body st = on_data h now data_type body st

  unfoldable pub on_json : Exchange → ℕ → api.J → Option (SharedTrades F.D) → Outcome F.D api.J
  on_json h now j st =
      if api.contains j "ping"
      then record (nothing st) { sent = (("pong", json (api.field j "ping")) ∷ []) ∷ [] }
      else (if api.contains j "pong"
          then nothing st
          else (if not (api.contains j "dataType") || not (api.contains j "data")
              then nothing st
              else on_type h now (api.to_text (api.field j "dataType")) (api.field j "data") st))

  unfoldable pub on_raw : Exchange → ℕ → String → Option (SharedTrades F.D) → Outcome F.D api.J
  on_raw h now raw st = elim (api.parse raw) [ none ↦ nothing st | some j ↦ on_json h now j st ]

  unfoldable pub on_message :
      (String → Option String)
      → Exchange
      → ℕ
      → String
      → Option (SharedTrades F.D)
      → Outcome F.D api.J
  on_message inflate h now raw st =
      if is_gzip raw
      then elim (inflate raw) [ none ↦ nothing st | some s ↦ on_raw h now s st ]
      else on_raw h now raw st
