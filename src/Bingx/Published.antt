-- ===== src/Bingx/Published.antt =====
-- bingx/bingx_handler.cpp: what `on_message` publishes, and how the guard reads the data type.
use trade_station.Common.{
  ◌≡◌, refl, inl, inr, true, false, ◌||◌, not, Option, none, some, String, ℕ, Bool-cases,
  Option-cases,
}
use trade_station.Floats.{Floats}
use trade_station.Book.{OrderBookUpdate}
use trade_station.Trades.{SharedTrades}
use trade_station.Feed.{Json, Exchange, nothing, deliver, is_worth}
use trade_station.Feed.Levels.{IsOrder}
use trade_station.Feed.Snapshot.{higher, lower}
use trade_station.Feed.Guard.{
  IsBook, built-IsBook, deliver-published, not_then, not_else, none-absurd,
}
use trade_station.Bingx.{parse_snapshot, is_gzip, on_data, on_type, on_json, on_raw, on_message}
use trade_station.Text.Search.{contains_text_within}
use trade_station.Text.{◌<>◌, contains_text}

module _ (F : Floats) (api : Json F.D) where
  parsed-IsBook :
      IsOrder (higher F)
      → IsOrder (lower F)
      → (h : Exchange) (now : ℕ) (body : api.J) {u : OrderBookUpdate F.D}
      → parse_snapshot F api h now body ≡ some u
      → is_worth u ≡ true
      → IsBook F "BingX" h.symbol u
  unfolding parse_snapshot
  parsed-IsBook high low h now body built worth =
      built-IsBook F api high low "BingX" h.symbol now body built worth

  from_data :
      (h : Exchange) (now : ℕ) (data_type : String) (body : api.J) (st : Option (SharedTrades F.D))
      {u : OrderBookUpdate F.D}
      → (on_data F api h now data_type body st).published ≡ some u
      → (deliver {J = api.J} st (parse_snapshot F api h now body)).published ≡ some u
  unfolding on_data nothing
  from_data h now data_type body st e =
      not_else (contains_text data_type (h.symbol <> "@depth")) _ _ refl (
        not_else (contains_text data_type "@depth") _ _ refl
          (not_then (contains_text data_type "@trade") _ _ refl e))

  from_json :
      (h : Exchange) (now : ℕ) (j : api.J) (st : Option (SharedTrades F.D))
      {u : OrderBookUpdate F.D}
      → (on_json F api h now j st).published ≡ some u
      → (deliver {J = api.J} st (parse_snapshot F api h now (api.field j "data"))).published
        ≡ some u
  unfolding on_json on_type nothing
  from_json h now j st {u} e = typed (api.to_text (api.field j "dataType")) (
      not_then (not (api.contains j "dataType") || not (api.contains j "data")) _ _ refl
        (not_then (api.contains j "pong") _ _ refl (not_then (api.contains j "ping") _ _ refl e)))
    where
      typed :
          (o : Option String)
          → (on_type F api h now o (api.field j "data") st).published ≡ some u
          → (deliver {J = api.J} st (parse_snapshot F api h now (api.field j "data"))).published
            ≡ some u
      typed none e = absurd (none-absurd e)
      typed (some data_type) e = from_data h now data_type (api.field j "data") st e

  on_raw-IsBook :
      IsOrder (higher F)
      → IsOrder (lower F)
      → (h : Exchange) (now : ℕ) (raw : String) (st : Option (SharedTrades F.D))
        {u : OrderBookUpdate F.D}
      → (on_raw F api h now raw st).published ≡ some u
      → IsBook F "BingX" h.symbol u
  unfolding on_raw nothing
  on_raw-IsBook high low h now raw st {u} e = elim (Option-cases (api.parse raw)) [
    | inl p ↦ absurd (none-absurd (rw (p, on_raw) at e))
    | inr (j, p) ↦
        let (built, worth) =
          deliver-published api.J st (parse_snapshot F api h now (api.field j "data"))
            (from_json h now j st (rw (p, on_raw) at e)) in
        parsed-IsBook high low h now (api.field j "data") built worth
  ]

  -- For prices in a strict weak order, an update that is published is of BingX and of the symbol
  -- subscribed to, cut to 15 characters, has one to five levels, and has the best ones first.
  pub published-IsBook :
      IsOrder (higher F)
      → IsOrder (lower F)
      → (inflate : String → Option String) (h : Exchange) (now : ℕ) (raw : String)
        (st : Option (SharedTrades F.D)) {u : OrderBookUpdate F.D}
      → (on_message F api inflate h now raw st).published ≡ some u
      → IsBook F "BingX" h.symbol u
  unfolding on_message nothing
  published-IsBook high low inflate h now raw st {u} e = elim (Bool-cases (is_gzip raw)) [
    | inl z ↦ elim (Option-cases (inflate raw)) [
      | inl p ↦ absurd (none-absurd (rw (z, p, on_message) at e))
      | inr (s, p) ↦ on_raw-IsBook high low h now s st (rw (z, p, on_message) at e)
    ]
    | inr z ↦ on_raw-IsBook high low h now raw st (rw (z, on_message) at e)
  ]

  -- The guard against frames of a former subscription takes a frame of any pair whose name ends
  -- with the current one: the book of such a frame is delivered as the current pair's. (The
  -- comment in the code says that a prefix is checked.)
  pub on_type-suffix :
      (h : Exchange) (now : ℕ) (prefix rest : String) (body : api.J)
      (st : Option (SharedTrades F.D))
      → contains_text (prefix <> (h.symbol <> "@depth" <> rest)) "@trade" ≡ false
      → contains_text (prefix <> (h.symbol <> "@depth" <> rest)) "@depth" ≡ true
      → on_type F api h now (some (prefix <> (h.symbol <> "@depth" <> rest))) body st
        ≡ deliver st (parse_snapshot F api h now body)
  unfolding on_type on_data
  on_type-suffix h now prefix rest body st no_trade depth =
      rw (no_trade, depth, contains_text_within prefix (h.symbol <> "@depth") rest) refl
