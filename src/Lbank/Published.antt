-- ===== src/Lbank/Published.antt =====
-- lbank/lbank_handler.cpp: what `on_message` publishes, also right after a change of symbol.
use trade_station.Common.{
  ◌≡◌, ◌≢◌, refl, sym, ◌∙◌, inl, inr, Bool, true, false, ◌&&◌, Option, none, some, String, ℕ,
  str_eq, str_eq_ne, if◌then◌else◌, Bool-cases, Option-cases,
}
use trade_station.Floats.{Floats}
use trade_station.Book.{OrderBookUpdate}
use trade_station.Trades.{SharedTrades}
use trade_station.Feed.{Json, Exchange, nothing, deliver, is_worth}
use trade_station.Feed.Levels.{IsOrder}
use trade_station.Feed.Snapshot.{higher, lower}
use trade_station.Feed.Guard.{
  IsBook, bind_some, built-IsBook, deliver-published, not_then, not_else, none-absurd,
}
use trade_station.Lbank.{change_symbol, parse_snapshot, current, on_json, on_message}
use trade_station.Text.{◌<>◌, lower_case}

module _ (F : Floats) (api : Json F.D) where
  -- An update that is published is the delivered one of a depth frame.
  from_depth :
      (h : Exchange) (now : ℕ) (j : api.J) (st : Option (SharedTrades F.D))
      {u : OrderBookUpdate F.D}
      → (on_json F api h now j st).published ≡ some u
      → (deliver {J = api.J} st (current F api h now j)).published ≡ some u
  unfolding on_json nothing
  from_depth h now j st e =
      not_else
        (api.contains j "type"
          && (api.equals (api.field j "type") "depth" && api.contains j "depth"))
        _ _ refl
        (not_then (api.contains j "type" && api.equals (api.field j "type") "trade") _ _ refl
          (not_then (api.contains j "pong") _ _ refl (not_then (api.contains j "ping") _ _ refl e)))

  if_some :
      (b : Bool) {o : Option (OrderBookUpdate F.D)} {u : OrderBookUpdate F.D}
      → (if b then o else none) ≡ some u
      → o ≡ some u
  if_some true h = h
  if_some false h = cc

  from_current :
      (h : Exchange) (now : ℕ) (j : api.J) {u : OrderBookUpdate F.D}
      → current F api h now j ≡ some u
      → parse_snapshot F api h now (api.field j "depth") ≡ some u
  unfolding current
  from_current h now j e = elim (Bool-cases (api.contains j "pair")) [
    | inl p ↦
        let (pair, _, e') = bind_some (api.to_text (api.field j "pair")) (rw p at e) in
        if_some (str_eq pair h.symbol) e'
    | inr p ↦ rw p at e
  ]

  parsed-IsBook :
      IsOrder (higher F)
      → IsOrder (lower F)
      → (h : Exchange) (now : ℕ) (j : api.J) {u : OrderBookUpdate F.D}
      → current F api h now j ≡ some u
      → is_worth u ≡ true
      → IsBook F "LBank" h.symbol u
  unfolding parse_snapshot
  parsed-IsBook high low h now j built worth =
      built-IsBook F api high low "LBank" h.symbol now (api.field j "depth")
        (from_current h now j built) worth

  -- For prices in a strict weak order, an update that is published is of LBank and of the symbol
  -- subscribed to, cut to 15 characters, has one to five levels, and has the best ones first.
  pub on_message-IsBook :
      IsOrder (higher F)
      → IsOrder (lower F)
      → (h : Exchange) (now : ℕ) (raw : String) (st : Option (SharedTrades F.D))
        {u : OrderBookUpdate F.D}
      → (on_message F api h now raw st).published ≡ some u
      → IsBook F "LBank" h.symbol u
  unfolding on_message nothing
  on_message-IsBook high low h now raw st {u} e = elim (Option-cases (api.parse raw)) [
    | inl p ↦ absurd (none-absurd (rw (p, on_message) at e))
    | inr (j, p) ↦
        let (built, worth) =
          deliver-published api.J st (current F api h now j)
            (from_depth h now j st (rw (p, on_message) at e)) in
        parsed-IsBook high low h now j built worth
  ]

  stale_current :
      (h : Exchange) (now : ℕ) (j : api.J) {pair : String}
      → api.contains j "pair" ≡ true
      → api.to_text (api.field j "pair") ≡ some pair
      → pair ≢ h.symbol
      → current F api h now j ≡ none
  unfolding current
  stale_current h now j {pair} there own other = rw (there, own, str_eq_ne pair h.symbol other) refl

  stale_message :
      (h : Exchange) (now : ℕ) (raw : String) (st : Option (SharedTrades F.D)) (j : api.J)
      {pair : String}
      → api.parse raw ≡ some j
      → api.contains j "pair" ≡ true
      → api.to_text (api.field j "pair") ≡ some pair
      → pair ≢ h.symbol
      → (on_message F api h now raw st).published ≡ none
  unfolding on_message
  stale_message h now raw st j read there own other =
      elim (Option-cases (on_message F api h now raw st).published) [
        | inl e ↦ e
        | inr (u, e) ↦
            let e' = from_depth h now j st (rw (read, on_message) at e) in
            let built = (deliver-published api.J st (current F api h now j) e').0 in
            absurd (none-absurd (sym (stale_current h now j there own other) ∙ built))
      ]

  -- Once the symbol has changed, a frame whose field "pair" holds the former pair is not published. (A
  -- depth frame without that field is not checked by the code.)
  pub on_message-stale :
      (h : Exchange) (base quote : String) (now : ℕ) (raw : String) (st : Option (SharedTrades F.D))
      (j : api.J)
      → h.running ≡ true
      → h.symbol ≢ lower_case base <> "_" <> lower_case quote
      → api.parse raw ≡ some j
      → api.contains j "pair" ≡ true
      → api.to_text (api.field j "pair") ≡ some h.symbol
      → (on_message F api (change_symbol {J = api.J} h base quote).0 now raw st).published ≡ none
  unfolding change_symbol
  on_message-stale h base quote now raw st j on other read there own = rw on (
      stale_message
        (record h { symbol = lower_case base <> "_" <> lower_case quote; running = true }) now raw
        st j read there own other)
