-- ===== src/Mexc/Switch.antt =====
-- mexc/mexc_handler.cpp: the time between a change of symbol and its acknowledgement.
use mathlib.Core.Path.{ap₂}
use trade_station.Common.{
  ℕ, ◌≡◌, refl, ◌∙◌, inl, inr, Bool, true, false, ◌&&◌, Option, none, some, String, List, [], ◌∷◌,
  All, Bool-cases, Option-cases,
}
use trade_station.Floats.{Floats}
use trade_station.Trades.{SharedTrades}
use trade_station.Feed.{Json, nothing}
use trade_station.Mexc.{
  Proto, MexcHandler, depth_channel, change_symbol, on_text, is_json, on_message, on_frames,
}
use trade_station.Text.{◌<>◌, contains_text}

module _ (F : Floats) (api : Json F.D) where
  -- The message names the depth channel of the symbol.
  unfoldable pub names_depth : String → Option String → Bool
  names_depth symbol none = false
  names_depth symbol (some ack) = contains_text ack (depth_channel symbol)

  unfoldable pub text_acks : String → Option api.J → Bool
  text_acks symbol none = false
  text_acks symbol (some j) = names_depth symbol (api.to_text (api.field j "msg"))

  -- A frame that can acknowledge the subscription to the symbol.
  unfoldable pub acks : String → String → Bool
  acks symbol raw = text_acks symbol (api.parse raw)

  text_quiet :
      (h : MexcHandler F.D) (j : api.J) (st : Option (SharedTrades F.D)) (proto : Proto)
      → names_depth h.exchange.symbol (api.to_text (api.field j "msg")) ≡ false
      → ((on_text F api proto h j st).0 ≡ h)
        × ((on_text F api proto h j st).1.published ≡ none)
        × ((on_text F api proto h j st).1.shared_trades ≡ st)
  unfolding on_text names_depth nothing
  text_quiet h j st proto quiet =
      elim (Bool-cases (api.contains j "msg" && api.equals (api.field j "msg") "ping")) [
        | inl e ↦ rw e (refl, refl, refl)
        | inr e ↦ elim (Bool-cases (api.contains j "msg" && api.is_string (api.field j "msg"))) [
          | inr f ↦ rw (e, f) (refl, refl, refl)
          | inl f ↦ elim (Option-cases (api.to_text (api.field j "msg"))) [
            | inl n ↦ rw (e, f, n) (refl, refl, refl)
            | inr (ack, n) ↦ rw (e, f, n, (rw n at quiet)) (refl, refl, refl)
          ]
        ]
      ]

  module _ (proto : Proto) where
    message_quiet :
        (h : MexcHandler F.D) (now : ℕ) (raw : String) (st : Option (SharedTrades F.D))
        → h.awaiting_sub_ack ≡ true
        → acks h.exchange.symbol raw ≡ false
        → ((on_message F api proto h now raw st).0 ≡ h)
          × ((on_message F api proto h now raw st).1.published ≡ none)
          × ((on_message F api proto h now raw st).1.shared_trades ≡ st)
    unfolding on_message acks text_acks nothing
    message_quiet h now raw st waits quiet = elim (Bool-cases (is_json F api proto raw)) [
      | inr e ↦ rw (e, waits) (refl, refl, refl)
      | inl e ↦ elim (Option-cases (api.parse raw)) [
        | inl p ↦ rw (e, p, on_message) (refl, refl, refl)
        | inr (j, p) ↦ rw (e, p, on_message) (text_quiet h j st proto (rw p at quiet))
      ]
    ]

    frames_quiet :
        (h : MexcHandler F.D) (now : ℕ) (raws : List String) (st : Option (SharedTrades F.D))
        → h.awaiting_sub_ack ≡ true
        → All (λ raw. acks h.exchange.symbol raw ≡ false) raws
        → on_frames F api proto h now raws st ≡ (h, [])
    unfolding on_frames
    frames_quiet h now [] st waits quiet = refl
    frames_quiet h now (raw ∷ raws) st waits (q, qs) =
        let step = message_quiet h now raw st waits q in
        let rest : on_frames F api proto (on_message F api proto h now raw st).0 now raws
              (on_message F api proto h now raw st).1.shared_trades
            ≡ (h, []) =
          ap₂ (λ g t. on_frames F api proto g now raws t) step.0 step.2
          ∙ frames_quiet h now raws st waits qs in
        rw (step.1, rest) refl

    -- After a change of symbol, as long as no frame names the depth channel of the new symbol, the
    -- handler publishes nothing, and goes on to wait with empty books.
    pub on_frames-change_symbol :
        (h : MexcHandler F.D) (base quote : String) (now : ℕ) (raws : List String)
        (st : Option (SharedTrades F.D))
        → h.exchange.running ≡ true
        → All (λ raw. acks (base <> quote) raw ≡ false) raws
        → (on_frames F api proto (change_symbol {J = api.J} h base quote).0 now raws st
            ≡ ((change_symbol {J = api.J} h base quote).0, []))
          × ((change_symbol {J = api.J} h base quote).0.awaiting_sub_ack ≡ true)
          × ((change_symbol {J = api.J} h base quote).0.bids_book ≡ [])
          × ((change_symbol {J = api.J} h base quote).0.asks_book ≡ [])
    unfolding change_symbol
    on_frames-change_symbol h base quote now raws st on quiet =
        rw on (frames_quiet (switched h.exchange.running) now raws st refl quiet, refl, refl, refl)
      where
        switched : Bool → MexcHandler F.D
        switched r = record h {
          exchange = record h.exchange { symbol = base <> quote; running = true };
          bids_book = [];
          asks_book = [];
          awaiting_sub_ack = true;
        }
