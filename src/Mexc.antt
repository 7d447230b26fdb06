-- ===== src/Mexc.antt =====
-- mexc/mexc_handler.cpp: the market data of MEXC. The classes that protoc generates are the
-- parameter Proto. A std::map is the list of its entries in the order of its comparison.
pub mod Connection
pub mod Switch
pub mod Trader
pub mod Stream
pub mod Books
mod Examples
use trade_station.Common.{
  ℕ, Bool, true, false, ◌&&◌, not, ◌==◌, Option, none, some, String, List, [], ◌∷◌, take, str_eq,
  if◌then◌else◌,
}
use trade_station.Common.Int.{ℤ}
use trade_station.Floats.{Floats}
use trade_station.Book.{PriceLevel, OrderBookUpdate}
use trade_station.Trades.{Trade, SharedTrades, add}
use trade_station.Feed.{
  Json, Field, text, texts, Message, Exchange, Outcome, nothing, update_of, is_worth,
}
use trade_station.Text.{◌<>◌, contains_text, starts_with}

-- PublicAggreDepthV3ApiItem
pub record DepthItem : Type 0 where
  pub price : String
  pub quantity : String

-- PublicAggreDepthsV3Api
pub record Depths : Type 0 where
  pub bids : List DepthItem
  pub asks : List DepthItem

-- PublicAggreDealsV3ApiItem
pub record Deal : Type 0 where
  pub price : String
  pub quantity : String
  pub tradetype : ℕ
  pub time : ℤ

-- PushDataV3ApiWrapper; `none` is a frame that does not parse, or a part that is not there.
pub record Proto : Type 1 where
  pub W : Type 0
  pub parse : String → Option W
  pub depths : W → Option Depths
  pub deals : W → Option (List Deal)
  pub symbol : W → Option String

pub record MexcHandler (D : Type 0) : Type 0 where
  pub exchange : Exchange
  pub bids_book : List (PriceLevel D)
  pub asks_book : List (PriceLevel D)
  pub awaiting_sub_ack : Bool

abbrev pub depth_channel : String → String
depth_channel symbol = "spot@public.aggre.depth.v3.api.pb@100ms@" <> symbol

abbrev pub deals_channel : String → String
deals_channel symbol = "spot@public.aggre.deals.v3.api.pb@100ms@" <> symbol

-- The messages of `subscribe`, `subscribe_trades` and `change_symbol`.
abbrev pub request : {J : Type 0} → String → String → Message J
request method channel = ("method", text method) ∷ ("params", texts (channel ∷ [])) ∷ []

unfoldable pub change_symbol :
    {D J : Type 0} → MexcHandler D → String → String → MexcHandler D × List (Message J)
change_symbol h base quote =
    let old = h.exchange.symbol in
    let new = base <> quote in
    if h.exchange.running
    then (
      record h {
        exchange = record h.exchange { symbol = new };
        bids_book = [];
        asks_book = [];
        awaiting_sub_ack = true;
      },
      request "UNSUBSCRIPTION" (depth_channel old)
          ∷ request "UNSUBSCRIPTION" (deals_channel old)
          ∷ request "SUBSCRIPTION" (depth_channel new)
          ∷ request "SUBSCRIPTION" (deals_channel new)
          ∷ [],
    )
    else (h, [])

module _ (F : Floats) where
  -- `map[price] = qty`, where `before` is the comparison of the map.
  unfoldable pub assign :
      (F.D → F.D → Bool) → F.D → F.D → List (PriceLevel F.D) → List (PriceLevel F.D)
  assign before price qty [] = record { price = price; quantity = qty } ∷ []
  assign before price qty (l ∷ ls) =
      let rest = assign before price qty ls in
      if before price l.price
      then record { price = price; quantity = qty } ∷ l ∷ ls
      else (if before l.price price then l ∷ rest else record l { quantity = qty } ∷ ls)

  -- `map.erase(price)`
  unfoldable pub erase : (F.D → F.D → Bool) → F.D → List (PriceLevel F.D) → List (PriceLevel F.D)
  erase before price [] = []
  erase before price (l ∷ ls) =
      let rest = erase before price ls in
      if before price l.price then l ∷ ls else (if before l.price price then l ∷ rest else ls)

  unfoldable pub merge :
      (F.D → F.D → Bool) → F.D → F.D → List (PriceLevel F.D) → List (PriceLevel F.D)
  merge before price qty book =
      if F.eq qty F.nought then erase before price book else assign before price qty book

  -- A loop over the items of a side: the book, and whether no exception ended the loop.
  unfoldable pub merge_all :
      (F.D → F.D → Bool) → List DepthItem → List (PriceLevel F.D) → List (PriceLevel F.D) × Bool
  merge_all before [] book = (book, true)
  merge_all before (d ∷ ds) book = elim (F.stod d.price) [
    | none ↦ (book, false)
    | some price ↦ elim (F.stod d.quantity) [
      | none ↦ (book, false)
      | some qty ↦ merge_all before ds (merge before price qty book)
    ]
  ]

  unfoldable pub greater : F.D → F.D → Bool
  greater a b = F.lt b a

  -- The top five of both books.
  unfoldable pub top_five : ℕ → MexcHandler F.D → OrderBookUpdate F.D
  top_five now h =
      update_of F.nought "MEXC" h.exchange.symbol now (take 5 h.bids_book) (take 5 h.asks_book)

  -- `none` is an exception; the items before it stay merged.
  unfoldable pub apply_depth :
      ℕ → Depths → MexcHandler F.D → MexcHandler F.D × Option (OrderBookUpdate F.D)
  apply_depth now depths h =
      let bids = merge_all greater depths.bids h.bids_book in
      let asks = merge_all F.lt depths.asks h.asks_book in
      let h' = record h { bids_book = bids.0 } in
      let h'' = record h { bids_book = bids.0; asks_book = asks.0 } in
      if bids.1
      then (if asks.1 then (h'', some (top_five now h'')) else (h'', none))
      else (h', none)

  -- A number of a trade, 0 where std::stod throws.
  unfoldable pub number_or_zero : String → F.D
  number_or_zero s = elim (F.stod s) [ none ↦ F.nought | some x ↦ x ]

  unfoldable pub trade_of : Deal → Trade F.D
  trade_of d = record {
    price = number_or_zero d.price;
    qty = number_or_zero d.quantity;
    is_buy = d.tradetype == 1;
    time_ms = d.time;
  }

  unfoldable pub parse_trade_pb : String → List Deal → SharedTrades F.D → SharedTrades F.D
  parse_trade_pb name [] st = st
  parse_trade_pb name (d ∷ ds) st = parse_trade_pb name ds (add st name (trade_of d))

  module _ (api : Json F.D) (proto : Proto) where
    abbrev pub Result : Type 0
    Result = MexcHandler F.D × Outcome F.D api.J

    -- A JSON frame: pings, and acknowledgements of subscriptions.
    unfoldable pub on_text : MexcHandler F.D → api.J → Option (SharedTrades F.D) → Result
    on_text h j st =
        if api.contains j "msg" && api.equals (api.field j "msg") "ping"
        then (h, record (nothing st) { sent = (("msg", text "pong") ∷ []) ∷ [] })
        else (if api.contains j "msg" && api.is_string (api.field j "msg")
            then elim (api.to_text (api.field j "msg")) [
              | none ↦ (h, nothing st)
              | some ack ↦
                  if contains_text ack (depth_channel h.exchange.symbol)
                  then (
                    record h { bids_book = []; asks_book = []; awaiting_sub_ack = false },
                    nothing st,
                  )
                  else (h, nothing st)
            ]
            else (h, nothing st))

    -- The trades of a binary frame, unless it names another symbol.
    unfoldable pub with_deals :
        MexcHandler F.D → proto.W → Option (SharedTrades F.D) → Option (SharedTrades F.D)
    with_deals h w none = none
    with_deals h w (some st) = elim (proto.deals w) [
      | none ↦ some st
      | some ds ↦ elim (proto.symbol w) [
        | none ↦ some (parse_trade_pb h.exchange.name ds st)
        | some symbol ↦
            if str_eq symbol h.exchange.symbol
            then some (parse_trade_pb h.exchange.name ds st)
            else some st
      ]
    ]

    -- The order book of a frame is published first; an exception in it ends the call.
    unfoldable pub on_wrapper : MexcHandler F.D → ℕ → proto.W → Option (SharedTrades F.D) → Result
    on_wrapper h now w st = elim (proto.depths w) [
      | none ↦ (h, nothing (with_deals h w st))
      | some depths ↦
          let (h', o) = apply_depth now depths h in
          elim o [
            | none ↦ (h', nothing st)
            | some u ↦ (
              h',
              if is_worth u
                  then record (nothing (with_deals h' w st)) { published = some u }
                  else nothing (with_deals h' w st),
            )
          ]
    ]

    unfoldable pub is_json : String → Bool
    is_json raw = starts_with raw "{"

    unfoldable pub on_message : MexcHandler F.D → ℕ → String → Option (SharedTrades F.D) → Result
    on_message h now raw st =
        if is_json raw
        then elim (api.parse raw) [ none ↦ (h, nothing st) | some j ↦ on_text h j st ]
        else (if h.awaiting_sub_ack
            then (h, nothing st)
            else elim (proto.parse raw) [ none ↦ (h, nothing st) | some w ↦ on_wrapper h now w st ])

    -- A run of frames: the state at the end, and the updates published, in order.
    unfoldable pub on_frames :
        MexcHandler F.D
        → ℕ
        → List String
        → Option (SharedTrades F.D)
        → MexcHandler F.D × List (OrderBookUpdate F.D)
    on_frames h now [] st = (h, [])
    on_frames h now (raw ∷ raws) st =
        let (h', o) = on_message h now raw st in
        let (h'', us) = on_frames h' now raws o.shared_trades in
        (h'', elim o.published [ none ↦ us | some u ↦ u ∷ us ])
