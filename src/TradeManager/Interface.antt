-- ===== src/TradeManager/Interface.antt =====
-- trading/trade_manager.h: what the manager needs of its traders, and what its operations then promise.
use trade_station.Common.{
  ◌≡◌, refl, sym, subst, Bool, true, false, Option, none, some, String, List, [], All, str_eq,
  str_eq→eq, inl, inr, Bool-cases, if◌then◌else◌,
}
use trade_station.Orders.{Side, OrderResult, PlacedOrder}
use trade_station.Rest.Listing.{IsListed}
use trade_station.Rest.Outcomes.{IsSafe}
use trade_station.TradeManager.{
  Trader, TradeManager, no_trader, or_value, submit, cancel, fetch_orders, with_keys, init,
}
use trade_station.TradeManager.Dispatch.{trader_of, or_else, dispatch_lem, or_value-or_else}

module _ {D : Type 0} where
  -- A trader for the exchange `name`: nothing that it does throws, an order that fails has no id, and
  -- what it lists are open orders of that exchange and of the symbol that was asked.
  pub record IsTrader (name : String) (t : Trader D) : Type 0 where
    pub places :
        (side : Side) (symbol : String) (price qty : D)
        → (r : OrderResult) × (t.place_limit_order side symbol price qty ≡ some r) × IsSafe r
    pub cancels :
        (symbol order_id : String)
        → (r : OrderResult) × (t.cancel_limit_order symbol order_id ≡ some r)
    pub lists :
        (symbol : String)
        → (os : List (PlacedOrder D)) × (t.fetch_open_orders symbol ≡ some os)
          × All (IsListed name symbol) os

  abbrev pub IsTraderOrNone : String → Option (Trader D) → Type 0
  IsTraderOrNone name none = Unit
  IsTraderOrNone name (some t) = IsTrader name t

  pub record HasTraders (m : TradeManager D) : Type 0 where
    pub mexc : IsTraderOrNone "MEXC" m.mexc
    pub gate : IsTraderOrNone "Gate" m.gate
    pub bingx : IsTraderOrNone "BingX" m.bingx
    pub lbank : IsTraderOrNone "LBank" m.lbank

  -- The first of two traders where the exchange has the name.
  by_name :
      (exchange name : String) (o rest : Option (Trader D))
      → IsTraderOrNone name o
      → IsTraderOrNone exchange rest
      → IsTraderOrNone exchange (if str_eq exchange name then o else rest)
  by_name exchange name o rest here behind = elim (Bool-cases (str_eq exchange name)) [
    | inl e ↦ rw e (subst (λ n. IsTraderOrNone n o) (sym (str_eq→eq exchange name e)) here)
    | inr e ↦ rw e behind
  ]

  trader_of-IsTrader :
      (m : TradeManager D)
      → HasTraders m
      → (exchange : String) → IsTraderOrNone exchange (trader_of m exchange)
  unfolding trader_of
  trader_of-IsTrader m has exchange = by_name exchange "MEXC" m.mexc _ has.mexc (
      by_name exchange "Gate" m.gate _ has.gate (
        by_name exchange "BingX" m.bingx _ has.bingx
          (by_name exchange "LBank" m.lbank none has.lbank tt)))

  listed :
      (exchange symbol : String) (o : Option (Trader D))
      → IsTraderOrNone exchange o
      → All
          (IsListed exchange symbol)
          (or_else o (λ t. or_value [] (t.fetch_open_orders symbol)) [])
  unfolding or_else or_value
  listed exchange symbol none h = tt
  listed exchange symbol (some t) h = let (os, e, all) = h.lists symbol in rw e all

  pub fetch_orders-IsListed :
      (m : TradeManager D)
      → HasTraders m
      → (exchange symbol : String) → All (IsListed exchange symbol) (fetch_orders m exchange symbol)
  unfolding fetch_orders
  fetch_orders-IsListed m has exchange symbol =
      rw
        (
          dispatch_lem m exchange (λ t. t.fetch_open_orders symbol) (some []),
          or_value-or_else (trader_of m exchange) (λ t. t.fetch_open_orders symbol) [],
        )
        (listed exchange symbol (trader_of m exchange) (trader_of-IsTrader m has exchange))

  -- What a call delivers, where it delivers with every trader that there is.
  delivered :
      {R : Type 0} (exchange : String) (o : Option (Trader D)) (call : Trader D → Option R) (r : R)
      → IsTraderOrNone exchange o
      → (P : R → Type 0) → P r
      → ((t : Trader D) → IsTrader exchange t → (x : R) × (call t ≡ some x) × P x)
      → (x : R) × (or_else o call (some r) ≡ some x) × P x
  unfolding or_else
  delivered exchange none call r h P p calls = (r, refl, p)
  delivered exchange (some t) call r h P p calls = calls t h

  pub submit-delivers :
      (m : TradeManager D)
      → HasTraders m
      → (exchange : String) (side : Side) (symbol : String) (price qty : D)
      → (r : OrderResult) × (submit m exchange side symbol price qty ≡ some r) × IsSafe r
  unfolding submit no_trader
  submit-delivers m has exchange side symbol price qty =
      rw
        (dispatch_lem m exchange (λ t. t.place_limit_order side symbol price qty)
          (some (no_trader exchange)))
        (delivered exchange (trader_of m exchange) _ (no_trader exchange)
          (trader_of-IsTrader m has exchange) IsSafe (inr refl)
          (λ t h. h.places side symbol price qty))

  pub cancel-delivers :
      (m : TradeManager D)
      → HasTraders m
      → (exchange symbol order_id : String)
      → (r : OrderResult) × (cancel m exchange symbol order_id ≡ some r)
  unfolding cancel
  cancel-delivers m has exchange symbol order_id =
      rw
        (dispatch_lem m exchange (λ t. t.cancel_limit_order symbol order_id)
          (some (no_trader exchange)))
        (let (r, e, _) =
            delivered exchange (trader_of m exchange) (λ t. t.cancel_limit_order symbol order_id)
              (no_trader exchange) (trader_of-IsTrader m has exchange) (λ _. Unit) tt
              (λ t h. let (r, e) = h.cancels symbol order_id in (r, e, tt)) in
          (r, e))

  where_set :
      (name : String) (b : Bool) (t : Trader D)
      → IsTrader name t
      → IsTraderOrNone name (if b then some t else none)
  where_set name true t h = h
  where_set name false t h = tt

  with_keys-IsTrader :
      (name : String) (getenv : String → Option String) (make : String → String → Trader D)
      (k s : String)
      → ((key secret : String) → IsTrader name (make key secret))
      → IsTraderOrNone name (with_keys getenv make k s)
  unfolding with_keys
  with_keys-IsTrader name getenv make k s h = where_set name _ _ (h _ _)

  -- The constructor's manager has such traders, if the constructors of the traders make such.
  pub init-HasTraders :
      (getenv : String → Option String) (mexc gate bingx lbank : String → String → Trader D)
      → ((key secret : String) → IsTrader "MEXC" (mexc key secret))
      → ((key secret : String) → IsTrader "Gate" (gate key secret))
      → ((key secret : String) → IsTrader "BingX" (bingx key secret))
      → ((key secret : String) → IsTrader "LBank" (lbank key secret))
      → HasTraders (init getenv mexc gate bingx lbank)
  unfolding init
  init-HasTraders getenv mexc gate bingx lbank m g b l = record {
    mexc = with_keys-IsTrader "MEXC" getenv mexc "MEXC_API_KEY" "MEXC_API_SECRET" m;
    gate = with_keys-IsTrader "Gate" getenv gate "GATE_API_KEY" "GATE_API_SECRET" g;
    bingx = with_keys-IsTrader "BingX" getenv bingx "BINGX_API_KEY" "BINGX_API_SECRET" b;
    lbank = with_keys-IsTrader "LBank" getenv lbank "LBANK_API_KEY" "LBANK_API_SECRET" l;
  }
