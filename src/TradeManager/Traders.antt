-- ===== src/TradeManager/Traders.antt =====
-- trading/trade_manager.h: the manager with the program's four traders. The clocks and the state of Gate's
-- socket are those of the call.
use trade_station.Common.{
  ℕ, ◌≡◌, refl, true, false, Bool, inl, inr, Option, some, String, List, All, if◌then◌else◌,
}
use trade_station.Floats.{Floats}
use trade_station.Orders.{Side, OrderResult}
use trade_station.Rest.Answers.{Client, accepted, refused}
use trade_station.Rest.{Result, ok, failed}
use trade_station.Rest.Listing.{IsListed}
use trade_station.TradeManager.{Trader, TradeManager, init, submit, cancel, fetch_orders}
use trade_station.TradeManager.Interface.{
  HasTraders, init-HasTraders, fetch_orders-IsListed, submit-delivers, cancel-delivers,
}
use trade_station.Gate.Socket.{Socket, ws_write}
use trade_station.Mexc.Trader as MexcTrader
use trade_station.Mexc.Trader.Answers as MexcAnswers
use trade_station.Bingx.Trader as BingxTrader
use trade_station.Bingx.Trader.Answers as BingxAnswers
use trade_station.Lbank.Trader as LbankTrader
use trade_station.Lbank.Trader.Answers as LbankAnswers
use trade_station.Gate.Trader as GateTrader
use trade_station.Gate.Trader.{place_limit_order, fetch_open_orders}
use trade_station.Gate.Rest.Answers.{gate_place_rest-accepted, fetch_rest-IsListed}
use trade_station.Gate.Rest.{gate_place_rest}
use trade_station.Gate.Socket.Requests.{place_order_ws, send_request}
use trade_station.Rest.Outcomes.{IsSafe}

module _ (F : Floats) (c : Client F.D) (accepts : List String → String → Bool) (now : ℕ) where
  unfoldable pub mexc_trader : String → String → Trader F.D
  mexc_trader key secret = record {
    place_limit_order = λ side symbol price qty.
        some (MexcTrader.place_limit_order F c key secret now side symbol price qty);
    fetch_open_orders = λ symbol. some (MexcTrader.fetch_open_orders F c key secret now symbol);
    cancel_all_orders = λ symbol. some (MexcTrader.cancel_all_orders F c key secret now symbol);
    cancel_limit_order =
        λ symbol order_id. some (MexcTrader.cancel_limit_order F c key secret now symbol order_id);
  }

  unfoldable pub bingx_trader : String → String → Trader F.D
  bingx_trader key secret = record {
    place_limit_order = λ side symbol price qty.
        some (BingxTrader.place_limit_order F c key secret now side symbol price qty);
    fetch_open_orders = λ symbol. some (BingxTrader.fetch_open_orders F c key secret now symbol);
    cancel_all_orders = λ symbol. some (BingxTrader.cancel_all_orders F c key secret now symbol);
    cancel_limit_order =
        λ symbol order_id. some (BingxTrader.cancel_limit_order F c key secret now symbol order_id);
  }

  unfoldable pub lbank_trader : String → String → Trader F.D
  lbank_trader key secret = record {
    place_limit_order = λ side symbol price qty.
        some (LbankTrader.place_limit_order F c key secret now side symbol price qty);
    fetch_open_orders = λ symbol. some (LbankTrader.fetch_open_orders F c key secret now symbol);
    cancel_all_orders = λ symbol. some (LbankTrader.cancel_all_orders F c key secret now symbol);
    cancel_limit_order =
        λ symbol order_id. some (LbankTrader.cancel_limit_order F c key secret now symbol order_id);
  }

  module _ (s : Socket F.D) (ts ms : ℕ) where
    unfoldable pub gate_trader : String → String → Trader F.D
    gate_trader key secret = record {
      place_limit_order = λ side symbol price qty.
          some
            ((GateTrader.place_limit_order F c accepts key secret s ts ms side symbol price qty).0);
      fetch_open_orders =
          λ symbol. some ((GateTrader.fetch_open_orders F c accepts key secret s ts symbol).0);
      cancel_all_orders =
          λ symbol. some ((GateTrader.cancel_all_orders F c accepts key secret s ts ms symbol).0);
      cancel_limit_order = λ symbol order_id.
          some ((GateTrader.cancel_limit_order F c accepts key secret s ts ms symbol order_id).0);
    }

    -- The manager as the program constructs it.
    unfoldable pub trade_manager : (String → Option String) → TradeManager F.D
    trade_manager getenv = init getenv mexc_trader gate_trader bingx_trader lbank_trader

    request-IsSafe :
        (key secret id message : String) (t : Socket F.D) (m : Result String)
        → IsSafe
            (elim m as (λ _. OrderResult × Socket F.D) [
              | failed what ↦ (refused what, t)
              | ok text ↦ (accepted id message, ws_write F c accepts key secret t text)
            ]).0
    unfolding refused accepted
    request-IsSafe key secret id message t (failed what) = inr refl
    request-IsSafe key secret id message t (ok text) = inl refl

    gate-IsSafe :
        (key secret : String) (side : Side) (symbol : String) (price qty : F.D)
        → IsSafe
            (GateTrader.place_limit_order F c accepts key secret s ts ms side symbol price qty).0
    unfolding place_limit_order place_order_ws send_request
    gate-IsSafe key secret side symbol price qty =
        elim s.authenticated
          as (λ b.
            IsSafe
              (if b
                then place_order_ws F c accepts key secret s ts ms side symbol price qty
                else (gate_place_rest F c key secret ts side symbol price qty, s)).0) [
                  | true ↦ request-IsSafe key secret _ _ _ _
                  | false ↦ (gate_place_rest-accepted F c key secret ts side symbol price qty "").1
                ]

    trade_manager-HasTraders : (getenv : String → Option String) → HasTraders (trade_manager getenv)
    unfolding trade_manager mexc_trader gate_trader bingx_trader lbank_trader fetch_open_orders
    trade_manager-HasTraders getenv =
        init-HasTraders getenv mexc_trader gate_trader bingx_trader lbank_trader
          (λ key secret. record {
            places = λ side symbol price qty. (
              _,
              refl,
              (MexcAnswers.place_limit_order-accepted F c key secret now side symbol price qty
                  "").1,
            );
            cancels = λ _ _. (_, refl);
            lists = λ symbol.
                (_, refl, MexcAnswers.fetch_open_orders-IsListed F c key secret now symbol);
          })
          (λ key secret. record {
            places =
                λ side symbol price qty. (_, refl, gate-IsSafe key secret side symbol price qty);
            cancels = λ _ _. (_, refl);
            lists = λ symbol. (_, refl, fetch_rest-IsListed F c key secret ts symbol);
          })
          (λ key secret. record {
            places = λ side symbol price qty. (
              _,
              refl,
              (BingxAnswers.place_limit_order-accepted F c key secret now side symbol price qty
                  "").1,
            );
            cancels = λ _ _. (_, refl);
            lists = λ symbol.
                (_, refl, BingxAnswers.fetch_open_orders-IsListed F c key secret now symbol);
          })
          (λ key secret. record {
            places = λ side symbol price qty. (
              _,
              refl,
              (LbankAnswers.place_limit_order-accepted F c key secret now side symbol price qty
                  "").1,
            );
            cancels = λ _ _. (_, refl);
            lists = λ symbol.
                (_, refl, LbankAnswers.fetch_open_orders-IsListed F c key secret now symbol);
          })

    -- Whatever the environment, the exchange that is asked, the answers and the exceptions of
    -- libraries: a call to place or to cancel an order delivers a result and never an exception, and
    -- an order that was not placed has no id.
    pub futures-delivered :
        (getenv : String → Option String) (exchange : String) (side : Side)
        (symbol order_id : String) (price qty : F.D)
        → ((r : OrderResult) × (submit (trade_manager getenv) exchange side symbol price qty
              ≡ some r)
            × IsSafe r)
          × ((r : OrderResult) × (cancel (trade_manager getenv) exchange symbol order_id ≡ some r))
    futures-delivered getenv exchange side symbol order_id price qty = (
      submit-delivers (trade_manager getenv) (trade_manager-HasTraders getenv) exchange side symbol
          price qty,
      cancel-delivers (trade_manager getenv) (trade_manager-HasTraders getenv) exchange symbol
          order_id,
    )

    -- What the manager lists as open orders are orders of the exchange and of the symbol that were
    -- asked, each with an id, whatever the exchanges answer.
    pub manager_orders-IsListed :
        (getenv : String → Option String) (exchange symbol : String)
        → All (IsListed exchange symbol) (fetch_orders (trade_manager getenv) exchange symbol)
    manager_orders-IsListed getenv exchange symbol =
        fetch_orders-IsListed (trade_manager getenv) (trade_manager-HasTraders getenv) exchange
          symbol
