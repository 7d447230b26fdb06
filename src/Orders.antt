-- ===== src/Orders.antt =====
-- trading/order.h: order data, the queue of order events and the state of an order form.
pub mod Events
pub mod Typed
mod Examples
use trade_station.Common.{ℕ, ◌+◌, Bool, false, Option, none, String, List, [], ◌∷◌, ◌++◌}

pub data Side : Type 0 where
  buy sell : Side

pub data OrderStatus : Type 0 where
  idle pending ok error : OrderStatus

pub record OrderResult : Type 0 where
  pub success : Bool
  pub order_id : String
  pub message : String

-- A std::future as the UI polls it: not valid, valid and not ready, or ready.
pub data Future (A : Type 0) : Type 0 where
  invalid : Future A
  running : Future A
  ready : A → Future A

pub record PlacedOrder (D : Type 0) : Type 0 where
  pub order_id : String
  pub exchange : String
  pub symbol : String
  pub side : Side
  pub price : D
  pub qty : D
  pub cum_qty : D
  pub cancel_fut : Future OrderResult
  pub cancelling : Bool
  pub cancelled : Bool
  pub cancel_error : Bool
  pub cancel_msg : String
  pub ui_seq : ℕ

pub record OrderEvent (D : Type 0) : Type 0 where
  pub exchange : String
  pub order_id : String
  pub client_id : String
  pub finish_as : String
  pub event_type : String
  pub symbol : String
  pub status : ℕ
  pub cum_qty : D
  pub avg_price : D
  pub price : D
  pub qty : D
  pub side : ℕ

pub record OrderFormState (D : Type 0) : Type 0 where
  pub side : ℕ
  pub price_buf : String
  pub qty_buf : String
  pub pending_fut : Future OrderResult
  pub status : OrderStatus
  pub status_msg : String
  pub orders : List (PlacedOrder D)
  pub fetch_fut : Future (List (PlacedOrder D))
  pub fetching : Bool
  pub cancel_all_fut : Future OrderResult
  pub cancelling_all : Bool

-- `PlacedOrder po;`
unfoldable pub blank_order : {D : Type 0} → D → PlacedOrder D
blank_order nought = record {
  order_id = "";
  exchange = "";
  symbol = "";
  side = buy;
  price = nought;
  qty = nought;
  cum_qty = nought;
  cancel_fut = Future.invalid;
  cancelling = false;
  cancelled = false;
  cancel_error = false;
  cancel_msg = "";
  ui_seq = 0;
}

-- `OrderEvent ev;`
unfoldable pub blank_event : {D : Type 0} → D → OrderEvent D
blank_event nought = record {
  exchange = "";
  order_id = "";
  client_id = "";
  finish_as = "";
  event_type = "";
  symbol = "";
  status = 0;
  cum_qty = nought;
  avg_price = nought;
  price = nought;
  qty = nought;
  side = 0;
}

-- `next_placed_order_seq()`: the new value of the counter, which is also what is returned.
unfoldable pub next_placed_order_seq : ℕ → ℕ
next_placed_order_seq s = s + 1

-- The vector of SharedOrderEvents; both methods hold the lock throughout.
abbrev pub SharedOrderEvents : Type 0 → Type 0
SharedOrderEvents D = List (OrderEvent D)

module _ {D : Type 0} where
  unfoldable pub push : SharedOrderEvents D → OrderEvent D → SharedOrderEvents D
  push q e = q ++ (e ∷ [])

  -- What `drain` returns, and the queue that it leaves.
  unfoldable pub drain : SharedOrderEvents D → List (OrderEvent D) × SharedOrderEvents D
  drain q = (q, [])
