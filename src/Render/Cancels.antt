-- ===== src/Render/Cancels.antt =====
-- ui/render.cpp, `draw_open_orders`: the buttons that cancel orders and clear the history, and the poll of
-- the cancellations of single orders. In that poll `trim_history` may erase from the vector that the loop
-- runs over; an erasure ends the validity of the loop's iterators, which is `none` here.
pub mod Poll
mod Examples
use trade_station.Common.{
  ℕ, ◌+◌, Bool, true, false, ◌&&◌, not, String, List, [], ◌∷◌, ◌++◌, ltb, if◌then◌else◌, Option,
  none, some,
}
use trade_station.Orders.{Future, invalid, running, ready, OrderResult, PlacedOrder, OrderFormState}
use trade_station.Book.{OrderBookUpdate}
use trade_station.Render.Lists.{count_done}
use trade_station.Render.Symbols.{exchange_symbol}

-- Whether the answer makes the turn call `trim_history`.
unfoldable pub is_success : Option OrderResult → Bool
is_success none = false
is_success (some r) = r.success

module _ {D : Type 0} where
  unfoldable pub on_cancelled : PlacedOrder D → OrderResult → PlacedOrder D
  on_cancelled o r =
      let o' = record o { cancelling = false; cancel_fut = Future.invalid } in
      if r.success
      then record o' { cancelled = true; cancel_msg = "Cancelled" }
      else record o' { cancel_error = true; cancel_msg = r.message }

  -- The answer that the row's turn in the loop takes.
  unfoldable pub answer : PlacedOrder D → Option OrderResult
  answer o = elim o.cancel_fut [
    | invalid ↦ none
    | running ↦ none
    | ready r ↦ if o.cancelling then some r else none
  ]

  unfoldable pub turn : PlacedOrder D → Option OrderResult → PlacedOrder D
  turn o none = o
  turn o (some r) = on_cancelled o r

  unfoldable pub poll_row : PlacedOrder D → PlacedOrder D
  poll_row o = turn o (answer o)

  -- The loop, behind the rows that have had their turn. `trim_history` erases something when there are
  -- more than 20 done rows, and changes nothing otherwise.
  unfoldable pub poll_from :
      List (PlacedOrder D) → List (PlacedOrder D) → Option (List (PlacedOrder D))
  poll_from before [] = some before
  poll_from before (o ∷ os) =
      let next = poll_from (before ++ (poll_row o ∷ [])) os in
      if is_success (answer o) && ltb 20 (count_done (before ++ (poll_row o ∷ os)))
      then none
      else next

  unfoldable pub poll_cancels : List (PlacedOrder D) → Option (List (PlacedOrder D))
  poll_cancels os = poll_from [] os

  unfoldable count_open : List (PlacedOrder D) → ℕ
  count_open [] = 0
  count_open (o ∷ os) = (if o.cancelled then 0 else 1) + count_open os

  unfoldable can_cancel : Bool → OrderFormState D → Bool
  can_cancel has_k f = has_k && (not f.cancelling_all && ltb 0 (count_open f.orders))

  -- The press of "Cancel All": the form, and the exchange and the symbol that are sent.
  unfoldable press_cancel_all :
      Bool
      → String
      → String
      → OrderBookUpdate D
      → OrderFormState D
      → OrderFormState D × Option (String × String)
  press_cancel_all has_k base quote ex f =
      if can_cancel has_k f
      then (
        record f { cancelling_all = true; cancel_all_fut = Future.running },
        some (ex.exchange, exchange_symbol base quote ex.exchange),
      )
      else (f, none)

  -- The press of a row's button, which stands there unless the row has an error or is being cancelled:
  -- the row, and the exchange, the symbol and the id that are sent.
  unfoldable press_cancel :
      (String → Bool) → PlacedOrder D → PlacedOrder D × Option (String × (String × String))
  press_cancel has_keys o =
      if not o.cancel_error && (not o.cancelling && has_keys o.exchange)
      then (
        record o { cancelling = true; cancel_fut = Future.running },
        some (o.exchange, (o.symbol, o.order_id)),
      )
      else (o, none)

  -- The press of "Clear History".
  unfoldable clear_history : List (PlacedOrder D) → List (PlacedOrder D)
  clear_history [] = []
  clear_history (o ∷ os) = let rest = clear_history os in if o.cancelled then rest else o ∷ rest
