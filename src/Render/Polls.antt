-- ===== src/Render/Polls.antt =====
-- ui/render.cpp: the polls of a panel's futures, in `draw_order_form` and `draw_open_orders`. A
-- future that is polled before it is ready changes nothing. The poll of the cancellations of single
-- orders is in Render/Cancels.
pub mod Merge
use trade_station.Common.{
  ℕ, ◌+◌, ◌==◌, Bool, true, false, ◌&&◌, not, Option, none, some, String, List, [], ◌∷◌, ◌++◌, map,
  if◌then◌else◌,
}
use trade_station.Floats.{Floats}
use trade_station.Orders.{
  Future, invalid, running, ready, OrderStatus, OrderResult, PlacedOrder, OrderFormState,
  blank_order, next_placed_order_seq,
}
use trade_station.Render.Lists.{trim_history, cap_placed_orders}
use trade_station.Render.Events.{side_of, has_id}
use trade_station.Text.{◌<>◌, empty}

module _ (F : Floats) where
  -- A number of the form, 0 where std::stod throws.
  unfoldable pub form_number : String → F.D
  form_number s = elim (F.stod s) [ none ↦ F.nought | some x ↦ x ]

  -- The row of an order that the form has placed, for the exchange and the symbol of the book.
  unfoldable pub placed_row : OrderFormState F.D → String → String → String → ℕ → PlacedOrder F.D
  placed_row f id exchange symbol seq = record (blank_order F.nought) {
    order_id = id;
    exchange = exchange;
    symbol = symbol;
    side = side_of f.side;
    price = form_number f.price_buf;
    qty = form_number f.qty_buf;
    ui_seq = seq;
  }

  -- The answer to an order, with the counter of sequence numbers.
  unfoldable pub on_placed :
      OrderFormState F.D → String → String → OrderResult → ℕ → OrderFormState F.D × ℕ
  on_placed f exchange symbol r s =
      let seq = next_placed_order_seq s in
      let f' = record f {
        pending_fut = Future.invalid;
        status = if r.success then OrderStatus.ok else OrderStatus.error;
        status_msg = if r.success then "ID: " <> r.order_id else r.message;
      } in
      if r.success && not (empty r.order_id)
      then (
        record f' {
          orders =
              cap_placed_orders f.orders 10 ++ (placed_row f r.order_id exchange symbol seq ∷ []);
        },
        seq,
      )
      else (f', s)

  unfoldable pub poll_pending : OrderFormState F.D → String → String → ℕ → OrderFormState F.D × ℕ
  poll_pending f exchange symbol s = elim f.pending_fut [
    | invalid ↦ (f, s)
    | running ↦ (f, s)
    | ready r ↦ on_placed f exchange symbol r s
  ]

-- The loop over fetched orders: one that the list has already is dropped, another gets a sequence
-- number, if it has none, and goes to the end.
unfoldable pub merge_fetched :
    {D : Type 0} → List (PlacedOrder D) → List (PlacedOrder D) × ℕ → List (PlacedOrder D) × ℕ
merge_fetched [] (os, s) = (os, s)
merge_fetched (o ∷ fetched) (os, s) =
    let seq = next_placed_order_seq s in
    let skipped = merge_fetched fetched (os, s) in
    let numbered = merge_fetched fetched (os ++ (record o { ui_seq = seq } ∷ []), seq) in
    let kept = merge_fetched fetched (os ++ (o ∷ []), s) in
    if has_id o.order_id os then skipped else (if o.ui_seq == 0 then numbered else kept)

module _ {D : Type 0} where
  unfoldable pub poll_fetch : OrderFormState D → ℕ → OrderFormState D × ℕ
  poll_fetch f s = elim f.fetch_fut [
    | invalid ↦ (f, s)
    | running ↦ (f, s)
    | ready fetched ↦
        let (os, s') = merge_fetched fetched (f.orders, s) in
        (record f { fetch_fut = Future.invalid; fetching = false; orders = os }, s')
  ]

  unfoldable pub mark_cancelled : PlacedOrder D → PlacedOrder D
  mark_cancelled o =
      if o.cancelled then o else record o { cancelled = true; cancel_msg = "Cancelled" }

  unfoldable pub on_cancelled_all : OrderFormState D → OrderResult → OrderFormState D
  on_cancelled_all f r =
      let f' = record f { cancel_all_fut = Future.invalid; cancelling_all = false } in
      if r.success then record f' { orders = trim_history (map mark_cancelled f.orders) 20 } else f'

  unfoldable pub poll_cancel_all : OrderFormState D → OrderFormState D
  poll_cancel_all f = elim f.cancel_all_fut [
    | invalid ↦ f
    | running ↦ f
    | ready r ↦ on_cancelled_all f r
  ]
