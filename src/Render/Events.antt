-- ===== src/Render/Events.antt =====
-- ui/render.cpp, `render_loop`: the order events of a frame, applied to the panels' lists.
pub mod OpenRows
pub mod Finish
use mathlib.Core.Option
use trade_station.Common.{
  ℕ, zero, suc, ◌+◌, ◌-◌, Bool, true, false, ◌&&◌, ◌||◌, not, Option, none, some, String, List, [],
  modify, ◌∷◌, ◌++◌, length, str_eq, ◌==◌, if◌then◌else◌,
}
use trade_station.Floats.{Floats, is_pos}
use trade_station.Orders.{
  Side, buy, sell, PlacedOrder, OrderEvent, blank_order, next_placed_order_seq,
}
use trade_station.Render.Lists.{cap_placed_orders, trim_history}
use trade_station.Text.{empty}

-- A panel's orders, and the counter of `next_placed_order_seq`.
abbrev pub Panel : Floats → Type 0
Panel F = List (PlacedOrder F.D) × ℕ

unfoldable pub side_of : ℕ → Side
side_of n = if n == 0 then Side.buy else Side.sell

unfoldable pub row_of : (F : Floats) → OrderEvent F.D → ℕ → PlacedOrder F.D
row_of F ev seq = record (blank_order F.nought) {
  exchange = ev.exchange;
  order_id = ev.order_id;
  symbol = ev.symbol;
  side = side_of ev.side;
  price = ev.price;
  qty = ev.qty;
  ui_seq = seq;
}

-- Whether a row, open or done, has the order id.
unfoldable pub has_id : {D : Type 0} → String → List (PlacedOrder D) → Bool
has_id id [] = false
has_id id (o ∷ os) = str_eq o.order_id id || has_id id os

-- `cap_placed_orders(orders, 50); orders.push_back(po)` with the next sequence number.
unfoldable pub append_row : (F : Floats) → OrderEvent F.D → Panel F → Panel F
append_row F ev (os, s) =
    let seq = next_placed_order_seq s in (cap_placed_orders os 50 ++ (row_of F ev seq ∷ []), seq)

unfoldable pub on_new : (F : Floats) → OrderEvent F.D → Panel F → Panel F
on_new F ev (os, s) =
    if not (has_id ev.order_id os) && (is_pos F ev.price && is_pos F ev.qty)
    then append_row F ev (os, s)
    else (os, s)

unfoldable pub is_for : {D : Type 0} → OrderEvent D → PlacedOrder D → Bool
is_for ev o =
    str_eq o.order_id ev.order_id || (not (empty ev.client_id) && str_eq o.order_id ev.client_id)

-- The index of the first open row for the event.
unfoldable pub find_open : {D : Type 0} → OrderEvent D → List (PlacedOrder D) → Option ℕ
find_open ev [] = none
find_open ev (o ∷ os) =
    let rest = Option.map suc (find_open ev os) in
    if o.cancelled then rest else (if is_for ev o then some 0 else rest)

unfoldable pub finish_msg : {D : Type 0} → OrderEvent D → String
finish_msg ev =
    if str_eq ev.exchange "MEXC"
    then (if ev.status == 2
        then "Filled"
        else (if ev.status == 5 then "Part.Cancel" else "Cancelled"))
    else (if str_eq ev.finish_as "filled"
        then "Filled"
        else (if not (empty ev.finish_as) then ev.finish_as else "Cancelled"))

unfoldable pub fill : (F : Floats) → OrderEvent F.D → PlacedOrder F.D → PlacedOrder F.D
fill F ev o = if is_pos F ev.cum_qty then record o { cum_qty = ev.cum_qty } else o

unfoldable pub finish : (F : Floats) → OrderEvent F.D → PlacedOrder F.D → PlacedOrder F.D
finish F ev o = record (fill F ev o) { cancelled = true; cancel_msg = finish_msg ev }

-- What an "update" or "finish" event does once the row at `i` is its row.
unfoldable pub on_row : (F : Floats) → OrderEvent F.D → ℕ → Panel F → Panel F
on_row F ev i (os, s) =
    if str_eq ev.event_type "update"
    then (modify i (fill F ev) os, s)
    else (if str_eq ev.event_type "finish"
        then (trim_history (modify i (finish F ev) os) 20, s)
        else (os, s))

-- The row of the event is sought, and inserted where there is none.
unfoldable pub on_existing : (F : Floats) → OrderEvent F.D → Panel F → Panel F
on_existing F ev (os, s) = elim (find_open ev os) [
  | some i ↦ on_row F ev i (os, s)
  | none ↦
      if not (empty ev.order_id)
      then on_row F ev (length (cap_placed_orders os 50)) (append_row F ev (os, s))
      else (os, s)
]

unfoldable pub on_event : (F : Floats) → OrderEvent F.D → Panel F → Panel F
on_event F ev p = if str_eq ev.event_type "new" then on_new F ev p else on_existing F ev p

-- The panels `i < count`, given by the names of their books and their lists.
unfoldable pub to_panels :
    (F : Floats)
    → OrderEvent F.D
    → List String
    → List (List (PlacedOrder F.D)) × ℕ
    → List (List (PlacedOrder F.D)) × ℕ
to_panels F ev [] (forms, s) = (forms, s)
to_panels F ev (name ∷ names) ([], s) = ([], s)
to_panels F ev (name ∷ names) (os ∷ forms, s) =
    let here = if str_eq name ev.exchange then on_event F ev (os, s) else (os, s) in
    let rest = to_panels F ev names (forms, here.1) in (here.0 ∷ rest.0, rest.1)

unfoldable pub on_events :
    (F : Floats)
    → List (OrderEvent F.D)
    → List String
    → List (List (PlacedOrder F.D)) × ℕ
    → List (List (PlacedOrder F.D)) × ℕ
on_events F [] names st = st
on_events F (ev ∷ evs) names st = on_events F evs names (to_panels F ev names st)
