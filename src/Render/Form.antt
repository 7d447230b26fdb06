-- ===== src/Render/Form.antt =====
-- ui/render.cpp, `draw_order_form`: the guards of the button that places an order, and the rows that are
-- marked in the book because an order of ours rests there.
pub mod Guards
mod Examples
use trade_station.Common.{
  ℕ, ◌==◌, Bool, true, false, ◌&&◌, ◌||◌, not, String, List, [], ◌∷◌, ltb, str_eq, if◌then◌else◌,
  Option, none, some,
}
use trade_station.Floats.{Floats, le, is_pos}
use trade_station.Orders.{
  Side, buy, sell, Future, running, OrderStatus, OrderResult, PlacedOrder, OrderFormState,
}
use trade_station.Book.{OrderBookUpdate}
use trade_station.Text.{empty}
use trade_station.Render.Events.{side_of}
use trade_station.Render.Polls.{form_number}

-- The arguments of `trader.submit`.
pub record Request (D : Type 0) : Type 0 where
  pub exchange : String
  pub side : Side
  pub symbol : String
  pub price : D
  pub qty : D

module _ (F : Floats) where
  -- `max(a, b)`
  unfoldable max : F.D → F.D → F.D
  max a b = if F.lt a b then b else a

  unfoldable prices_near : F.D → F.D → Bool
  prices_near a b =
      let d = F.abs (F.minus a b) in
      let s = max (F.abs a) (F.abs b) in
      if le F d (F.lit 1 12)
      then true
      else (if le F s F.nought then le F d (F.lit 1 12) else le F (F.over d s) (F.lit 1 7))

  unfoldable symbol_matches_book : PlacedOrder F.D → OrderBookUpdate F.D → Bool
  symbol_matches_book o ex =
      if empty o.symbol || empty ex.symbol then true else str_eq o.symbol ex.symbol

  unfoldable resting_order_at_level : PlacedOrder F.D → F.D → Bool → OrderBookUpdate F.D → Bool
  resting_order_at_level o level_px level_is_asks ex =
      let near = prices_near o.price level_px in
      if o.cancelled
      then false
      else (if not (symbol_matches_book o ex) then false else elim o.side [
        | sell ↦ if level_is_asks then near else false
        | buy ↦ if level_is_asks then false else near
      ])

  unfoldable any_my_order_at_level :
      List (PlacedOrder F.D) → F.D → Bool → OrderBookUpdate F.D → Bool
  any_my_order_at_level [] level_px level_is_asks ex = false
  any_my_order_at_level (o ∷ os) level_px level_is_asks ex =
      let rest = any_my_order_at_level os level_px level_is_asks ex in
      if resting_order_at_level o level_px level_is_asks ex then true else rest

  unfoldable pub have_mid : OrderBookUpdate F.D → Bool
  have_mid ex = ltb 0 ex.bid_count && ltb 0 ex.ask_count

  unfoldable pub mid_of : OrderBookUpdate F.D → F.D
  mid_of ex =
      if have_mid ex
      then F.times (F.lit 5 1) (F.plus (ex.bids 0).price (ex.asks 0).price)
      else F.nought

  -- `mid * (1.0 - k_fatfinger_frac)` and `mid * (1.0 + k_fatfinger_frac)`
  unfoldable pub lowest : F.D → F.D
  lowest mid = F.times mid (F.minus (F.lit 1 0) (F.lit 5 2))

  unfoldable pub highest : F.D → F.D
  highest mid = F.times mid (F.plus (F.lit 1 0) (F.lit 5 2))

  unfoldable pub fatfinger_ok : Bool → OrderBookUpdate F.D → F.D → Bool
  fatfinger_ok protect ex p =
      let mid = mid_of ex in
      if protect
      then (if not (have_mid ex) || le F mid F.nought
          then false
          else le F (lowest mid) p && le F p (highest mid))
      else true

  -- `f.pending.valid() && f.pending.wait_for(0s) != ready`
  unfoldable pub is_pending : OrderFormState F.D → Bool
  is_pending f = elim f.pending_fut [
    | Future.invalid ↦ false
    | Future.running ↦ true
    | Future.ready r ↦ false
  ]

  unfoldable pub can_place : Bool → Bool → OrderBookUpdate F.D → OrderFormState F.D → Bool
  can_place has_keys protect ex f =
      let p = form_number F f.price_buf in
      let q = form_number F f.qty_buf in
      has_keys && (not (is_pending f) && (is_pos F p && (is_pos F q && fatfinger_ok protect ex p)))

  -- The press of the button: the form, and the order that is submitted.
  unfoldable pub press_place :
      Bool
      → Bool
      → OrderBookUpdate F.D
      → OrderFormState F.D
      → OrderFormState F.D × Option (Request F.D)
  press_place has_keys protect ex f =
      if can_place has_keys protect ex f
      then (
        record f {
          status = OrderStatus.pending;
          status_msg = "Sending...";
          pending_fut = Future.running;
        },
        some (record {
          exchange = ex.exchange;
          side = side_of f.side;
          symbol = ex.symbol;
          price = form_number F f.price_buf;
          qty = form_number F f.qty_buf;
        }),
      )
      else (f, none)
