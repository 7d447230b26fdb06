-- ===== src/Render/Form/Guards.antt =====
-- What an order that the form submits has passed, and what becomes of it when its answer comes.
use trade_station.Common.{
  ◌≡◌, refl, subst, Bool, true, false, ◌&&◌, ◌||◌, not, Option, none, some, Bool-cases, inl, inr,
  arith, if◌then◌else◌,
}
use trade_station.Floats.{Floats, le, is_pos}
use trade_station.Orders.{Future, OrderStatus, OrderFormState}
use trade_station.Book.{OrderBookUpdate}
use mathlib.Core.Option.{some-injective}
use trade_station.Render.Events.{side_of}
use trade_station.Render.Polls.{form_number}
use trade_station.Render.Form.{
  Request, have_mid, mid_of, lowest, highest, fatfinger_ok, is_pending, can_place, press_place,
}

module _ (F : Floats) (ex : OrderBookUpdate F.D) where
  -- An order that may be submitted: there are keys, no other is on its way, it is of a positive price
  -- and quantity, and it is of the book's exchange and symbol.
  pub record IsAllowed (has_keys : Bool) (f : OrderFormState F.D) (r : Request F.D) : Type 0 where
    pub keys : has_keys ≡ true
    pub alone : is_pending F f ≡ false
    pub price : is_pos F r.price ≡ true
    pub qty : is_pos F r.qty ≡ true
    pub of_exchange : r.exchange ≡ ex.exchange
    pub of_symbol : r.symbol ≡ ex.symbol

  -- With the protection on, the book has both sides, and the price is within five per cent of a
  -- positive middle.
  pub record IsProtected (r : Request F.D) : Type 0 where
    pub sides : have_mid F ex ≡ true
    pub positive : le F (mid_of F ex) F.nought ≡ false
    pub above : le F (lowest F (mid_of F ex)) r.price ≡ true
    pub below : le F r.price (highest F (mid_of F ex)) ≡ true

  is_false : (b : Bool) → not b ≡ true → b ≡ false
  is_false true h = cc
  is_false false h = refl

  and_left : (a b : Bool) → (a && b) ≡ true → a ≡ true
  and_left a b h = ground arith

  and_right : (a b : Bool) → (a && b) ≡ true → b ≡ true
  and_right a b h = ground arith

  fatfinger_ok-IsProtected :
      (r : Request F.D) → fatfinger_ok F true ex r.price ≡ true → IsProtected r
  unfolding fatfinger_ok
  fatfinger_ok-IsProtected r h =
      elim (Bool-cases (not (have_mid F ex) || le F (mid_of F ex) F.nought)) [
        | inl no_middle ↦ ground (arith, h, no_middle)
        | inr middle ↦ record {
          sides = ground (arith, middle);
          positive = ground (arith, middle);
          above = ground (arith, h, middle);
          below = ground (arith, h, middle);
        }
      ]

  submitted : OrderFormState F.D → Request F.D
  submitted f = record {
    exchange = ex.exchange;
    side = side_of f.side;
    symbol = ex.symbol;
    price = form_number F f.price_buf;
    qty = form_number F f.qty_buf;
  }

  waiting : OrderFormState F.D → OrderFormState F.D
  waiting f = record f {
    status = OrderStatus.pending;
    status_msg = "Sending...";
    pending_fut = Future.running;
  }

  can_place-IsAllowed :
      (has_keys : Bool) (f : OrderFormState F.D)
      → can_place F has_keys true ex f ≡ true
      → IsAllowed has_keys f (submitted f) × IsProtected (submitted f)
  unfolding can_place submitted
  can_place-IsAllowed has_keys f h =
      let rest = and_right has_keys _ h in
      let numbers = and_right (not (is_pending F f)) _ rest in
      let checked = and_right (is_pos F (form_number F f.price_buf)) _ numbers in
      (
        record {
          keys = and_left has_keys _ h;
          alone = is_false (is_pending F f) (and_left (not (is_pending F f)) _ rest);
          price = and_left (is_pos F (form_number F f.price_buf)) _ numbers;
          qty = and_left (is_pos F (form_number F f.qty_buf)) _ checked;
          of_exchange = refl;
          of_symbol = refl;
        },
        fatfinger_ok-IsProtected (submitted f)
            (and_right (is_pos F (form_number F f.qty_buf)) _ checked),
      )

  press_place-waiting :
      (has_keys : Bool) (f : OrderFormState F.D)
      → (press_place F has_keys true ex (waiting f)).1 ≡ none
  unfolding press_place can_place waiting is_pending
  press_place-waiting true f = refl
  press_place-waiting false f = refl

  -- An order leaves the form only as it may, and with the protection on only within its bounds; the
  -- form then waits, so that a second press submits nothing.
  pub press_place-IsAllowed :
      (has_keys : Bool) (f : OrderFormState F.D) (r : Request F.D)
      → (press_place F has_keys true ex f).1 ≡ some r
      → IsAllowed has_keys f r
        × IsProtected r
        × ((press_place F has_keys true ex (press_place F has_keys true ex f).0).1 ≡ none)
  unfolding press_place submitted waiting
  press_place-IsAllowed has_keys f r h =
      let pressed : Bool → OrderFormState F.D × Option (Request F.D) =
        λ b. if b then (waiting f, some (submitted f)) else (f, none) in
      elim (can_place F has_keys true ex f)
          as (λ b.
            can_place F has_keys true ex f ≡ b
            → (pressed b).1 ≡ some r
            → IsAllowed has_keys f r
              × IsProtected r
              × ((press_place F has_keys true ex (pressed b).0).1 ≡ none)) [
                | true ↦ λ c e.
                    let same = some-injective (submitted f) r e in
                    let (allowed, protected) = can_place-IsAllowed has_keys f c in
                    (
                      subst (IsAllowed has_keys f) same allowed,
                      subst IsProtected same protected,
                      press_place-waiting has_keys f,
                    )
                | false ↦ λ c e. cc
              ]
        refl h
