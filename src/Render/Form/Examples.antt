-- ===== src/Render/Form/Examples.antt =====
-- A form that submits an order within the bounds.
use trade_station.Common.{ℕ, ◌≡◌, refl, true, none, some, [], ◌∷◌}
use trade_station.Orders.{Side}
use trade_station.Book.{OrderBookUpdate}
use trade_station.Feed.{update_of, array_of}
use trade_station.Feed.Sample.{naturals}
use trade_station.Render.Events.{side_of}
use trade_station.Text.{take_chars}
use trade_station.Render.Polls.{form_number}
use trade_station.Render.Symbols.{blank_form}
use trade_station.Render.Form.{
  Request, have_mid, mid_of, lowest, highest, fatfinger_ok, is_pending, can_place, press_place,
}
use trade_station.Render.Form.Guards.{IsAllowed, IsProtected, press_place-IsAllowed}

abbrev book : OrderBookUpdate ℕ
book =
    update_of 0 "Gate" "BTC_USDT" 1 (record { price = 3; quantity = 1 } ∷ [])
      (record { price = 4; quantity = 1 } ∷ [])

abbrev request : Request ℕ
request = record { exchange = "Gate"; side = Side.buy; symbol = "BTC_USDT"; price = 1; qty = 1 }

submits : (press_place naturals true true book blank_form).1 ≡ some request
unfolding press_place can_place is_pending blank_form fatfinger_ok mid_of have_mid lowest highest
    form_number side_of update_of array_of take_chars
submits = refl

press_place-IsAllowed_example :
    IsAllowed naturals book true blank_form request
    × IsProtected naturals book request
    × ((press_place naturals true true book (press_place naturals true true book blank_form).0).1
        ≡ none)
press_place-IsAllowed_example = press_place-IsAllowed naturals book true blank_form request submits
