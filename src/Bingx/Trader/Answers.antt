-- ===== src/Bingx/Trader/Answers.antt =====
-- What the trader of BingX makes of the answers.
use trade_station.Common.{◌≡◌, ◌↔◌, refl, ℕ, String, All}
use trade_station.Floats.{Floats}
use trade_station.Orders.{Side}
use trade_station.Rest.{ok}
use trade_station.Rest.Answers.{Client, accepted, value, refusal, open_order}
use trade_station.Rest.Outcomes.{
  IsNamed, IsSafe, caught-answer, caught-answer-IsSafe, refusal-IsRefusal,
}
use trade_station.Rest.Listing.{IsListed, chained-IsRead, fetched-IsListed}
use trade_station.Bingx.Trader.{
  send_place, has_data, data_of, long_text, place_limit_order, id_of, read_order, send_fetch,
  fetch_open_orders,
}

module _ (F : Floats) (c : Client F.D) (key secret : String) (now : ℕ) where
  -- An answer in which the "orderId" of "data" names an order.
  abbrev pub IsPlaced : String → String → Type 0
  IsPlaced =
      IsNamed c (λ j. has_data F c key secret now j "orderId")
        (λ j. long_text F c key secret now (data_of F c key secret now j "orderId"))
        (λ raw j. refusal c j "msg" raw) "OK"

  -- Placing an order succeeds with an id exactly when the request was answered by a document whose
  -- "data" has that number as "orderId"; every other answer and every exception is a failure without
  -- an id.
  pub place_limit_order-accepted :
      (side : Side) (symbol : String) (price qty : F.D) (id : String)
      → ((place_limit_order F c key secret now side symbol price qty ≡ accepted id "OK") ↔ (
          (raw : String) × (send_place F c key secret now side symbol price qty ≡ ok raw)
          × IsPlaced raw id))
        × IsSafe (place_limit_order F c key secret now side symbol price qty)
  unfolding place_limit_order
  place_limit_order-accepted side symbol price qty id = (
    caught-answer c _ _ _ "OK" (λ raw j. refusal-IsRefusal c j "msg" raw)
        (send_place F c key secret now side symbol price qty) id,
    caught-answer-IsSafe c _ _ _ "OK" (λ raw j. refusal-IsRefusal c j "msg" raw)
        (send_place F c key secret now side symbol price qty),
  )

  -- Whatever is answered to a request for the open orders, what is listed are orders of BingX and of the
  -- symbol that was asked, each with an id.
  pub fetch_open_orders-IsListed :
      (symbol : String)
      → All (IsListed "BingX" symbol) (fetch_open_orders F c key secret now symbol)
  unfolding fetch_open_orders read_order open_order
  fetch_open_orders-IsListed symbol =
      fetched-IsListed c "BingX" symbol (read_order F c key secret now symbol)
        (λ j. has_data F c key secret now j "orders")
        (λ j. c.json.elements (data_of F c key secret now j "orders"))
        (λ item.
          chained-IsRead "BingX" symbol (id_of F c key secret now item) (value c item "side" "BUY")
            _ (λ i s. (refl, refl)))
        (send_fetch F c key secret now symbol)
