-- ===== src/Lbank/Trader/Answers.antt =====
-- What the trader of LBank makes of the answers.
use trade_station.Common.{◌≡◌, ◌↔◌, ◌&&◌, refl, ℕ, String, All}
use trade_station.Floats.{Floats}
use trade_station.Orders.{Side}
use trade_station.Rest.{ok}
use trade_station.Rest.Answers.{Client, accepted, value, open_order}
use trade_station.Rest.Outcomes.{
  IsNamed, IsSafe, IsRefusal, caught-answer, caught-answer-IsSafe, refused-IsRefusal,
}
use trade_station.Rest.Listing.{IsListed, chained-IsRead, fetched-IsListed}
use trade_station.Lbank.Trader.{
  send_place, has_result, id_of, error_code, place_limit_order, read_order, send_fetch,
  fetch_open_orders,
}

module _ (F : Floats) (c : Client F.D) (key secret : String) (now : ℕ) where
  error_code-IsRefusal :
      (j : c.json.J) (raw : String) → IsRefusal (error_code F c key secret now j raw)
  unfolding error_code
  error_code-IsRefusal j raw = refused-IsRefusal _

  -- An answer whose "result" is "true"; its id is empty where there is no "order_id".
  abbrev pub IsPlaced : String → String → Type 0
  IsPlaced =
      IsNamed c (λ j. has_result F c key secret now j) (λ j. id_of F c key secret now j)
        (λ raw j. ok (error_code F c key secret now j raw)) "OK"

  -- Placing an order succeeds with an id exactly when the request was answered by a document whose
  -- "result" is "true" and whose "order_id" is that id, the empty one where there is no "order_id";
  -- every other answer and every exception is a failure without an id.
  pub place_limit_order-accepted :
      (side : Side) (symbol : String) (price qty : F.D) (id : String)
      → ((place_limit_order F c key secret now side symbol price qty ≡ accepted id "OK") ↔ (
          (raw : String) × (send_place F c key secret now side symbol price qty ≡ ok raw)
          × IsPlaced raw id))
        × IsSafe (place_limit_order F c key secret now side symbol price qty)
  unfolding place_limit_order
  place_limit_order-accepted side symbol price qty id = (
    caught-answer c (has_result F c key secret now) (id_of F c key secret now)
        (λ raw j. ok (error_code F c key secret now j raw)) "OK"
        (λ raw j. error_code-IsRefusal j raw) (send_place F c key secret now side symbol price qty)
        id,
    caught-answer-IsSafe c (has_result F c key secret now) (id_of F c key secret now)
        (λ raw j. ok (error_code F c key secret now j raw)) "OK"
        (λ raw j. error_code-IsRefusal j raw) (send_place F c key secret now side symbol price qty),
  )

  -- Whatever is answered to a request for the open orders, what is listed are orders of LBank and of the
  -- symbol that was asked, each with an id.
  pub fetch_open_orders-IsListed :
      (symbol : String)
      → All (IsListed "LBank" symbol) (fetch_open_orders F c key secret now symbol)
  unfolding fetch_open_orders read_order open_order
  fetch_open_orders-IsListed symbol =
      fetched-IsListed c "LBank" symbol (read_order F c key secret now symbol)
        (λ j. c.json.contains j "orders" && c.json.is_array (c.json.field j "orders"))
        (λ j. c.json.elements (c.json.field j "orders"))
        (λ item.
          chained-IsRead "LBank" symbol (value c item "order_id" "")
            (value c item "type" "buy_limit") _ (λ i s. (refl, refl)))
        (send_fetch F c key secret now symbol)
