-- ===== src/Mexc/Trader.antt =====
-- mexc/mexc_trader.cpp: the requests of the trader of MEXC and the reading of their answers. `now` is
-- the clock in milliseconds; a double has been printed by the client's formats.
pub mod Answers
mod Examples
use trade_station.Common.{ℕ, Bool, true, false, String, List, [], ◌∷◌, str_eq, if◌then◌else◌}
use trade_station.Common.Int.{pos}
use trade_station.Floats.{Floats}
use trade_station.Orders.{Side, buy, sell, OrderResult, PlacedOrder}
use trade_station.Text.{◌<>◌, empty}
use trade_station.Rest.{
  Result, ok, failed, ◌>>=◌, Headers, https_get, https_post, https_delete, hmac_sha256_hex,
}
use trade_station.Rest.Answers.{
  Client, caught, accepted, refused, quiet, parsed, value, text_or_dump, refusal, stod_or,
  open_orders, open_order,
}

unfoldable pub side_text : Side → String
side_text buy = "BUY"
side_text sell = "SELL"

-- The side of an order in an answer.
unfoldable pub side_of_text : String → Side
side_of_text s = if str_eq s "BUY" then buy else sell

abbrev pub both_headers : String → Headers
both_headers key = ("X-MEXC-APIKEY", key) ∷ ("Content-Type", "application/json") ∷ []

module _ (F : Floats) (c : Client F.D) (key secret : String) (now : ℕ) where
  -- `query += "&signature=" + hmac_sha256_hex(api_secret_, query)`
  unfoldable pub signed : String → String
  signed query = query <> "&signature=" <> hmac_sha256_hex c.digests secret query

  abbrev pub timestamp : String
  timestamp = "&timestamp=" <> c.print_long (pos now)

  unfoldable pub place_query : Side → String → F.D → F.D → String
  place_query side symbol price qty =
      "symbol="
      <> symbol
      <> "&side="
      <> side_text side
      <> "&type=LIMIT"
      <> "&price="
      <> c.print_fixed price
      <> "&quantity="
      <> c.print_fixed qty
      <> timestamp

  -- The branches behind the parsing of an answer that names the order.
  unfoldable pub by_order_id : String → String → c.json.J → Result OrderResult
  by_order_id message body j =
      if c.json.contains j "orderId"
      then text_or_dump c (c.json.field j "orderId") >>= (λ id. ok (accepted id message))
      else refusal c j "msg" body

  unfoldable pub send_place : Side → String → F.D → F.D → Result String
  send_place side symbol price qty =
      https_post c.net "api.mexc.com"
        ("/api/v3/order?" <> signed (place_query side symbol price qty)) "" (both_headers key)

  unfoldable pub place_limit_order : Side → String → F.D → F.D → OrderResult
  place_limit_order side symbol price qty = caught (
      send_place side symbol price qty
      >>= (λ body. parsed c body >>= (λ j. by_order_id "OK" body j)))

  unfoldable pub cancel_limit_order : String → String → OrderResult
  cancel_limit_order symbol order_id = caught (
      https_delete c.net "api.mexc.com"
        ("/api/v3/order?" <> signed ("symbol=" <> symbol <> "&orderId=" <> order_id <> timestamp))
        (both_headers key) ""
      >>= (λ resp.
          if empty resp
          then ok (accepted order_id "Cancelled")
          else parsed c resp >>= (λ j. by_order_id "Cancelled" resp j)))

  unfoldable pub cancel_all_orders : String → OrderResult
  cancel_all_orders symbol = caught (
      https_delete c.net "api.mexc.com"
        ("/api/v3/openOrders?" <> signed ("symbol=" <> symbol <> timestamp)) (both_headers key) ""
      >>= (λ resp.
          if empty resp
          then ok (accepted "" "All cancelled")
          else parsed c resp >>= (λ j.
            if c.json.is_array j
            then ok (accepted "" "All cancelled")
            else refusal c j "msg" resp)))

  unfoldable pub id_of : c.json.J → Result String
  id_of item =
      if c.json.contains item "orderId" then text_or_dump c (c.json.field item "orderId") else ok ""

  -- One round of the loop over the orders.
  unfoldable pub read_order : String → c.json.J → Result (PlacedOrder F.D)
  read_order symbol item = id_of item >>= (λ id. value c item "side" "BUY" >>= (λ side. ok (
      open_order F "MEXC" symbol id (side_of_text side)
        (stod_or F F.nought (value c item "price" "0"))
        (stod_or F F.nought (value c item "origQty" "0")))))

  unfoldable pub send_fetch : String → Result String
  send_fetch symbol =
      https_get c.net "api.mexc.com"
        ("/api/v3/openOrders?" <> signed ("symbol=" <> symbol <> timestamp))
        (("X-MEXC-APIKEY", key) ∷ [])

  unfoldable pub fetch_open_orders : String → List (PlacedOrder F.D)
  fetch_open_orders symbol = quiet [] (
      send_fetch symbol >>= (λ resp. parsed c resp >>= (λ j.
        if c.json.is_array j then open_orders (read_order symbol) (c.json.elements j) else ok [])))
