-- ===== src/Bingx/Trader.antt =====
-- bingx/bingx_trader.cpp: the requests of the trader of BingX and the reading of their answers. `now`
-- is the clock in milliseconds.
pub mod Answers
use trade_station.Common.{
  ℕ, Bool, true, false, ◌&&◌, not, String, List, [], ◌∷◌, str_eq, if◌then◌else◌, none, some,
}
use trade_station.Common.Int.{pos, eqb_ℤ}
use trade_station.Floats.{Floats, le}
use trade_station.Orders.{Side, buy, sell, OrderResult, PlacedOrder}
use trade_station.Text.{◌<>◌, empty}
use trade_station.Rest.{
  Result, ok, failed, ◌>>=◌, Headers, https_get, https_post, https_delete, hmac_sha256_hex,
}
use trade_station.Rest.Answers.{
  Client, caught, accepted, refused, quiet, parsed, value, get_long, get_int, refusal, stod_or,
  open_orders, open_order,
}

unfoldable pub side_text : Side → String
side_text buy = "BUY"
side_text sell = "SELL"

unfoldable pub side_of_text : String → Side
side_of_text s = if str_eq s "BUY" then buy else sell

module _ (F : Floats) (c : Client F.D) (key secret : String) (now : ℕ) where
  unfoldable pub signed : String → String
  signed query = query <> "&signature=" <> hmac_sha256_hex c.digests secret query

  abbrev pub timestamp : String
  timestamp = "&timestamp=" <> c.print_long (pos now)

  unfoldable pub place_query : Side → String → F.D → F.D → String
  place_query side symbol price qty =
      "symbol="
      <> symbol
      <> "&side="
      <> side_text side
      <> "&type=LIMIT"
      <> "&quantity="
      <> c.print_fixed qty
      <> "&price="
      <> c.print_fixed price
      <> "&timeInForce=GTC"
      <> timestamp

  -- `j.contains("data") && j["data"].contains(name)`
  unfoldable pub has_data : c.json.J → String → Bool
  has_data j name = c.json.contains j "data" && c.json.contains (c.json.field j "data") name

  abbrev pub data_of : c.json.J → String → c.json.J
  data_of j name = c.json.field (c.json.field j "data") name

  -- `std::to_string(v.get<long long>())`
  unfoldable pub long_text : c.json.J → Result String
  long_text v = get_long c v >>= (λ n. ok (c.print_long n))

  unfoldable pub send_place : Side → String → F.D → F.D → Result String
  send_place side symbol price qty =
      https_post c.net "open-api.bingx.com" "/openApi/spot/v1/trade/order"
        (signed (place_query side symbol price qty))
        (("X-BX-APIKEY", key) ∷ ("Content-Type", "application/x-www-form-urlencoded") ∷ [])

  unfoldable pub place_limit_order : Side → String → F.D → F.D → OrderResult
  place_limit_order side symbol price qty = caught (
      send_place side symbol price qty >>= (λ resp. parsed c resp >>= (λ j.
        if has_data j "orderId"
        then long_text (data_of j "orderId") >>= (λ id. ok (accepted id "OK"))
        else refusal c j "msg" resp)))

  unfoldable pub cancel_limit_order : String → String → OrderResult
  cancel_limit_order symbol order_id = caught (
      https_get c.net "open-api.bingx.com"
        ("/openApi/spot/v1/trade/cancel?"
          <> signed ("symbol=" <> symbol <> "&orderId=" <> order_id <> timestamp))
        (("X-BX-APIKEY", key) ∷ [])
      >>= (λ resp. parsed c resp >>= (λ j.
          if has_data j "orderId"
          then ok (accepted order_id "Cancelled")
          else refusal c j "msg" resp)))

  -- `j.contains("code") && j["code"].get<int>() == 0`
  unfoldable pub has_code_zero : c.json.J → Result Bool
  has_code_zero j =
      if c.json.contains j "code"
      then get_int c (c.json.field j "code") >>= (λ code. ok (eqb_ℤ code (pos 0)))
      else ok false

  unfoldable pub cancel_all_orders : String → OrderResult
  cancel_all_orders symbol = caught (
      https_delete c.net "open-api.bingx.com"
        ("/openApi/spot/v1/trade/allOpenOrders?" <> signed ("symbol=" <> symbol <> timestamp))
        (("X-BX-APIKEY", key) ∷ ("Content-Type", "application/json") ∷ []) ""
      >>= (λ resp.
          if empty resp
          then ok (accepted "" "All cancelled")
          else parsed c resp >>= (λ j. has_code_zero j >>= (λ done.
            if done then ok (accepted "" "All cancelled") else refusal c j "msg" resp))))

  -- The text that the quantity is read from first.
  unfoldable pub qty_text : c.json.J → Result String
  qty_text item =
      if c.json.contains item "origQty" && not (c.is_null (c.json.field item "origQty"))
      then value c item "origQty" "0"
      else value c item "quantity" "0"

  -- The quantity of an order, which is that in quote currency where the first is not positive. An
  -- exception leaves what has been assigned.
  unfoldable pub qty_of : c.json.J → F.D
  qty_of item =
      let quote = value c item "origQuoteOrderQty" "0" >>= (λ s. ok (if empty s then "0" else s)) in
      elim (qty_text item) [
        | failed what ↦ F.nought
        | ok s ↦ elim (F.stod s) [
          | none ↦ F.nought
          | some x ↦ if le F x F.nought then stod_or F x quote else x
        ]
      ]

  unfoldable pub id_of : c.json.J → Result String
  id_of item =
      if c.json.contains item "orderId" then long_text (c.json.field item "orderId") else ok ""

  unfoldable pub read_order : String → c.json.J → Result (PlacedOrder F.D)
  read_order symbol item = id_of item >>= (λ id. value c item "side" "BUY" >>= (λ side. ok (
      open_order F "BingX" symbol id (side_of_text side)
        (stod_or F F.nought (value c item "price" "0")) (qty_of item))))

  unfoldable pub send_fetch : String → Result String
  send_fetch symbol =
      https_get c.net "open-api.bingx.com"
        ("/openApi/spot/v1/trade/openOrders?" <> signed ("symbol=" <> symbol <> timestamp))
        (("X-BX-APIKEY", key) ∷ [])

  unfoldable pub fetch_open_orders : String → List (PlacedOrder F.D)
  fetch_open_orders symbol = quiet [] (
      send_fetch symbol >>= (λ resp. parsed c resp >>= (λ j.
        if has_data j "orders"
        then open_orders (read_order symbol) (c.json.elements (data_of j "orders"))
        else ok [])))
