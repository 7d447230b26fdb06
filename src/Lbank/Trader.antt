-- ===== src/Lbank/Trader.antt =====
-- lbank/lbank_trader.cpp: the signed form of a request, the requests of the trader of LBank and the
-- reading of their answers. `now` is the clock in milliseconds.
pub mod Form
pub mod Answers
mod Examples
use Prim.Native.String
use trade_station.Common.{
  ℕ, Bool, true, false, ◌&&◌, not, Option, none, some, String, List, [], ◌∷◌, if◌then◌else◌,
}
use trade_station.Common.Int.{pos}
use trade_station.Floats.{Floats}
use trade_station.Orders.{Side, buy, sell, OrderResult, PlacedOrder}
use trade_station.Text.{◌<>◌, empty, contains_text}
use trade_station.Text.Dictionary.{Dictionary, assign}
use trade_station.Rest.{
  Result, ok, failed, ◌>>=◌, Headers, https_post, hmac_sha256_hex, url_encode, Digests,
}
use trade_station.Rest.Answers.{
  Client, caught, accepted, refused, quiet, parsed, value, get_text, stod_or, open_orders,
  open_order,
}

-- `s.pop_back()`, on a text that is not empty.
unfoldable pub pop_back : String → String
pop_back String.[] = ""
pop_back (String.◌∷◌ c String.[]) = ""
pop_back (String.◌∷◌ c (String.◌∷◌ d s)) = String.◌∷◌ c (pop_back (String.◌∷◌ d s))

-- The text that is signed, before its last character goes.
unfoldable pub sign_fields : Dictionary → String
sign_fields [] = ""
sign_fields ((k, v) ∷ params) = k <> ("=" <> (url_encode v <> ("&" <> sign_fields params)))

-- The form, before its last character goes.
unfoldable pub form_fields : Dictionary → String
form_fields [] = ""
form_fields ((k, v) ∷ params) =
    url_encode k <> ("=" <> (url_encode v <> ("&" <> form_fields params)))

-- The parameters with the key and the method of the signature.
unfoldable pub with_key : String → Dictionary → Dictionary
with_key api_key params = assign "signature_method" "HmacSHA256" (assign "api_key" api_key params)

unfoldable pub with_sign : Digests → String → Dictionary → Dictionary
with_sign digests api_secret params =
    assign "sign" (hmac_sha256_hex digests api_secret (pop_back (sign_fields params))) params

-- Popping nothing from an empty text is what the test for one does.
unfoldable pub lbank_signed_body : Digests → String → String → Dictionary → String
lbank_signed_body digests api_key api_secret params =
    pop_back (form_fields (with_sign digests api_secret (with_key api_key params)))

unfoldable pub side_type : Side → String
side_type buy = "buy_limit"
side_type sell = "sell_limit"

module _ (F : Floats) (c : Client F.D) (key secret : String) (now : ℕ) where
  unfoldable pub lbank_post : String → Dictionary → Result String
  lbank_post target params =
      https_post c.net "api.lbkex.com" target (lbank_signed_body c.digests key secret params)
        (("Content-Type", "application/x-www-form-urlencoded") ∷ [])

  -- `j.contains("result") && j["result"] == "true"`
  unfoldable pub has_result : c.json.J → Bool
  has_result j = c.json.contains j "result" && c.json.equals (c.json.field j "result") "true"

  unfoldable pub id_of : c.json.J → Result String
  id_of j = if c.json.contains j "order_id" then get_text c (c.json.field j "order_id") else ok ""

  -- The return behind a request that was not carried out.
  unfoldable pub error_code : c.json.J → String → OrderResult
  error_code j resp = refused (
      if c.json.contains j "error_code"
      then "error_code=" <> c.dump (c.json.field j "error_code")
      else resp)

  unfoldable pub place_params : Side → String → F.D → F.D → Dictionary
  place_params side symbol price qty = assign "timestamp" (c.print_long (pos now)) (
      assign "amount" (c.print_double qty) (
        assign "price" (c.print_double price)
          (assign "type" (side_type side) (assign "symbol" symbol []))))

  unfoldable pub send_place : Side → String → F.D → F.D → Result String
  send_place side symbol price qty =
      lbank_post "/v2/supplement/create_order.do" (place_params side symbol price qty)

  unfoldable pub place_limit_order : Side → String → F.D → F.D → OrderResult
  place_limit_order side symbol price qty = caught (
      send_place side symbol price qty >>= (λ resp. parsed c resp >>= (λ j.
        if has_result j
        then id_of j >>= (λ id. ok (accepted id "OK"))
        else ok (error_code j resp))))

  unfoldable pub cancel_limit_order : String → String → OrderResult
  cancel_limit_order symbol order_id = caught (
      lbank_post "/v2/supplement/cancel_order.do" (
        assign "timestamp" (c.print_long (pos now))
          (assign "orderId" order_id (assign "symbol" symbol [])))
      >>= (λ resp. parsed c resp >>= (λ j.
          ok (if has_result j then accepted order_id "Cancelled" else error_code j resp))))

  unfoldable pub cancel_all_orders : String → OrderResult
  cancel_all_orders symbol = caught (
      lbank_post "/v2/supplement/cancel_order_by_symbol.do"
        (assign "timestamp" (c.print_long (pos now)) (assign "symbol" symbol []))
      >>= (λ resp.
          if empty resp
          then ok (accepted "" "All cancelled")
          else parsed c resp >>= (λ j.
            ok (if has_result j then accepted "" "All cancelled" else error_code j resp))))

  -- The lambda `get_num`; get<double> of a number does not throw.
  unfoldable pub get_num : c.json.J → String → F.D
  get_num item name =
      if c.json.contains item name
      then (if c.json.is_number (c.json.field item name)
          then elim (c.json.to_double (c.json.field item name)) [ none ↦ F.nought | some x ↦ x ]
          else stod_or F F.nought (get_text c (c.json.field item name)))
      else F.nought

  unfoldable pub read_order : String → c.json.J → Result (PlacedOrder F.D)
  read_order symbol item = value c item "order_id" "" >>= (λ id.
      value c item "type" "buy_limit" >>= (λ kind. ok (
        open_order F "LBank" symbol id (if contains_text kind "buy" then buy else sell)
          (get_num item "price") (get_num item "amount"))))

  unfoldable pub send_fetch : String → Result String
  send_fetch symbol = lbank_post "/v2/supplement/orders_info_no_deal.do" (
      assign "timestamp" (c.print_long (pos now))
        (assign "page_length" "50" (assign "current_page" "1" (assign "symbol" symbol []))))

  unfoldable pub fetch_open_orders : String → List (PlacedOrder F.D)
  fetch_open_orders symbol = quiet [] (
      send_fetch symbol >>= (λ resp. parsed c resp >>= (λ j.
        if c.json.contains j "orders" && c.json.is_array (c.json.field j "orders")
        then open_orders (read_order symbol) (c.json.elements (c.json.field j "orders"))
        else ok [])))
