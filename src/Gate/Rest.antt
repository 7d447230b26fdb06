-- ===== src/Gate/Rest.antt =====
-- gate/gate_trader.cpp, the REST helpers: what the trader of Gate falls back to while its websocket is
-- not authenticated, and the reading of the open orders. `now` is the clock in seconds.
pub mod Answers
use trade_station.Common.{ℕ, Bool, String, List, [], ◌∷◌, str_eq, if◌then◌else◌}
use trade_station.Common.Int.{pos}
use trade_station.Floats.{Floats}
use trade_station.Orders.{Side, buy, sell, OrderResult, PlacedOrder}
use trade_station.Text.{◌<>◌, empty}
use trade_station.Rest.{
  Result, ok, ◌>>=◌, Headers, https_get, https_post, https_delete, hmac_sha512_hex, sha512_hex,
}
use trade_station.Rest.Answers.{
  Client, Node, Entries, dumped, text, done, entry, caught, accepted, quiet, parsed, value,
  get_text, refusal, stod_or, open_orders, open_order,
}

unfoldable pub side_text : Side → String
side_text buy = "buy"
side_text sell = "sell"

unfoldable pub side_of_text : String → Side
side_of_text s = if str_eq s "buy" then buy else sell

abbrev pub orders_url : String
orders_url = "/api/v4/spot/orders"

module _ (F : Floats) (c : Client F.D) (key secret : String) (now : ℕ) where
  unfoldable pub gate_ts : String
  gate_ts = c.print_long (pos now)

  -- The signature of a request, from its method, path, query and body.
  unfoldable pub gate_sign : String → String → String → String → String
  gate_sign method url query body = hmac_sha512_hex c.digests secret (
      method
      <> "\n"
      <> url
      <> "\n"
      <> query
      <> "\n"
      <> sha512_hex c.digests body
      <> "\n"
      <> gate_ts)

  abbrev pub gate_headers : String → Headers → Headers
  gate_headers sign rest = ("KEY", key) ∷ ("SIGN", sign) ∷ ("Timestamp", gate_ts) ∷ rest

  abbrev pub accept_json : Headers
  accept_json = ("Accept", "application/json") ∷ []

  unfoldable pub place_body : Side → String → F.D → F.D → Entries
  place_body side symbol price qty = entry "currency_pair" (text symbol) (
      entry "type" (text "limit") (
        entry "side" (text (side_text side)) (
          entry "amount" (text (c.print_double qty)) (
            entry "price" (text (c.print_double price))
              (entry "time_in_force" (text "gtc") done)))))

  -- The branches behind the parsing of an answer that names the order.
  unfoldable pub by_id : String → String → c.json.J → Result OrderResult
  by_id message resp j =
      if c.json.contains j "id"
      then get_text c (c.json.field j "id") >>= (λ id. ok (accepted id message))
      else refusal c j "message" resp

  unfoldable pub send_place : Side → String → F.D → F.D → Result String
  send_place side symbol price qty = dumped c (place_body side symbol price qty) >>= (λ body.
      https_post c.net "api.gateio.ws" orders_url body (
        gate_headers (gate_sign "POST" orders_url "" body)
          (("Content-Type", "application/json") ∷ accept_json)))

  unfoldable pub gate_place_rest : Side → String → F.D → F.D → OrderResult
  gate_place_rest side symbol price qty =
      caught
        (send_place side symbol price qty >>= (λ resp. parsed c resp >>= (λ j. by_id "OK" resp j)))

  unfoldable pub gate_delete : String → String → Result String
  gate_delete url query =
      https_delete c.net "api.gateio.ws" (url <> "?" <> query)
        (gate_headers (gate_sign "DELETE" url query "") accept_json) ""

  unfoldable pub gate_cancel_rest : String → String → OrderResult
  gate_cancel_rest symbol order_id = caught (
      gate_delete (orders_url <> "/" <> order_id) ("currency_pair=" <> symbol) >>= (λ resp.
        if empty resp
        then ok (accepted order_id "Cancelled")
        else parsed c resp >>= (λ j. by_id "Cancelled" resp j)))

  unfoldable pub gate_cancel_all_rest : String → OrderResult
  gate_cancel_all_rest symbol = caught (
      gate_delete orders_url ("currency_pair=" <> symbol) >>= (λ resp.
        if empty resp
        then ok (accepted "" "All cancelled")
        else parsed c resp >>= (λ j.
          if c.json.is_array j
          then ok (accepted "" "All cancelled")
          else refusal c j "message" resp)))

  unfoldable pub read_order : String → c.json.J → Result (PlacedOrder F.D)
  read_order symbol item = value c item "id" "" >>= (λ id. value c item "side" "buy" >>= (λ side.
      ok (
        open_order F "Gate" symbol id (side_of_text side)
          (stod_or F F.nought (value c item "price" "0"))
          (stod_or F F.nought (value c item "amount" "0")))))

  unfoldable pub send_fetch : String → Result String
  send_fetch symbol =
      let query = "currency_pair=" <> symbol <> "&status=open" in
      https_get c.net "api.gateio.ws" (orders_url <> "?" <> query)
        (gate_headers (gate_sign "GET" orders_url query "") accept_json)

  -- The orders that `fetch_open_orders` returns; the trader also stores their ids.
  unfoldable pub fetch_rest : String → List (PlacedOrder F.D)
  fetch_rest symbol = quiet [] (
      send_fetch symbol >>= (λ resp. parsed c resp >>= (λ j.
        if c.json.is_array j then open_orders (read_order symbol) (c.json.elements j) else ok [])))
