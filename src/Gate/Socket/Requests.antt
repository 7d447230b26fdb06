-- ===== src/Gate/Socket/Requests.antt =====
-- gate/gate_trader.cpp, GateWsImpl: the requests that the callers send. In their `try` blocks `dump` may
-- throw, for a text that is not UTF-8; `ws_write` catches what the connection throws.
use trade_station.Common.{ℕ, Bool, none, some, String, List}
use trade_station.Common.Int.{pos}
use trade_station.Floats.{Floats}
use trade_station.Orders.{Side, OrderResult}
use trade_station.Text.{◌<>◌}
use trade_station.Text.Dictionary.{Dictionary, find}
use trade_station.Rest.Answers.{
  Client, Entries, dumped, text, number, object, done, entry, accepted, refused,
}
use trade_station.Rest.{ok, failed, ◌>>=◌}
use trade_station.Gate.Rest.{side_text}
use trade_station.Gate.Socket.{Socket, ws_write, generate_req_id, sign}

-- The id that a request to cancel names: what the map holds for the order, or for it behind "t-".
unfoldable pub resolve : Dictionary → String → String
resolve ids order_id = elim (find order_id ids) [
  | some gate_id ↦ gate_id
  | none ↦ elim (find ("t-" <> order_id) ids) [ some gate_id ↦ gate_id | none ↦ order_id ]
]

module _ (F : Floats) (c : Client F.D) (accepts : List String → String → Bool)
    (key secret : String) where
  -- The object that the three requests build around their parameters, which are also dumped for the
  -- signature.
  unfoldable pub request : ℕ → String → String → Entries → String → Entries
  request ts chan req_id param param_str = entry "time" (number ts) (
      entry "channel" (text chan) (
        entry "event" (text "api") (
          entry "payload"
            (object (
              entry "req_id" (text req_id) (
                entry "req_param" (object param) (
                  entry "api_key" (text key) (
                    entry "signature" (text (sign F c accepts key secret chan param_str ts))
                      (entry "timestamp" (text (c.print_long (pos ts))) done))))))
            done)))

  -- The end of the three calls, behind `generate_req_id`: the answer, if both objects can be dumped.
  unfoldable pub send_request :
      OrderResult → Socket F.D → ℕ → String → String → Entries → OrderResult × Socket F.D
  send_request answer s ts chan req_id param =
      elim (dumped c param >>= (λ param_str. dumped c (request ts chan req_id param param_str))) [
        | failed what ↦ (refused what, s)
        | ok message ↦ (answer, ws_write F c accepts key secret s message)
      ]

  unfoldable pub place_param : String → Side → String → F.D → F.D → Entries
  place_param req_id side symbol price qty = entry "text" (text ("t-" <> req_id)) (
      entry "currency_pair" (text symbol) (
        entry "type" (text "limit") (
          entry "account" (text "spot") (
            entry "side" (text (side_text side)) (
              entry "amount" (text (c.print_double qty)) (
                entry "price" (text (c.print_double price))
                  (entry "time_in_force" (text "gtc") done)))))))

  unfoldable pub place_order_ws :
      Socket F.D → ℕ → ℕ → Side → String → F.D → F.D → OrderResult × Socket F.D
  place_order_ws s ts ms side symbol price qty =
      let (req_id, s') = generate_req_id F c accepts key secret s ms in
      send_request (accepted ("t-" <> req_id) "Sent") s' ts "spot.order_place" req_id
        (place_param req_id side symbol price qty)

  unfoldable pub cancel_param : String → String → Entries
  cancel_param gate_id symbol =
      entry "order_id" (text gate_id) (entry "currency_pair" (text symbol) done)

  unfoldable pub cancel_order_ws : Socket F.D → ℕ → ℕ → String → String → OrderResult × Socket F.D
  cancel_order_ws s ts ms symbol order_id =
      let gate_id = resolve s.order_id_map order_id in
      let (req_id, s') = generate_req_id F c accepts key secret s ms in
      send_request (accepted order_id "Cancel sent") s' ts "spot.order_cancel" req_id
        (cancel_param gate_id symbol)

  unfoldable pub cancel_all_ws : Socket F.D → ℕ → ℕ → String → OrderResult × Socket F.D
  cancel_all_ws s ts ms symbol =
      let (req_id, s') = generate_req_id F c accepts key secret s ms in
      send_request (accepted "" "Cancel-all sent") s' ts "spot.order_cancel_cp" req_id
        (entry "currency_pair" (text symbol) done)
