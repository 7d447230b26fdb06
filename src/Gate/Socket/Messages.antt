-- ===== src/Gate/Socket/Messages.antt =====
-- gate/gate_trader.cpp, GateWsImpl: the messages that arrive, and the life of the connection.
use trade_station.Common.{
  ℕ, Bool, true, false, ◌&&◌, Option, none, some, str_eq, String, List, [], ◌∷◌, if◌then◌else◌,
}
use trade_station.Common.Int.{pos}
use trade_station.Floats.{Floats}
use trade_station.Text.Dictionary.{assign, erase}
use trade_station.Rest.{Result, ok, failed, ◌>>=◌}
use trade_station.Rest.Answers.{
  Client, Entries, dumped, text, number, object, done, entry, quiet, value, get_text, get_long,
}
use trade_station.Gate.Socket.{
  Socket, has_events, ws_write, generate_req_id, sign, subscribe_orders, take_updates,
}

module _ (F : Floats) (c : Client F.D) (accepts : List String → String → Bool)
    (key secret : String) where
  -- `j.contains("data") && j["data"].contains("result")`
  unfoldable pub has_result : c.json.J → Bool
  has_result j = c.json.contains j "data" && c.json.contains (c.json.field j "data") "result"

  abbrev pub result_of : c.json.J → c.json.J
  result_of j = c.json.field (c.json.field j "data") "result"

  unfoldable pub on_ping : Socket F.D → ℕ → Socket F.D
  on_ping s ts =
      ws_write F c accepts key secret s
        (c.print (entry "channel" (text "spot.pong") (entry "time" (number ts) done)))

  unfoldable pub on_login : Socket F.D → ℕ → c.json.J → Socket F.D
  on_login s ts j =
      if has_result j && c.json.contains (result_of j) "uid"
      then elim s.events [
        | none ↦ record s { authenticated = true }
        | some q ↦ subscribe_orders F c accepts key secret (record s { authenticated = true }) ts
      ]
      else s

  -- `id.is_string() ? id.get<std::string>() : std::to_string(id.get<long long>())`
  unfoldable pub id_text : c.json.J → Result String
  id_text v =
      if c.json.is_string v then get_text c v else get_long c v >>= (λ n. ok (c.print_long n))

  -- An answer to a request to place an order; what is logged of a refusal is left out.
  unfoldable pub on_order_place : Socket F.D → c.json.J → Socket F.D
  on_order_place s j =
      let res = result_of j in
      if has_result j && (c.json.contains res "id" && c.json.contains res "text")
      then quiet s (
          id_text (c.json.field res "id") >>= (λ gate_id.
            get_text c (c.json.field res "text") >>= (λ client_id.
              ok (record s { order_id_map = assign client_id gate_id s.order_id_map }))))
      else s

  unfoldable pub on_order_cancel : Socket F.D → c.json.J → Socket F.D
  on_order_cancel s j =
      let res = result_of j in
      if has_result j && c.json.contains res "text"
      then quiet s (
          get_text c (c.json.field res "text")
          >>= (λ client_id. ok (record s { order_id_map = erase client_id s.order_id_map })))
      else s

  unfoldable pub on_channel : Socket F.D → ℕ → String → c.json.J → Socket F.D
  on_channel s ts chan j =
      if str_eq chan "spot.login"
      then on_login s ts j
      else (if str_eq chan "spot.order_place"
          then on_order_place s j
          else (if str_eq chan "spot.order_cancel" then on_order_cancel s j else s))

  -- `j.value("channel", "") == "spot.orders" && j.value("event", "") == "update"
  --   && j.contains("result") && events`
  unfoldable pub is_update : Socket F.D → c.json.J → Result Bool
  is_update s j = value c j "channel" "" >>= (λ channel.
      if str_eq channel "spot.orders"
      then value c j "event" ""
        >>= (λ event. ok (str_eq event "update" && (c.json.contains j "result" && has_events s)))
      else ok false)

  unfoldable pub on_document : Socket F.D → ℕ → c.json.J → Socket F.D
  on_document s ts j =
      if c.json.contains j "channel" && c.json.equals (c.json.field j "channel") "spot.ping"
      then on_ping s ts
      else quiet s (
          is_update s j >>= (λ update.
            if update
            then ok
                (take_updates F c accepts key secret s (c.json.elements (c.json.field j "result")))
            else (if c.json.contains j "header"
                then value c (c.json.field j "header") "channel" ""
                  >>= (λ chan. ok (on_channel s ts chan j))
                else ok s)))

  unfoldable pub handle_message : Socket F.D → ℕ → String → Socket F.D
  handle_message s ts message = elim (c.json.parse message) [
    | none ↦ s
    | some j ↦ on_document s ts j
  ]

  unfoldable pub hung_up : Socket F.D → Socket F.D
  hung_up s = record s { connected = false; authenticated = false }

  -- The messages that `read` gives before it throws, each with the clock of its handling.
  unfoldable pub listen : Socket F.D → List (ℕ × String) → Socket F.D
  listen s [] = hung_up s
  listen s ((ts, message) ∷ messages) =
      let rest = listen (handle_message s ts message) messages in
      if s.running && s.connected then rest else hung_up s

  unfoldable pub login : ℕ → String → Entries
  login ts req_id = entry "time" (number ts) (
      entry "channel" (text "spot.login") (
        entry "event" (text "api") (
          entry "payload"
            (object (
              entry "api_key" (text key) (
                entry "signature" (text (sign F c accepts key secret "spot.login" "" ts)) (
                  entry "timestamp" (text (c.print_long (pos ts)))
                    (entry "req_id" (text req_id) done)))))
            done)))

  -- The end of `try_connect`, from the call of `dump` on: the login is sent, and its answer is handled.
  unfoldable pub log_in : Socket F.D → ℕ → Result String → Option String → Socket F.D
  log_in s ts (failed what) reply = hung_up s
  log_in s ts (ok request) none = hung_up (ws_write F c accepts key secret s request)
  log_in s ts (ok request) (some message) =
      handle_message (ws_write F c accepts key secret s request) ts message

  -- `dialed` says that everything up to the handshakes went well, and otherwise `made` that the stream
  -- had been made; `reply` is the first message, `none` an exception of its read.
  unfoldable pub try_connect : Socket F.D → ℕ → ℕ → Bool → Bool → Option String → Socket F.D
  try_connect s ts ms dialed made reply =
      if dialed
      then (let up = record s { ws = true; connected = true; running = true } in
          let (req_id, s') = generate_req_id F c accepts key secret up ms in
          log_in s' ts (dumped c (login ts req_id)) reply)
      else hung_up (record s { ws = made })

  unfoldable pub shutdown : Socket F.D → Socket F.D
  shutdown s =
      if s.running
      then record s { running = false; authenticated = false; ws = false; connected = false }
      else s
