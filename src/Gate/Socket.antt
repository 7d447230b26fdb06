-- ===== src/Gate/Socket.antt =====
-- gate/gate_trader.cpp, GateWsImpl: the websocket that orders go through. The state is what its methods
-- share; the read loop and the callers are steps on it, each under the mutex that it takes. `accepts`
-- says whether the connection takes a message after those that it has taken.
pub mod Messages
pub mod Requests
pub mod Updates
pub mod Keeping
pub mod Steps
pub mod Ids
mod Examples
use trade_station.Common.{
  ℕ, ◌+◌, ◌-◌, ◌%◌, ltb, Bool, true, false, ◌&&◌, ◌||◌, not, Option, none, some, String, List, [],
  ◌∷◌, ◌++◌, str_eq, if◌then◌else◌,
}
use trade_station.Common.Int.{ℤ, pos, negsuc}
use trade_station.Floats.{Floats}
use trade_station.Orders.{Side, OrderResult, OrderEvent, SharedOrderEvents, push, blank_event}
use trade_station.Text.{◌<>◌, empty}
use trade_station.Text.Dictionary.{Dictionary, assign, find, erase}
use trade_station.Rest.{Result, ok, failed, ◌>>=◌, hmac_sha512_hex}
use trade_station.Rest.Answers.{
  Client, Node, Entries, dumped, text, number, texts, object, done, entry, accepted, parsed, value,
  get_text, get_long, stod_or,
}
use trade_station.Gate.Rest.{side_text}

-- `events` is the queue behind the pointer, `none` for a null pointer; it is the program's, and others
-- change it too. `sent` are the messages that the connection has taken. `req_counter` is an atomic<int>,
-- as its 32 bits.
pub record Socket (D : Type 0) : Type 0 where
  pub events : Option (SharedOrderEvents D)
  pub ws : Bool
  pub connected : Bool
  pub authenticated : Bool
  pub running : Bool
  pub req_counter : ℕ
  pub order_id_map : Dictionary
  pub sent : List String

-- `++req_counter`, which wraps around, and the int that the bits stand for.
unfoldable pub next_count : ℕ → ℕ
next_count n = (n + 1) % 4294967296

unfoldable pub int_of : ℕ → ℤ
int_of n = if ltb n 2147483648 then pos n else negsuc (4294967295 - n)

-- The test of the pointer.
abbrev pub has_events : {D : Type 0} → Socket D → Bool
has_events s = elim s.events [ none ↦ false | some q ↦ true ]

-- A socket as it is constructed, before `try_connect`.
unfoldable pub fresh : {D : Type 0} → Option (SharedOrderEvents D) → Socket D
fresh events = record {
  events = events;
  ws = false;
  connected = false;
  authenticated = false;
  running = false;
  req_counter = 0;
  order_id_map = [];
  sent = [];
}

module _ (F : Floats) (c : Client F.D) (accepts : List String → String → Bool)
    (key secret : String) where
  unfoldable pub ws_write : Socket F.D → String → Socket F.D
  ws_write s message =
      if s.ws && s.connected
      then (if accepts s.sent message
          then record s { sent = s.sent ++ (message ∷ []) }
          else record s { connected = false })
      else s

  -- `ms` is the clock in milliseconds; what is returned is the id and the socket.
  unfoldable pub generate_req_id : Socket F.D → ℕ → String × Socket F.D
  generate_req_id s ms = (
    c.print_long (pos ms) <> "-" <> c.print_long (int_of (next_count s.req_counter)),
    record s { req_counter = next_count s.req_counter },
  )

  unfoldable pub sign : String → String → ℕ → String
  sign channel req_param ts =
      hmac_sha512_hex c.digests secret
        ("api\n" <> channel <> "\n" <> req_param <> "\n" <> c.print_long (pos ts))

  unfoldable pub sub_sign : String → ℕ → String
  sub_sign channel ts =
      hmac_sha512_hex c.digests secret
        ("channel=" <> channel <> "&event=subscribe&time=" <> c.print_long (pos ts))

  unfoldable pub subscription : ℕ → Entries
  subscription ts = entry "time" (number ts) (
      entry "channel" (text "spot.orders") (
        entry "event" (text "subscribe") (
          entry "payload" (texts ("!all" ∷ [])) (
            entry "auth"
              (object (
                entry "method" (text "api_key")
                  (entry "KEY" (text key) (entry "SIGN" (text (sub_sign "spot.orders" ts)) done))))
              done))))

  -- `handle_message`, which calls it, catches what `dump` throws.
  unfoldable pub subscribe_orders : Socket F.D → ℕ → Socket F.D
  subscribe_orders s ts = elim (dumped c (subscription ts)) [
    | failed what ↦ s
    | ok message ↦ ws_write s message
  ]

  unfoldable pub send_ping : Socket F.D → ℕ → Socket F.D
  send_ping s ts =
      ws_write s (c.print (entry "time" (number ts) (entry "channel" (text "spot.ping") done)))

  -- What the branch for an update or a finish assigns to `avg_price` and `cum_qty`.
  unfoldable pub filled_part : c.json.J → OrderEvent F.D → OrderEvent F.D
  filled_part o ev = record ev {
    avg_price = stod_or F F.nought (value c o "avg_deal_price" "0");
    cum_qty = elim (value c o "amount" "0") [
      | failed what ↦ F.nought
      | ok a ↦ elim (F.stod a) [
        | none ↦ F.nought
        | some amount ↦ elim (value c o "left" "0") [
          | failed what ↦ F.nought
          | ok l ↦ elim (F.stod l) [ none ↦ F.nought | some left ↦ F.minus amount left ]
        ]
      ]
    ];
  }

  -- The branches of the loop over the updates by the type of one; `none` is `continue`.
  unfoldable pub typed_event : String → c.json.J → OrderEvent F.D → Result (Option (OrderEvent F.D))
  typed_event ev_type o ev =
      if str_eq ev_type "put"
      then value c o "side" "buy" >>= (λ side. ok (
          some (record ev {
            event_type = "new";
            side = if str_eq side "buy" then 0 else 1;
            price = stod_or F F.nought (value c o "price" "0");
            qty = stod_or F F.nought (value c o "amount" "0");
          })))
      else (if str_eq ev_type "update"
          then ok (some (filled_part o (record ev { event_type = "update" })))
          else (if str_eq ev_type "finish"
              then ok (some (filled_part o (record ev { event_type = "finish" })))
              else ok none))

  -- The event of one update.
  unfoldable pub read_update : c.json.J → Result (Option (OrderEvent F.D))
  read_update o = value c o "event" "" >>= (λ ev_type. value c o "finish_as" "" >>= (λ finish_as.
      value c o "id" "" >>= (λ gate_id. value c o "text" "" >>= (λ client_id.
        if empty ev_type || empty gate_id
        then ok none
        else value c o "currency_pair" "" >>= (λ symbol.
          typed_event ev_type o (record (blank_event F.nought) {
            exchange = "Gate";
            order_id = gate_id;
            client_id = client_id;
            finish_as = finish_as;
            symbol = symbol;
          }))))))

  -- What follows for an event: a finished order leaves the map, and the event is pushed.
  unfoldable pub take_event : Socket F.D → OrderEvent F.D → Socket F.D
  take_event s ev = record s {
    order_id_map =
        if str_eq ev.event_type "finish" && not (empty ev.client_id)
        then erase ev.client_id s.order_id_map
        else s.order_id_map;
    events = elim s.events [ none ↦ none | some q ↦ some (push q ev) ];
  }

  -- The loop over the updates, up to the first exception.
  unfoldable pub take_updates : Socket F.D → List c.json.J → Socket F.D
  take_updates s [] = s
  take_updates s (o ∷ os) = elim (read_update o) [
    | failed what ↦ s
    | ok none ↦ take_updates s os
    | ok (some ev) ↦ take_updates (take_event s ev) os
  ]
