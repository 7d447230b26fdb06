-- ===== src/Mexc/Stream.antt =====
-- mexc/mexc_order_stream.cpp: the private stream of MEXC. The classes that protoc generates are a
-- parameter: the parser gives the fields that the program reads. What is printed for the operator is
-- left out.
pub mod Events
mod Examples
use Prim.Native.Char.{code}
use Prim.Native.String
use trade_station.Common.{
  ℕ, Bool, true, false, ◌&&◌, ◌||◌, not, Option, none, some, String, List, [], ◌∷◌, ◌++◌, ◌==◌,
  if◌then◌else◌,
}
use trade_station.Common.Int.{pos}
use trade_station.Floats.{Floats}
use trade_station.Orders.{OrderEvent, SharedOrderEvents, push, blank_event}
use trade_station.Text.{◌<>◌, empty}
use trade_station.Rest.{
  Result, ok, failed, ◌>>=◌, Headers, verb_put, https_post, https_request, hmac_sha256_hex,
}
use trade_station.Rest.Answers.{
  Client, Entries, text, texts, done, entry, quiet, parsed, get_text, stod_or,
}

-- PrivateOrdersV3Api; an optional field that is not set is `none`. The numbers that the exchange
-- assigns are natural.
pub record PrivateOrders : Type 0 where
  pub id : String
  pub client_id : String
  pub status : ℕ
  pub price : String
  pub quantity : String
  pub cumulative_quantity : String
  pub avg_price : String
  pub trade_type : ℕ
  pub market : Option String
  pub symbol_id : Option String
  pub market_id : Option String

-- PushDataV3ApiWrapper.
pub record Wrapper : Type 0 where
  pub private_orders : Option PrivateOrders
  pub symbol : Option String
  pub symbol_id : Option String

-- `sent` are the messages that were handed to the client, in order; `connecting` the URL that the
-- thread of the websocket was started with.
pub record Stream (D : Type 0) : Type 0 where
  pub events : Option (SharedOrderEvents D)
  pub listen_key : String
  pub running : Bool
  pub connected : Bool
  pub connecting : Option String
  pub sent : List String

-- The first text that is set and not empty.
unfoldable pub first_set : List (Option String) → String
first_set [] = ""
first_set (none ∷ rest) = first_set rest
first_set (some s ∷ rest) = let later = first_set rest in if empty s then later else s

-- The symbol of an order, from the order and then from its envelope.
unfoldable pub symbol_of : Wrapper → PrivateOrders → String
symbol_of w o = first_set (o.market ∷ o.symbol_id ∷ o.market_id ∷ w.symbol ∷ w.symbol_id ∷ [])

unfoldable pub event_type_of : ℕ → String
event_type_of status = if status == 1 then "new" else (if status == 3 then "update" else "finish")

-- `!raw.empty() && raw[0] == '{'`
unfoldable pub is_json : String → Bool
is_json String.[] = false
is_json (String.◌∷◌ c s) = code c == b'{'

module _ (F : Floats) (c : Client F.D) (key secret : String) where
  unfoldable pub mexc_signed_query : ℕ → String → String
  mexc_signed_query now extra_params =
      let qs =
        (if empty extra_params then "" else extra_params <> "&")
        <> "timestamp="
        <> c.print_long (pos now) in
      qs <> "&signature=" <> hmac_sha256_hex c.digests secret qs

  -- What is returned, and the stream with the new key.
  unfoldable pub get_listen_key : Stream F.D → ℕ → Bool × Stream F.D
  get_listen_key s now =
      quiet (false, s)
        (https_post c.net "api.mexc.com" ("/api/v3/userDataStream?" <> mexc_signed_query now "") ""
            (("X-MEXC-APIKEY", key) ∷ ("Content-Type", "application/json") ∷ [])
          >>= (λ resp. parsed c resp >>= (λ j.
              if c.json.contains j "listenKey"
              then get_text c (c.json.field j "listenKey")
                >>= (λ k. ok (true, record s { listen_key = k }))
              else ok (false, s))))

  unfoldable pub renew_listen_key : Stream F.D → ℕ → Bool
  renew_listen_key s now = quiet false (
      https_request c.net verb_put "api.mexc.com"
        ("/api/v3/userDataStream?" <> mexc_signed_query now ("listenKey=" <> s.listen_key)) ""
        (("X-MEXC-APIKEY", key) ∷ [])
      >>= (λ resp. ok true))

  -- The threads that are started are steps of their own.
  unfoldable pub start : Stream F.D → ℕ → Stream F.D
  start s now =
      if s.running
      then s
      else (let (found, s') = get_listen_key s now in
          if found
          then record s' {
            running = true;
            connecting = some ("wss://wbs-api.mexc.com/ws?listenKey=" <> s'.listen_key);
          }
          else s')

  -- The return of the thread of the websocket when there is no connection to be had.
  unfoldable pub no_connection : Stream F.D → Stream F.D
  no_connection s = record s { running = false }

  unfoldable pub stop : Stream F.D → Stream F.D
  stop s = if s.running then record s { running = false; connected = false } else s

  unfoldable pub send : Stream F.D → Entries → Stream F.D
  send s message = record s { sent = s.sent ++ (c.print message ∷ []) }

  unfoldable pub subscribe_orders : Stream F.D → Stream F.D
  subscribe_orders s = send s (
      entry "method" (text "SUBSCRIPTION")
        (entry "params" (texts ("spot@private.orders.v3.api.pb" ∷ [])) done))

  -- The timer that `schedule_ping` sets is the step `on_timer`.
  unfoldable pub on_open : Stream F.D → Stream F.D
  on_open s = subscribe_orders (record s { connected = true })

  unfoldable pub on_close : Stream F.D → Stream F.D
  on_close s = record s { connected = false }

  unfoldable pub on_fail : Stream F.D → Stream F.D
  on_fail s = record s { connected = false; running = false }

  -- The handler of the timer; `ec` is its error, `send_ec` that of the send. What is returned with the
  -- stream says whether the timer is set again.
  unfoldable pub on_timer : Stream F.D → Bool → Bool → Bool × Stream F.D
  on_timer s ec send_ec =
      if ec || not s.running
      then (false, s)
      else (not send_ec, send s (entry "msg" (text "ping") done))

  unfoldable pub event_of : Wrapper → PrivateOrders → OrderEvent F.D
  event_of w o = record (blank_event F.nought) {
    exchange = "MEXC";
    order_id = if empty o.client_id then o.id else o.client_id;
    client_id = o.id;
    status = o.status;
    price = stod_or F F.nought (ok o.price);
    qty = stod_or F F.nought (ok o.quantity);
    cum_qty = stod_or F F.nought (ok o.cumulative_quantity);
    avg_price = stod_or F F.nought (ok o.avg_price);
    side = if o.trade_type == 1 then 0 else 1;
    symbol = symbol_of w o;
    event_type = event_type_of o.status;
  }

  -- The event that is pushed; `none` is the return for an order without an id.
  unfoldable pub read_order : Wrapper → PrivateOrders → Option (OrderEvent F.D)
  read_order w o = if empty o.id && empty o.client_id then none else some (event_of w o)

  unfoldable pub pushed : Stream F.D → Option (OrderEvent F.D) → Stream F.D
  pushed s none = s
  pushed s (some ev) = record s {
    events = elim s.events [ none ↦ none | some q ↦ some (push q ev) ];
  }

  unfoldable pub handle_order_proto : Stream F.D → Wrapper → PrivateOrders → Stream F.D
  handle_order_proto s w o = pushed s (read_order w o)

  unfoldable pub on_message : (String → Option Wrapper) → Stream F.D → String → Stream F.D
  on_message parse s raw =
      if is_json raw
      then quiet s (
          parsed c raw >>= (λ j. ok (
            if c.json.contains j "msg" && c.json.equals (c.json.field j "msg") "ping"
            then send s (entry "msg" (text "pong") done)
            else s)))
      else elim (parse raw) [
        | none ↦ s
        | some w ↦ elim w.private_orders [ none ↦ s | some o ↦ handle_order_proto s w o ]
      ]
