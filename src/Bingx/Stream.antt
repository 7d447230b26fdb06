-- ===== src/Bingx/Stream.antt =====
-- bingx/bingx_order_stream.cpp: the private stream of BingX. zlib's inflate is a parameter; what is
-- printed for the operator is left out.
pub mod Events
use trade_station.Common.{
  ℕ, zero, suc, Bool, true, false, ◌&&◌, ◌||◌, not, Option, none, some, String, List, [], ◌∷◌, ◌++◌,
  str_eq, if◌then◌else◌,
}
use trade_station.Floats.{Floats, le}
use trade_station.Orders.{OrderEvent, SharedOrderEvents, push, blank_event}
use trade_station.Text.{◌<>◌, empty}
use trade_station.Rest.{Result, ok, failed, ◌>>=◌, Headers, https_post, https_put}
use trade_station.Rest.Answers.{
  Client, Entries, text, done, entry, quiet, parsed, value, get_text, get_long, stod_or,
}

-- What a call of `inflate` does: the bytes that it adds to the output, its code, and whether the
-- buffer is full behind it.
pub data Code : Type 0 where
  stream_end bad more : Code

pub record Round : Type 0 where
  pub output : String
  pub ret : Code
  pub full : Bool

-- The loop of `gzip_decompress`, over the rounds that zlib goes through; each consumes some of them.
unfoldable pub inflate_all : List Round → String → String
inflate_all [] out = out
inflate_all (r ∷ rounds) out =
    let rest = inflate_all rounds (out <> r.output) in
    elim r.ret [
      | bad ↦ out
      | stream_end ↦ out <> r.output
      | more ↦ if r.full then rest else out <> r.output
    ]

-- `none` stands for an `inflateInit2` that fails.
unfoldable pub gzip_decompress : (String → Option (List Round)) → String → String
gzip_decompress zlib input = elim (zlib input) [
  | none ↦ input
  | some rounds ↦ (let out = inflate_all rounds "" in if empty out then input else out)
]

-- `sent` are the messages that were handed to the client, in order; `connecting` the URL that the
-- thread of the websocket was started with.
pub record Stream (D : Type 0) : Type 0 where
  pub events : Option (SharedOrderEvents D)
  pub listen_key : String
  pub running : Bool
  pub connected : Bool
  pub connecting : Option String
  pub sent : List String

module _ (F : Floats) (c : Client F.D) (key : String) where
  unfoldable pub key_headers : Headers
  key_headers = ("X-BX-APIKEY", key) ∷ ("Content-Type", "application/json") ∷ []

  -- What is returned, and the stream with the new key.
  unfoldable pub get_listen_key : Stream F.D → Bool × Stream F.D
  get_listen_key s =
      quiet (false, s)
        (https_post c.net "open-api.bingx.com" "/openApi/user/auth/userDataStream" "" key_headers
          >>= (λ resp. parsed c resp >>= (λ j.
              if c.json.contains j "listenKey"
              then get_text c (c.json.field j "listenKey")
                >>= (λ k. ok (true, record s { listen_key = k }))
              else ok (false, s))))

  unfoldable pub renew_listen_key : Stream F.D → Bool
  renew_listen_key s = quiet false (
      https_put c.net "open-api.bingx.com"
        ("/openApi/user/auth/userDataStream?listenKey=" <> s.listen_key) "" key_headers
      >>= (λ resp. ok true))

  -- The threads that are started are steps of their own.
  unfoldable pub start : Stream F.D → Stream F.D
  start s =
      if s.running
      then s
      else (let (found, s') = get_listen_key s in
          if found
          then record s' {
            running = true;
            connecting = some ("wss://open-api-ws.bingx.com/market?listenKey=" <> s'.listen_key);
          }
          else s')

  -- The return of the thread of the websocket when there is no connection to be had.
  unfoldable pub no_connection : Stream F.D → Stream F.D
  no_connection s = record s { running = false }

  unfoldable pub stop : Stream F.D → Stream F.D
  stop s = if s.running then record s { running = false; connected = false } else s

  unfoldable pub send : Stream F.D → String → Stream F.D
  send s message = record s { sent = s.sent ++ (message ∷ []) }

  unfoldable pub subscribe_orders : Stream F.D → Stream F.D
  subscribe_orders s = send s (
      c.print (
        entry "id" (text "bx-orders")
          (entry "reqType" (text "sub") (entry "dataType" (text "spot.executionReport") done))))

  -- The timer that `schedule_ping` sets is the step `on_timer`.
  unfoldable pub on_open : Stream F.D → Stream F.D
  on_open s = subscribe_orders (record s { connected = true })

  unfoldable pub on_close : Stream F.D → Stream F.D
  on_close s = record s { connected = false }

  unfoldable pub on_fail : Stream F.D → Stream F.D
  on_fail s = record s { connected = false; running = false }

  -- The handler of the timer; `ec` is its error, `send_ec` that of the send. What is returned with the
  -- stream says whether the timer is set again.
  unfoldable pub on_timer : Stream F.D → Bool → Bool → Bool × Stream F.D
  on_timer s ec send_ec = if ec || not s.running then (false, s) else (not send_ec, send s "ping")

  -- The id of the order; an exception leaves it empty.
  unfoldable pub order_id_of : c.json.J → String
  order_id_of d = quiet "" (
      if c.json.contains d "i"
      then (if c.json.is_number (c.json.field d "i")
          then get_long c (c.json.field d "i") >>= (λ n. ok (c.print_long n))
          else get_text c (c.json.field d "i"))
      else ok "")

  unfoldable pub parse_num : c.json.J → String → F.D
  parse_num d name =
      let v = c.json.field d name in
      if c.json.contains d name
      then (if c.json.is_number v
          then elim (c.json.to_double v) [ none ↦ F.nought | some x ↦ x ]
          else (if c.json.is_string v then stod_or F F.nought (get_text c v) else F.nought))
      else F.nought

  -- The quantity, from the base quantity, the amount in quote currency, or what has been filled.
  unfoldable pub qty_of : c.json.J → F.D
  qty_of d =
      let base = parse_num d "q" in
      let quote = parse_num d "Q" in
      let qty = if le F base F.nought then quote else base in
      if le F qty F.nought then parse_num d "z" else qty

  -- The end of `handle_order_event`: the type of the event by the status of the order; `none` is the
  -- return for a status that is not known.
  unfoldable pub with_status : String → OrderEvent F.D → Option (OrderEvent F.D)
  with_status status ev =
      if str_eq status "NEW"
      then some (record ev { event_type = "new" })
      else (if str_eq status "PARTIALLY_FILLED"
          then some (record ev { event_type = "update" })
          else (if str_eq status "FILLED"
              then some (record ev { event_type = "finish"; finish_as = "filled" })
              else (if str_eq status "CANCELED" || str_eq status "CANCELLED"
                  then some (record ev { event_type = "finish"; finish_as = "cancelled" })
                  else none)))

  -- The event of a report; `none` where none is pushed.
  unfoldable pub read_order_event : c.json.J → Result (Option (OrderEvent F.D))
  read_order_event d = value c d "X" "" >>= (λ status.
      if empty status
      then ok none
      else value c d "C" "" >>= (λ client_id. value c d "s" "" >>= (λ symbol.
        value c d "S" "BUY" >>= (λ side. ok (
          with_status status (record (blank_event F.nought) {
            exchange = "BingX";
            order_id = order_id_of d;
            client_id = client_id;
            symbol = symbol;
            side = if str_eq side "BUY" then 0 else 1;
            price = parse_num d "p";
            qty = qty_of d;
            cum_qty = parse_num d "z";
            avg_price = parse_num d "L";
          }))))))

  unfoldable pub pushed : Stream F.D → Option (OrderEvent F.D) → Stream F.D
  pushed s none = s
  pushed s (some ev) = record s {
    events = elim s.events [ none ↦ none | some q ↦ some (push q ev) ];
  }

  unfoldable pub handle_order_event : Stream F.D → c.json.J → Result (Stream F.D)
  handle_order_event s d = read_order_event d >>= (λ ev. ok (pushed s ev))

  unfoldable pub on_message : (String → Option (List Round)) → Stream F.D → String → Stream F.D
  on_message zlib s payload =
      let raw = gzip_decompress zlib payload in
      if str_eq raw "Ping" || str_eq raw "ping"
      then send s "Pong"
      else quiet s (
          parsed c raw >>= (λ j. value c j "dataType" "" >>= (λ kind.
            if str_eq kind "spot.executionReport" && c.json.contains j "data"
            then handle_order_event s (c.json.field j "data")
            else ok s)))
