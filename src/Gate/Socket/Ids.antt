-- ===== src/Gate/Socket/Ids.antt =====
-- The ids of the orders that go through the socket of Gate: the id that the trader returns, the one
-- that the exchange assigns, and the map between them.
use trade_station.Common.{
  ℕ, ◌<◌, ◌≡◌, ◌≢◌, refl, sym, ap, ◌∙◌, Bool, true, false, some, none, String, List, arith, ltb,
  ◌==◌, Bool-cases, inl, inr, if◌then◌else◌, ◌-◌,
}
use Prim.Native.Char.{code}
use trade_station.Common.Int.{ℤ, pos, negsuc}
use trade_station.Floats.{Floats}
use trade_station.Orders.{Side, OrderResult, OrderEvent}
use trade_station.Text.{◌<>◌, empty}
use trade_station.Text.Dictionary.{find, assign, find-assign, find-erase}
use trade_station.Rest.{Result, ok, failed}
use trade_station.Rest.Splitting.{lacks}
use trade_station.Rest.Answers.{Client, Entries, accepted, refused, quiet, value, get_text}
use trade_station.Gate.Socket.{Socket, ws_write, next_count, int_of, generate_req_id, take_event}
use trade_station.Gate.Socket.Messages.{
  handle_message, on_document, on_channel, on_order_place, is_update, has_result, result_of,
  id_text,
}
use trade_station.Gate.Socket.Requests.{
  resolve, send_request, place_order_ws, cancel_param, cancel_order_ws,
}
use trade_station.Gate.Socket.Steps.{Steps, requests, counted, Steps-counter}

-- What std::to_string does with numbers: a minus is before negative ones only, and different numbers
-- have different texts.
pub record IsPrinter (print : ℤ → String) : Type 0 where
  pub unsigned : (n : ℕ) → lacks b'-' (print (pos n)) ≡ true
  pub injective : (i j : ℤ) → print i ≡ print j → i ≡ j

-- What stands behind the first byte `d`.
unfoldable behind : ℕ → String → String
behind d String.[] = ""
behind d (String.◌∷◌ c s) = let rest = behind d s in if code c == d then s else rest

behind-lacks : (a b : String) → lacks b'-' a ≡ true → behind b'-' (a <> "-" <> b) ≡ b
unfolding behind lacks
behind-lacks String.[] b h = refl
behind-lacks (String.◌∷◌ c a) b h = elim (Bool-cases (code c == b'-')) [
  | inl e ↦ ground (arith, h, e)
  | inr e ↦ rw e (behind-lacks a b (ground (arith, h, e)))
]

-- The number whose text stands at the end of an id.
ends_alike :
    (a a' b b' : String)
    → lacks b'-' a ≡ true
    → lacks b'-' a' ≡ true
    → "t-" <> (a <> "-" <> b) ≡ "t-" <> (a' <> "-" <> b')
    → b ≡ b'
unfolding behind
ends_alike a a' b b' h h' e =
    sym (behind-lacks a b h) ∙ (ap (λ s. behind b'-' (behind b'-' s)) e ∙ behind-lacks a' b' h')

-- The bits of an int.
unfoldable bits_of : ℤ → ℕ
bits_of (pos n) = n
bits_of (negsuc n) = 4294967295 - n

bits_of-int_of : (n : ℕ) → n < 4294967296 → bits_of (int_of n) ≡ n
unfolding bits_of int_of
bits_of-int_of n h = elim (Bool-cases (ltb n 2147483648)) [
  | inl low ↦ rw low refl
  | inr high ↦ rw high (omega arith)
]

int_of-injective : (n m : ℕ) → n < 4294967296 → m < 4294967296 → int_of n ≡ int_of m → n ≡ m
int_of-injective n m hn hm e = sym (bits_of-int_of n hn) ∙ (ap bits_of e ∙ bits_of-int_of m hm)

resolve-assign : (k v : String) (ids : List (String × String)) → resolve (assign k v ids) k ≡ v
unfolding resolve
resolve-assign k v ids = rw (find-assign k v ids, resolve)

module _ (F : Floats) (c : Client F.D) (accepts : List String → String → Bool)
    (key secret : String) where
  ws_write-counter :
      (s : Socket F.D) (m : String)
      → (ws_write F c accepts key secret s m).req_counter ≡ s.req_counter
  unfolding ws_write
  ws_write-counter s m = ground arith

  -- A request that succeeds has the answer that it was given, and any leaves the counter.
  answered :
      (answer : OrderResult) (s : Socket F.D) (ts : ℕ) (chan req_id : String) (param : Entries)
      → ((send_request F c accepts key secret answer s ts chan req_id param).0.success ≡ true
          → (send_request F c accepts key secret answer s ts chan req_id param).0 ≡ answer)
        × ((send_request F c accepts key secret answer s ts chan req_id param).1.req_counter
            ≡ s.req_counter)
  unfolding send_request refused
  answered answer s ts chan req_id param = by_dump _
    where
      outcome : Result String → OrderResult × Socket F.D
      outcome m = elim m as (λ _. OrderResult × Socket F.D) [
        | failed what ↦ (refused what, s)
        | ok message ↦ (answer, ws_write F c accepts key secret s message)
      ]

      by_dump :
          (m : Result String)
          → ((outcome m).0.success ≡ true → (outcome m).0 ≡ answer)
            × ((outcome m).1.req_counter ≡ s.req_counter)
      by_dump (failed what) = (λ h. cc, refl)
      by_dump (ok message) = (λ h. refl, ws_write-counter s message)

  -- Two orders that the socket has accepted do not have one id, whatever else happens between them,
  -- whoever else uses the queue of events and whatever the clock says, if less than 2^32 - 1 requests
  -- or connections are made between them, and if numbers are printed with a minus only where they are
  -- negative, and different ones differently.
  pub order_ids-distinct :
      (s t : Socket F.D) (ts ms ts' ms' : ℕ) (side side' : Side) (symbol symbol' : String)
      (price qty price' qty' : F.D)
      → IsPrinter c.print_long
      → (steps : Steps F c accepts key secret
          (place_order_ws F c accepts key secret s ts ms side symbol price qty).1
          t)
      → requests F c accepts key secret steps < 4294967295
      → (place_order_ws F c accepts key secret s ts ms side symbol price qty).0.success ≡ true
      → (place_order_ws F c accepts key secret t ts' ms' side' symbol' price' qty').0.success ≡ true
      → (place_order_ws F c accepts key secret s ts ms side symbol price qty).0.order_id
        ≢ (place_order_ws F c accepts key secret t ts' ms' side' symbol' price' qty').0.order_id
  unfolding place_order_ws generate_req_id accepted next_count
  order_ids-distinct s t ts ms ts' ms' side side' symbol symbol' price qty price' qty' printer steps
        few done done' e =
      let one = answered _ (counted F c accepts key secret s) ts _ _ _ in
      let two = answered _ (counted F c accepts key secret t) ts' _ _ _ in
      let texts =
        ends_alike (c.print_long (pos ms)) (c.print_long (pos ms')) _ _ (printer.unsigned ms)
          (printer.unsigned ms')
          (sym (ap (λ r. r.order_id) (one.0 done)) ∙ (e ∙ ap (λ r. r.order_id) (two.0 done'))) in
      let same =
        int_of-injective (next_count s.req_counter) (next_count t.req_counter) (omega arith)
          (omega arith) (printer.injective _ _ texts) in
      let now =
        Steps-counter F c accepts key secret (next_count s.req_counter) steps
          (record { steps = 0; few = omega arith; counter = omega (arith, one.1) }) in
      absurd (omega (arith, now.few, now.counter, same))

  -- What handling a message that answers a request to place an order finds in it: its id at the
  -- exchange and the id that the trader gave.
  pub record IsPlaceAnswer (j : c.json.J) (client_id gate_id : String) : Type 0 where
    pub no_channel : c.json.contains j "channel" ≡ false
    pub is_object : c.is_object j ≡ true
    pub header : c.json.contains j "header" ≡ true
    pub channel : value c (c.json.field j "header") "channel" "" ≡ ok "spot.order_place"
    pub result : has_result F c accepts key secret j ≡ true
    pub has_id : c.json.contains (result_of F c accepts key secret j) "id" ≡ true
    pub has_text : c.json.contains (result_of F c accepts key secret j) "text" ≡ true
    pub id :
        id_text F c accepts key secret (c.json.field (result_of F c accepts key secret j) "id")
        ≡ ok gate_id
    pub client :
        get_text c (c.json.field (result_of F c accepts key secret j) "text") ≡ ok client_id

  on_document-place :
      (s : Socket F.D) (ts : ℕ) (j : c.json.J) (client_id gate_id : String)
      → IsPlaceAnswer j client_id gate_id
      → on_document F c accepts key secret s ts j
        ≡ record s { order_id_map = assign client_id gate_id s.order_id_map }
  unfolding on_document on_channel on_order_place is_update value quiet
  on_document-place s ts j client_id gate_id answer = simp (
    answer.no_channel, answer.is_object, answer.header, answer.channel, answer.result,
    answer.has_id, answer.has_text, answer.id, answer.client,
  )

  handle_message-place :
      (s : Socket F.D) (ts : ℕ) (message : String) (j : c.json.J) (client_id gate_id : String)
      → c.json.parse message ≡ some j
      → IsPlaceAnswer j client_id gate_id
      → handle_message F c accepts key secret s ts message
        ≡ record s { order_id_map = assign client_id gate_id s.order_id_map }
  unfolding handle_message
  handle_message-place s ts message j client_id gate_id read answer =
      ap
        (λ r. elim r as (λ _. Socket F.D) [
          | none ↦ s
          | some d ↦ on_document F c accepts key secret s ts d
        ])
        read
      ∙ on_document-place s ts j client_id gate_id answer

  -- When the answer to an order that was placed has been handled, a call to cancel it under the id that
  -- the trader returned makes the request that names the id that the exchange assigned, with the result
  -- "Cancel sent" if the request can be dumped and the exception otherwise.
  pub cancel-place_answer :
      (s : Socket F.D) (ts ts' ms : ℕ) (message symbol : String) (j : c.json.J)
      (client_id gate_id : String)
      → c.json.parse message ≡ some j
      → IsPlaceAnswer j client_id gate_id
      → cancel_order_ws F c accepts key secret
          (handle_message F c accepts key secret s ts message)
          ts'
          ms
          symbol
          client_id
        ≡ send_request F c accepts key secret
            (accepted client_id "Cancel sent")
            (generate_req_id F c accepts key secret
              (handle_message F c accepts key secret s ts message)
              ms).1
            ts'
            "spot.order_cancel"
            (generate_req_id F c accepts key secret s ms).0
            (cancel_param F c accepts key secret gate_id symbol)
  unfolding cancel_order_ws generate_req_id
  cancel-place_answer s ts ts' ms message symbol j client_id gate_id read answer = rw (
    handle_message-place s ts message j client_id gate_id read answer,
    resolve-assign client_id gate_id s.order_id_map,
  )

  -- A finished order that names its client id leaves the map.
  pub take_event-finish :
      (s : Socket F.D) (ev : OrderEvent F.D)
      → ev.event_type ≡ "finish"
      → empty ev.client_id ≡ false
      → find ev.client_id (take_event F c accepts key secret s ev).order_id_map ≡ none
  unfolding take_event
  take_event-finish s ev kind named = rw (kind, named, find-erase ev.client_id s.order_id_map)
