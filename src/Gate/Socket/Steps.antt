-- ===== src/Gate/Socket/Steps.antt =====
-- The socket over its whole life: every call that changes it, in any order and from any thread, as a
-- step.
use trade_station.Common.{
  ℕ, suc, ◌≤◌, ◌+◌, ◌%◌, ◌≡◌, ◌∙◌, refl, Bool, true, false, Option, some, none, String, List, [],
  ◌∷◌, arith,
}
use trade_station.Floats.{Floats}
use trade_station.Orders.{Side, OrderResult, SharedOrderEvents, drain}
use trade_station.Rest.{Result, ok, failed, ◌>>=◌}
use trade_station.Rest.Answers.{Client, Entries, dumped, refused}
use trade_station.Gate.Socket.{
  Socket, ws_write, next_count, generate_req_id, send_ping, take_event, take_updates, read_update,
}
use trade_station.Gate.Socket.Messages.{handle_message, log_in, hung_up, try_connect, shutdown}
use trade_station.Gate.Socket.Requests.{
  request, send_request, place_order_ws, cancel_order_ws, cancel_all_ws,
}
use trade_station.Gate.Trader.{
  place_limit_order, cancel_limit_order, cancel_all_orders, fetch_open_orders,
}
use trade_station.Gate.Socket.Keeping.{
  IsKept, ws_write-kept, handle_message-kept, if-kept, pair-kept,
}

module _ (F : Floats) (c : Client F.D) (accepts : List String → String → Bool)
    (key secret : String) where
  -- `drains` is the screen's call of `drain` on the queue.
  pub data Step (s : Socket F.D) : Socket F.D → Type 0 where
    handles :
        (ts : ℕ) (message : String) → Step s (handle_message F c accepts key secret s ts message)
    hangs_up : Step s (hung_up F c accepts key secret s)
    pings : (ts : ℕ) → Step s (send_ping F c accepts key secret s ts)
    connects :
        (ts ms : ℕ) (dialed made : Bool) (reply : Option String)
        → Step s (try_connect F c accepts key secret s ts ms dialed made reply)
    stops : Step s (shutdown F c accepts key secret s)
    places :
        (ts ms : ℕ) (side : Side) (symbol : String) (price qty : F.D)
        → Step s (place_limit_order F c accepts key secret s ts ms side symbol price qty).1
    cancels :
        (ts ms : ℕ) (symbol order_id : String)
        → Step s (cancel_limit_order F c accepts key secret s ts ms symbol order_id).1
    cancels_all :
        (ts ms : ℕ) (symbol : String)
        → Step s (cancel_all_orders F c accepts key secret s ts ms symbol).1
    fetches :
        (ts : ℕ) (symbol : String) → Step s (fetch_open_orders F c accepts key secret s ts symbol).1
    drains :
        (q : SharedOrderEvents F.D)
        → s.events ≡ some q
        → Step s (record s { events = some (drain q).1 })

  -- Between its own steps, others may do anything to the queue of events.
  pub data Steps (s : Socket F.D) : Socket F.D → Type 0 where
    here : Steps s s
    step : {t u : Socket F.D} → Steps s t → Step t u → Steps s u
    shares :
        {t : Socket F.D} (events : Option (SharedOrderEvents F.D))
        → Steps s t
        → Steps s (record t { events = events })

  -- `n`, or one more for a step that asks for an id of a request.
  unfoldable pub counting : {s t : Socket F.D} → Step s t → ℕ → ℕ
  counting (connects ts ms dialed made reply) n = suc n
  counting (places ts ms side symbol price qty) n = suc n
  counting (cancels ts ms symbol order_id) n = suc n
  counting (cancels_all ts ms symbol) n = suc n
  counting st n = n

  -- How many of the steps may ask for one.
  unfoldable pub requests : {s t : Socket F.D} → Steps s t → ℕ
  requests here = 0
  requests (step ss st) = counting st (requests ss)
  requests (shares events ss) = requests ss

  abbrev pub counted : Socket F.D → Socket F.D
  counted s = record s { req_counter = next_count s.req_counter }

  -- A property for each number of requests, which every step keeps for as many as it adds.
  module _ (P : ℕ → Socket F.D → Type 0) (kept : (n : ℕ) → IsKept F c accepts key secret (P n))
      (counts : (n : ℕ) (s : Socket F.D) → P n s → P (suc n) (counted s))
      (more : (n : ℕ) (s : Socket F.D) → P n s → P (suc n) s) where
    send_request-kept :
        (n : ℕ) (answer : OrderResult) (s : Socket F.D) (ts : ℕ) (chan req_id : String)
        (param : Entries)
        → P n s
        → P n (send_request F c accepts key secret answer s ts chan req_id param).1
    unfolding send_request
    send_request-kept n answer s ts chan req_id param h =
        answered (
          dumped c param
          >>= (λ p. dumped c (request F c accepts key secret ts chan req_id param p)))
      where
        answered :
            (m : Result String)
            → P n
                (elim m as (λ _. OrderResult × Socket F.D) [
                  | failed what ↦ (refused what, s)
                  | ok message ↦ (answer, ws_write F c accepts key secret s message)
                ]).1
        answered (failed what) = h
        answered (ok message) = ws_write-kept F c accepts key secret (P n) (kept n) s message h

    pub request-kept :
        (n : ℕ) (answer : OrderResult) (s : Socket F.D) (ts : ℕ) (chan req_id : String)
        (param : Entries)
        → P n s
        → P (suc n) (send_request F c accepts key secret answer (counted s) ts chan req_id param).1
    request-kept n answer s ts chan req_id param h =
        send_request-kept (suc n) answer (counted s) ts chan req_id param (counts n s h)

    log_in-kept :
        (n : ℕ) (s : Socket F.D) (ts : ℕ) (m : Result String) (reply : Option String)
        → P n s
        → P n (log_in F c accepts key secret s ts m reply)
    unfolding log_in hung_up
    log_in-kept n s ts (failed what) reply h = (kept n).flags s _ _ _ _ _ h
    log_in-kept n s ts (ok request) none h =
        (kept n).flags _ _ _ _ _ _ (ws_write-kept F c accepts key secret (P n) (kept n) s request h)
    log_in-kept n s ts (ok request) (some message) h =
        handle_message-kept F c accepts key secret (P n) (kept n) _ ts message
          (ws_write-kept F c accepts key secret (P n) (kept n) s request h)

    try_connect-kept :
        (n : ℕ) (s : Socket F.D) (ts ms : ℕ) (dialed made : Bool) (reply : Option String)
        → P n s
        → P (suc n) (try_connect F c accepts key secret s ts ms dialed made reply)
    unfolding try_connect hung_up generate_req_id
    try_connect-kept n s ts ms false made reply h = (kept (suc n)).flags s _ _ _ _ _ (more n s h)
    try_connect-kept n s ts ms true made reply h =
        log_in-kept (suc n) _ ts _ reply
          (counts n _ ((kept n).flags s true true s.authenticated true s.sent h))

    pub step-kept : {s t : Socket F.D} (n : ℕ) (st : Step s t) → P n s → P (counting st n) t
    unfolding hung_up shutdown send_ping place_limit_order cancel_limit_order cancel_all_orders
        fetch_open_orders place_order_ws cancel_order_ws cancel_all_ws generate_req_id drain
        counting
    step-kept {s} n (handles ts message) h =
        handle_message-kept F c accepts key secret (P n) (kept n) s ts message h
    step-kept {s} n hangs_up h = (kept n).flags s _ _ _ _ _ h
    step-kept {s} n (pings ts) h = ws_write-kept F c accepts key secret (P n) (kept n) s _ h
    step-kept {s} n (connects ts ms dialed made reply) h =
        try_connect-kept n s ts ms dialed made reply h
    step-kept {s} n stops h =
        if-kept F c accepts key secret (P n) (kept n) _ _ _ ((kept n).flags s _ _ _ _ _ h) h
    step-kept {s} n (places ts ms side symbol price qty) h =
        pair-kept F c accepts key secret (P (suc n)) (kept (suc n)) s.authenticated _ _
          (request-kept n _ s _ _ _ _ h) (more n s h)
    step-kept {s} n (cancels ts ms symbol order_id) h =
        pair-kept F c accepts key secret (P (suc n)) (kept (suc n)) s.authenticated _ _
          (request-kept n _ s _ _ _ _ h) (more n s h)
    step-kept {s} n (cancels_all ts ms symbol) h =
        pair-kept F c accepts key secret (P (suc n)) (kept (suc n)) s.authenticated _ _
          (request-kept n _ s _ _ _ _ h) (more n s h)
    step-kept {s} n (fetches ts symbol) h = (kept n).maps s _ h
    step-kept {s} n (drains q e) h = (kept n).empties s h

    -- What the steps keep holds of every socket that they reach, if it holds whatever the queue is.
    pub Steps-kept :
        ((n : ℕ) (s : Socket F.D) (events : Option (SharedOrderEvents F.D))
          → P n s
          → P n (record s { events = events }))
        → {s t : Socket F.D} (steps : Steps s t) → P 0 s
        → P (requests steps) t
    unfolding requests
    Steps-kept shared here h = h
    Steps-kept shared (step ss st) h = step-kept _ st (Steps-kept shared ss h)
    Steps-kept shared (shares events ss) h = shared _ _ events (Steps-kept shared ss h)

  take_updates-counter :
      (s : Socket F.D) (os : List c.json.J)
      → (take_updates F c accepts key secret s os).req_counter ≡ s.req_counter
  unfolding take_updates take_event
  take_updates-counter s [] = refl
  take_updates-counter s (o ∷ os) =
      elim (read_update F c accepts key secret o)
        as (λ r.
          (elim r as (λ _. Socket F.D) [
            | failed what ↦ s
            | ok none ↦ take_updates F c accepts key secret s os
            | ok (some ev) ↦
                take_updates F c accepts key secret (take_event F c accepts key secret s ev) os
          ]).req_counter
          ≡ s.req_counter) [
            | failed what ↦ refl
            | ok none ↦ take_updates-counter s os
            | ok (some ev) ↦ take_updates-counter (take_event F c accepts key secret s ev) os
          ]

  -- The counter has gone up by at most `n` from `start`, wrapping around.
  pub record IsCounted (start n : ℕ) (s : Socket F.D) : Type 0 where
    pub steps : ℕ
    pub few : steps ≤ n
    pub counter : s.req_counter ≡ (start + steps) % 4294967296

  IsCounted-IsKept : (start n : ℕ) → IsKept F c accepts key secret (IsCounted start n)
  IsCounted-IsKept start n = record {
    flags = λ s _ _ _ _ _ h. record { steps = h.steps; few = h.few; counter = h.counter };
    maps = λ s _ h. record { steps = h.steps; few = h.few; counter = h.counter };
    updates = λ s os h. record {
      steps = h.steps;
      few = h.few;
      counter = take_updates-counter s os ∙ h.counter;
    };
    empties = λ s h. record { steps = h.steps; few = h.few; counter = h.counter };
  }

  -- The counter counts the steps that ask for an id, as far as they do.
  pub Steps-counter :
      (start : ℕ) {s t : Socket F.D} (steps : Steps s t)
      → IsCounted start 0 s
      → IsCounted start (requests steps) t
  unfolding next_count
  Steps-counter start =
      Steps-kept (IsCounted start) (IsCounted-IsKept start)
        (λ n s h. record {
          steps = suc h.steps;
          few = omega (arith, h.few);
          counter = omega (arith, h.counter);
        })
        (λ n s h. record { steps = h.steps; few = omega (arith, h.few); counter = h.counter })
        (λ n s events h. record { steps = h.steps; few = h.few; counter = h.counter })
