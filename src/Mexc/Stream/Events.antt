-- ===== src/Mexc/Stream/Events.antt =====
-- The private stream of MEXC over its life: how it reads an order, and the events that it queues.
use trade_station.Common.{
  ℕ, ◌≡◌, refl, Bool, true, false, not, ◌||◌, ◌&&◌, Bool-cases, inl, inr, ◌⊎◌, Option, none, some,
  String, [], ◌∷◌, str_eq, str_eq_self, arith, if◌then◌else◌,
}
use trade_station.Floats.{Floats}
use trade_station.Orders.{OrderEvent, PlacedOrder, SharedOrderEvents, drain}
use trade_station.Orders.Typed.{IsKind, IsOrderEvent, AllQueued, IfSome, push-AllQueued}
use trade_station.Text.{◌<>◌, empty}
use trade_station.Rest.{Result, ok, failed, https_post, Returns, Returns->>=, Returns-if}
use trade_station.Rest.Answers.{Client, quiet, get_text, parsed}
use trade_station.Render.Events.{is_for}
use trade_station.Mexc.Stream.{
  Stream, PrivateOrders, Wrapper, event_type_of, is_json, event_of, read_order, mexc_signed_query,
  get_listen_key, start, no_connection, stop, send, subscribe_orders, on_open, on_close, on_fail,
  on_timer, pushed, handle_order_proto, on_message,
}

event_type_of-IsKind : (status : ℕ) → IsKind (event_type_of status)
unfolding event_type_of
event_type_of-IsKind status = ground arith

some_id :
    (id client : String)
    → (empty id && empty client) ≡ false
    → empty (if empty client then id else client) ≡ false
some_id id client h = ground arith

no_id :
    (shown id client : String)
    → empty shown ≡ false
    → (shown ≡ id) ⊎ (shown ≡ client)
    → (empty id && empty client) ≡ false
no_id shown id client full (inl e) = ground (arith, e)
no_id shown id client full (inr e) = ground (arith, e)

or_true : (b : Bool) → (b || true) ≡ true
or_true true = refl
or_true false = refl

-- A text that is either id is found by the two tests of the screen.
found :
    (shown id client : String)
    → empty shown ≡ false
    → (shown ≡ id) ⊎ (shown ≡ client)
    → (str_eq shown (if empty client then id else client) || (not (empty id) && str_eq shown id))
      ≡ true
found shown id client full (inl e) =
    rw (← e, full, str_eq_self shown)
      (or_true (str_eq shown (if empty client then shown else client)))
found shown id client full (inr e) = rw (← e, full, str_eq_self shown)

module _ (F : Floats) (c : Client F.D) (key secret : String) where
  abbrev pub Good : OrderEvent F.D → Type 0
  Good = IsOrderEvent "MEXC"

  read_order-IsOrderEvent :
      (w : Wrapper) (o : PrivateOrders) → IfSome Good (read_order F c key secret w o)
  unfolding read_order event_of
  read_order-IsOrderEvent w o = elim (Bool-cases (empty o.id && empty o.client_id)) [
    | inl e ↦ rw e tt
    | inr e ↦ rw e (record {
      event = record { from_exchange = refl; kind = event_type_of-IsKind o.status };
      named = some_id o.id o.client_id e;
    })
  ]

  -- A report of an order with an id gives an event, and it is the event of every row that the screen
  -- shows under either of the order's ids.
  pub read_order-is_for :
      (w : Wrapper) (o : PrivateOrders) (row : PlacedOrder F.D)
      → empty row.order_id ≡ false
      → (row.order_id ≡ o.id) ⊎ (row.order_id ≡ o.client_id)
      → (ev : OrderEvent F.D) × (read_order F c key secret w o ≡ some ev) × (is_for ev row ≡ true)
  unfolding read_order event_of is_for
  read_order-is_for w o row full which = (
    event_of F c key secret w o,
    rw (no_id row.order_id o.id o.client_id full which) refl,
    found row.order_id o.id o.client_id full which,
  )

  -- The calls that change the stream; `drains` is the screen's call of `drain` on the queue.
  pub data Step (s : Stream F.D) : Stream F.D → Type 0 where
    starts : (now : ℕ) → Step s (start F c key secret s now)
    finds_none : Step s (no_connection F c key secret s)
    stops : Step s (stop F c key secret s)
    opens : Step s (on_open F c key secret s)
    closes : Step s (on_close F c key secret s)
    fails : Step s (on_fail F c key secret s)
    ticks : (ec send_ec : Bool) → Step s (on_timer F c key secret s ec send_ec).1
    receives :
        (parse : String → Option Wrapper) (raw : String)
        → Step s (on_message F c key secret parse s raw)
    drains :
        (q : SharedOrderEvents F.D)
        → s.events ≡ some q
        → Step s (record s { events = some (drain q).1 })

  pub data Steps (s : Stream F.D) : Stream F.D → Type 0 where
    here : Steps s s
    step : {t u : Stream F.D} → Steps s t → Step t u → Steps s u

  -- What is kept: every event that waits is one of those that are meant to, and the stream's own are.
  module _ (Q : OrderEvent F.D → Type 0) (meant : (ev : OrderEvent F.D) → Good ev → Q ev) where
    abbrev Kept : Stream F.D → Type 0
    Kept s = AllQueued Q s.events

    pushed-Kept :
        (s : Stream F.D) (ev : Option (OrderEvent F.D))
        → IfSome Good ev
        → Kept s
        → Kept (pushed F c key secret s ev)
    unfolding pushed
    pushed-Kept s none good h = h
    pushed-Kept s (some ev) good h = push-AllQueued Q s.events ev (meant ev good) h

    quiet-Kept :
        (s : Stream F.D) (m : Result (Stream F.D)) → Kept s → Returns Kept m → Kept (quiet s m)
    unfolding quiet
    quiet-Kept s (ok t) h k = k
    quiet-Kept s (failed what) h k = h

    if-Kept : (b : Bool) (s t : Stream F.D) → Kept s → Kept t → Kept (if b then s else t)
    if-Kept true s t hs ht = hs
    if-Kept false s t hs ht = ht

    on_message-Kept :
        (parse : String → Option Wrapper) (s : Stream F.D) (raw : String)
        → Kept s
        → Kept (on_message F c key secret parse s raw)
    unfolding on_message send handle_order_proto
    on_message-Kept parse s raw h =
        if-Kept (is_json raw) _ _
          (quiet-Kept s _ h (Returns->>= Kept (parsed c raw) _ λ j. if-Kept _ _ _ h h))
          (elim (parse raw)
            as (λ r. Kept (elim r as (λ _. Stream F.D) [
              | none ↦ s
              | some w ↦ elim w.private_orders as (λ _. Stream F.D) [
                | none ↦ s
                | some o ↦ handle_order_proto F c key secret s w o
              ]
            ])) [
              | none ↦ h
              | some w ↦
                  elim w.private_orders
                    as (λ p. Kept (elim p as (λ _. Stream F.D) [
                      | none ↦ s
                      | some o ↦ handle_order_proto F c key secret s w o
                    ])) [ none ↦ h | some o ↦ pushed-Kept s _ (read_order-IsOrderEvent w o) h ]
            ])

    -- Of functions that return something beside the stream.
    quiet_pair-Kept :
        (s : Bool × Stream F.D) (m : Result (Bool × Stream F.D))
        → Kept s.1
        → Returns (λ p. Kept p.1) m
        → Kept (quiet s m).1
    unfolding quiet
    quiet_pair-Kept s (ok t) h k = k
    quiet_pair-Kept s (failed what) h k = h

    get_listen_key-Kept :
        (s : Stream F.D) (now : ℕ) → Kept s → Kept (get_listen_key F c key secret s now).1
    unfolding get_listen_key
    get_listen_key-Kept s now h =
        let P : Bool × Stream F.D → Type 0 = λ p. Kept p.1 in
        quiet_pair-Kept (false, s) _ h
          (Returns->>= P
            (https_post c.net "api.mexc.com"
              ("/api/v3/userDataStream?" <> mexc_signed_query F c key secret now "") ""
              (("X-MEXC-APIKEY", key) ∷ ("Content-Type", "application/json") ∷ []))
            _
            λ resp. Returns->>= P (parsed c resp) _ λ j.
              Returns-if P (c.json.contains j "listenKey") _ _
                (λ _. Returns->>= P (get_text c (c.json.field j "listenKey")) _ λ k. h) (λ _. h))

    start-Kept : (s : Stream F.D) (now : ℕ) → Kept s → Kept (start F c key secret s now)
    unfolding start
    start-Kept s now h =
        let k = get_listen_key-Kept s now h in if-Kept s.running _ _ h (if-Kept _ _ _ k k)

    pair-Kept :
        (b : Bool) (x y : Bool × Stream F.D) → Kept x.1 → Kept y.1 → Kept (if b then x else y).1
    pair-Kept true x y hx hy = hx
    pair-Kept false x y hx hy = hy

    pub step-Kept : {s t : Stream F.D} → Step s t → Kept s → Kept t
    unfolding no_connection stop on_open on_close on_fail on_timer subscribe_orders send drain
    step-Kept {s} (starts now) h = start-Kept s now h
    step-Kept {s} finds_none h = h
    step-Kept {s} stops h = if-Kept s.running _ _ h h
    step-Kept {s} opens h = h
    step-Kept {s} closes h = h
    step-Kept {s} fails h = h
    step-Kept {s} (ticks ec send_ec) h = pair-Kept (ec || not s.running) _ _ h h
    step-Kept {s} (receives parse raw) h = on_message-Kept parse s raw h
    step-Kept {s} (drains q e) h = tt

  -- Whatever MEXC sends and whatever the callbacks' order: each event that waits for the screen is one
  -- of MEXC's, of type new, update or finish, and names its
  -- order.
  pub stream-IsOrderEvent :
      (s t : Stream F.D)
      → AllQueued (IsOrderEvent "MEXC") s.events
      → Steps s t
      → AllQueued (IsOrderEvent "MEXC") t.events
  stream-IsOrderEvent s t h here = h
  stream-IsOrderEvent s t h (step ss st) =
      step-Kept Good (λ ev good. good) st (stream-IsOrderEvent s _ h ss)
