-- ===== src/Bingx/Stream/Events.antt =====
-- The private stream of BingX over its life: the frames it decompresses and the events that it queues.
use trade_station.Common.{
  ◌≡◌, refl, ◌∙◌, Bool, true, false, not, ◌||◌, ◌&&◌, inl, inr, Option, none, some, String, List,
  [], ◌∷◌, str_eq, if◌then◌else◌,
}
use trade_station.Floats.{Floats}
use trade_station.Orders.{OrderEvent, SharedOrderEvents, drain}
use trade_station.Orders.Typed.{IsEventOf, AllQueued, IfSome, push-AllQueued}
use trade_station.Text.{◌<>◌, empty}
use trade_station.Text.Joining.{append-empty, join_assoc}
use trade_station.Rest.{
  Result, ok, failed, https_post, Returns, Returns->>=, Returns-chain, Returns-if,
}
use trade_station.Rest.Answers.{Client, quiet, value, get_text, parsed}
use trade_station.Bingx.Stream.{
  Stream, Round, stream_end, more, inflate_all, gzip_decompress, key_headers, get_listen_key, start,
  no_connection, stop, send, subscribe_orders, on_open, on_close, on_fail, on_timer, with_status,
  read_order_event, pushed, handle_order_event, on_message,
}

-- What a stream of bytes decompresses to.
unfoldable outputs : List Round → String
outputs [] = ""
outputs (r ∷ rounds) = r.output <> outputs rounds

-- Rounds that fill the buffer and then the end of the stream.
abbrev pub IsComplete : List Round → Type 0
IsComplete [] = ⊥
IsComplete (r ∷ []) = r.ret ≡ stream_end
IsComplete (r ∷ q ∷ rounds) = ((r.ret ≡ more) × (r.full ≡ true)) × IsComplete (q ∷ rounds)

inflate_all-outputs :
    (rounds : List Round) (out : String)
    → IsComplete rounds
    → inflate_all rounds out ≡ out <> outputs rounds
unfolding inflate_all outputs
inflate_all-outputs [] out h = absurd h
inflate_all-outputs (r ∷ []) out h = rw (h, append-empty r.output)
inflate_all-outputs (r ∷ q ∷ rounds) out ((e, f), h) =
    rw (e, f)
      (inflate_all-outputs (q ∷ rounds) (out <> r.output) h
        ∙ join_assoc out r.output (outputs (q ∷ rounds)))

-- A frame that zlib goes through to its end becomes all its output, however many buffers that fills.
gzip_decompress-outputs :
    (zlib : String → Option (List Round)) (input : String) (rounds : List Round)
    → zlib input ≡ some rounds
    → IsComplete rounds
    → empty (outputs rounds) ≡ false
    → gzip_decompress zlib input ≡ outputs rounds
unfolding gzip_decompress
gzip_decompress-outputs zlib input rounds z h full =
    rw (z, gzip_decompress, inflate_all-outputs rounds "" h, full)

module _ (F : Floats) (c : Client F.D) (key : String) where
  abbrev pub Good : OrderEvent F.D → Type 0
  Good = IsEventOf "BingX"

  branch :
      (b : Bool) (x y : Option (OrderEvent F.D))
      → IfSome Good x
      → IfSome Good y
      → IfSome Good (if b then x else y)
  branch true x y hx hy = hx
  branch false x y hx hy = hy

  with_status-IsEventOf :
      (status : String) (ev : OrderEvent F.D)
      → ev.exchange ≡ "BingX"
      → IfSome Good (with_status F c key status ev)
  unfolding with_status
  with_status-IsEventOf status ev from =
      branch (str_eq status "NEW") _ _ (record { from_exchange = from; kind = (inl refl) })
        (branch (str_eq status "PARTIALLY_FILLED") _ _
          (record { from_exchange = from; kind = (inr (inl refl)) })
          (branch (str_eq status "FILLED") _ _
            (record { from_exchange = from; kind = (inr (inr refl)) })
            (branch (str_eq status "CANCELED" || str_eq status "CANCELLED") _ _
              (record { from_exchange = from; kind = (inr (inr refl)) }) tt)))

  read_order_event-IsEventOf : (d : c.json.J) → Returns (IfSome Good) (read_order_event F c key d)
  unfolding read_order_event
  read_order_event-IsEventOf d = Returns->>= (IfSome Good) (value c d "X" "") _ λ status.
      Returns-if (IfSome Good) (empty status) _ _ (λ _. tt)
        λ _. Returns->>= (IfSome Good) (value c d "C" "") _ λ client_id.
          Returns->>= (IfSome Good) (value c d "s" "") _ λ symbol.
            Returns->>= (IfSome Good) (value c d "S" "BUY") _
              λ side. with_status-IsEventOf status _ refl

  -- The calls that change the stream; `drains` is the screen's call of `drain` on the queue.
  pub data Step (s : Stream F.D) : Stream F.D → Type 0 where
    starts : Step s (start F c key s)
    finds_none : Step s (no_connection F c key s)
    stops : Step s (stop F c key s)
    opens : Step s (on_open F c key s)
    closes : Step s (on_close F c key s)
    fails : Step s (on_fail F c key s)
    ticks : (ec send_ec : Bool) → Step s (on_timer F c key s ec send_ec).1
    receives :
        (zlib : String → Option (List Round)) (payload : String)
        → Step s (on_message F c key zlib s payload)
    drains :
        (q : SharedOrderEvents F.D)
        → s.events ≡ some q
        → Step s (record s { events = some (drain q).1 })

  pub data Steps (s : Stream F.D) : Stream F.D → Type 0 where
    here : Steps s s
    step : {t u : Stream F.D} → Steps s t → Step t u → Steps s u

  -- What is kept: every event that waits is one of those that are meant to, and the stream's own are.
  module _ (Q : OrderEvent F.D → Type 0) (meant : (ev : OrderEvent F.D) → Good ev → Q ev) where
    abbrev Kept : Stream F.D → Type 0
    Kept s = AllQueued Q s.events

    pushed-Kept :
        (s : Stream F.D) (ev : Option (OrderEvent F.D))
        → IfSome Good ev
        → Kept s
        → Kept (pushed F c key s ev)
    unfolding pushed
    pushed-Kept s none good h = h
    pushed-Kept s (some ev) good h = push-AllQueued Q s.events ev (meant ev good) h

    quiet-Kept :
        (s : Stream F.D) (m : Result (Stream F.D)) → Kept s → Returns Kept m → Kept (quiet s m)
    unfolding quiet
    quiet-Kept s (ok t) h k = k
    quiet-Kept s (failed what) h k = h

    if-Kept : (b : Bool) (s t : Stream F.D) → Kept s → Kept t → Kept (if b then s else t)
    if-Kept true s t hs ht = hs
    if-Kept false s t hs ht = ht

    on_message-Kept :
        (zlib : String → Option (List Round)) (s : Stream F.D) (payload : String)
        → Kept s
        → Kept (on_message F c key zlib s payload)
    unfolding on_message send handle_order_event
    on_message-Kept zlib s payload h =
        let raw = gzip_decompress zlib payload in
        if-Kept _ _ _ h (
          quiet-Kept s _ h (
            Returns->>= Kept (parsed c raw) _ λ j.
              Returns->>= Kept (value c j "dataType" "") _ λ kind.
                Returns-if Kept (str_eq kind "spot.executionReport" && c.json.contains j "data") _ _
                  (λ _.
                    Returns-chain (IfSome Good) Kept
                      (read_order_event F c key (c.json.field j "data")) _
                      (read_order_event-IsEventOf (c.json.field j "data"))
                      λ ev good. pushed-Kept s ev good h)
                  (λ _. h)))

    -- Of functions that return something beside the stream.
    quiet_pair-Kept :
        (s : Bool × Stream F.D) (m : Result (Bool × Stream F.D))
        → Kept s.1
        → Returns (λ p. Kept p.1) m
        → Kept (quiet s m).1
    unfolding quiet
    quiet_pair-Kept s (ok t) h k = k
    quiet_pair-Kept s (failed what) h k = h

    get_listen_key-Kept : (s : Stream F.D) → Kept s → Kept (get_listen_key F c key s).1
    unfolding get_listen_key
    get_listen_key-Kept s h =
        let P : Bool × Stream F.D → Type 0 = λ p. Kept p.1 in
        quiet_pair-Kept (false, s) _ h
          (Returns->>= P
            (https_post c.net "open-api.bingx.com" "/openApi/user/auth/userDataStream" ""
              (key_headers F c key))
            _
            λ resp. Returns->>= P (parsed c resp) _ λ j.
              Returns-if P (c.json.contains j "listenKey") _ _
                (λ _. Returns->>= P (get_text c (c.json.field j "listenKey")) _ λ k. h) (λ _. h))

    start-Kept : (s : Stream F.D) → Kept s → Kept (start F c key s)
    unfolding start
    start-Kept s h = let k = get_listen_key-Kept s h in if-Kept s.running _ _ h (if-Kept _ _ _ k k)

    pair-Kept :
        (b : Bool) (x y : Bool × Stream F.D) → Kept x.1 → Kept y.1 → Kept (if b then x else y).1
    pair-Kept true x y hx hy = hx
    pair-Kept false x y hx hy = hy

    pub step-Kept : {s t : Stream F.D} → Step s t → Kept s → Kept t
    unfolding no_connection stop on_open on_close on_fail on_timer subscribe_orders send drain
    step-Kept {s} starts h = start-Kept s h
    step-Kept {s} finds_none h = h
    step-Kept {s} stops h = if-Kept s.running _ _ h h
    step-Kept {s} opens h = h
    step-Kept {s} closes h = h
    step-Kept {s} fails h = h
    step-Kept {s} (ticks ec send_ec) h = pair-Kept (ec || not s.running) _ _ h h
    step-Kept {s} (receives zlib payload) h = on_message-Kept zlib s payload h
    step-Kept {s} (drains q e) h = tt

  -- Whatever BingX sends and whatever the callbacks' order: each event that waits for the screen is one
  -- of BingX's, of type new, update or finish.
  pub stream-IsEventOf :
      (s t : Stream F.D)
      → AllQueued (IsEventOf "BingX") s.events
      → Steps s t
      → AllQueued (IsEventOf "BingX") t.events
  stream-IsEventOf s t h here = h
  stream-IsEventOf s t h (step ss st) =
      step-Kept Good (λ ev good. good) st (stream-IsEventOf s _ h ss)
