-- ===== src/Gate/Socket/Keeping.antt =====
-- Properties of sockets that handling a message of gate/gate_trader.cpp keeps.
use trade_station.Common.{
  ℕ, Bool, true, false, ◌&&◌, some, none, String, List, [], str_eq, if◌then◌else◌,
}
use trade_station.Floats.{Floats}
use trade_station.Rest.{Result, ok, failed, Returns, Returns->>=, Returns-if}
use trade_station.Rest.Answers.{Client, dumped, quiet, value, get_text}
use trade_station.Text.Dictionary.{assign, erase}
use trade_station.Gate.Socket.{Socket, ws_write, subscription, subscribe_orders, take_updates}
use trade_station.Gate.Socket.Messages.{
  handle_message, on_ping, on_login, on_order_place, on_order_cancel, on_channel, on_document,
  id_text, result_of, is_update,
}

module _ (F : Floats) (c : Client F.D) (accepts : List String → String → Bool)
    (key secret : String) where
  -- What a property of sockets needs, to be kept by every step: it looks at neither the flags nor what
  -- was sent, and the changes of the map and of the events keep it.
  pub record IsKept (P : Socket F.D → Type 0) : Type 0 where
    pub flags :
        (s : Socket F.D) (ws connected authenticated running : Bool) (sent : List String)
        → P s
        → P (record s {
          ws = ws;
          connected = connected;
          authenticated = authenticated;
          running = running;
          sent = sent;
        })
    pub maps :
        (s : Socket F.D) (ids : List (String × String)) → P s → P (record s { order_id_map = ids })
    pub updates :
        (s : Socket F.D) (os : List c.json.J) → P s → P (take_updates F c accepts key secret s os)
    pub empties : (s : Socket F.D) → P s → P (record s { events = some [] })

  module _ (P : Socket F.D → Type 0) (kept : IsKept P) where
    pub if-kept : (b : Bool) (s t : Socket F.D) → P s → P t → P (if b then s else t)
    if-kept true s t hs ht = hs
    if-kept false s t hs ht = ht

    quiet-kept : (s : Socket F.D) (m : Result (Socket F.D)) → P s → Returns P m → P (quiet s m)
    unfolding quiet
    quiet-kept s (ok t) h k = k
    quiet-kept s (failed what) h k = h

    pub ws_write-kept :
        (s : Socket F.D) (m : String) → P s → P (ws_write F c accepts key secret s m)
    unfolding ws_write
    ws_write-kept s m h =
        if-kept (s.ws && s.connected) _ _
          (if-kept (accepts s.sent m) _ _ (kept.flags s _ _ _ _ _ h) (kept.flags s _ _ _ _ _ h)) h

    written-kept :
        (s : Socket F.D) (m : Result String)
        → P s
        → P (elim m as (λ _. Socket F.D) [
          | failed what ↦ s
          | ok message ↦ ws_write F c accepts key secret s message
        ])
    written-kept s (failed what) h = h
    written-kept s (ok message) h = ws_write-kept s message h

    subscribe_orders-kept :
        (s : Socket F.D) (ts : ℕ) → P s → P (subscribe_orders F c accepts key secret s ts)
    unfolding subscribe_orders
    subscribe_orders-kept s ts h =
        written-kept s (dumped c (subscription F c accepts key secret ts)) h

    on_login-kept :
        (s : Socket F.D) (ts : ℕ) (j : c.json.J) → P s → P (on_login F c accepts key secret s ts j)
    unfolding on_login
    on_login-kept s ts j h =
        if-kept _ _ _
          (elim s.events
            as (λ e. P (elim e as (λ _. Socket F.D) [
              | none ↦ record s { authenticated = true }
              | some q ↦
                  subscribe_orders F c accepts key secret (record s { authenticated = true }) ts
            ])) [
              | none ↦ kept.flags s _ _ _ _ _ h
              | some q ↦ subscribe_orders-kept _ ts (kept.flags s _ _ _ _ _ h)
            ])
          h

    on_order_place-kept :
        (s : Socket F.D) (j : c.json.J) → P s → P (on_order_place F c accepts key secret s j)
    unfolding on_order_place
    on_order_place-kept s j h =
        if-kept _ _ _
          (quiet-kept s _ h (
            Returns->>= P
              (id_text F c accepts key secret
                (c.json.field (result_of F c accepts key secret j) "id"))
              _
              λ gate_id.
                Returns->>= P
                  (get_text c (c.json.field (result_of F c accepts key secret j) "text")) _
                  λ client_id. kept.maps s (assign client_id gate_id s.order_id_map) h))
          h

    on_order_cancel-kept :
        (s : Socket F.D) (j : c.json.J) → P s → P (on_order_cancel F c accepts key secret s j)
    unfolding on_order_cancel
    on_order_cancel-kept s j h =
        if-kept _ _ _
          (quiet-kept s _ h (
            Returns->>= P (get_text c (c.json.field (result_of F c accepts key secret j) "text")) _
              λ client_id. kept.maps s (erase client_id s.order_id_map) h))
          h

    on_channel-kept :
        (s : Socket F.D) (ts : ℕ) (chan : String) (j : c.json.J)
        → P s
        → P (on_channel F c accepts key secret s ts chan j)
    unfolding on_channel
    on_channel-kept s ts chan j h =
        if-kept (str_eq chan "spot.login") _ _ (on_login-kept s ts j h) (
          if-kept (str_eq chan "spot.order_place") _ _ (on_order_place-kept s j h)
            (if-kept (str_eq chan "spot.order_cancel") _ _ (on_order_cancel-kept s j h) h))

    pub handle_message-kept :
        (s : Socket F.D) (ts : ℕ) (message : String)
        → P s
        → P (handle_message F c accepts key secret s ts message)
    unfolding handle_message on_document on_ping
    handle_message-kept s ts message h =
        elim (c.json.parse message)
          as (λ r. P (elim r as (λ _. Socket F.D) [
            | none ↦ s
            | some j ↦ on_document F c accepts key secret s ts j
          ])) [
            | none ↦ h
            | some j ↦ if-kept _ _ _ (ws_write-kept s _ h) (
                quiet-kept s _ h (
                  Returns->>= P (is_update F c accepts key secret s j) _ λ update.
                    Returns-if P update _ _ (λ _. kept.updates s _ h)
                      (λ _.
                        Returns-if P (c.json.contains j "header") _ _
                          (λ _.
                            Returns->>= P (value c (c.json.field j "header") "channel" "") _
                              λ chan. on_channel-kept s ts chan j h)
                          (λ _. h))))
          ]

    pub pair-kept :
        {R : Type 0} (b : Bool) (x y : R × Socket F.D) → P x.1 → P y.1 → P (if b then x else y).1
    pair-kept true x y hx hy = hx
    pair-kept false x y hx hy = hy
