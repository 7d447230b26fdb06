-- ===== src/Feed/Connection.antt =====
-- The callbacks of a handler's connection, which the four handlers share. `accepts` says of a message
-- whether websocketpp sends it: client.send throws otherwise, or sets its error code if it has one.
use trade_station.Common.{
  ◌≡◌, refl, Bool, true, false, ◌&&◌, ◌||◌, not, List, [], ◌∷◌, if◌then◌else◌, Bool-cases, inl, inr,
  arith,
}
use trade_station.Feed.{Message, Exchange}

-- What a callback does: the handler, the messages sent, whether a timer is set, and whether an exception
-- leaves it.
pub record Called (J : Type 0) : Type 0 where
  pub handler : Exchange
  pub sent : List (Message J)
  pub timer : Bool
  pub throws : Bool

-- `on_close` and `on_fail`; `disconnect` also stops the client. The same is `Exchange::stop`.
unfoldable pub stopped : Exchange → Exchange
stopped h = record h { running = false }

module _ {J : Type 0} (accepts : Message J → Bool) where
  -- Messages sent in turn, by calls that throw, and whether all went through.
  unfoldable pub send_all : List (Message J) → List (Message J) × Bool
  send_all [] = ([], true)
  send_all (m ∷ ms) =
      let rest = send_all ms in if accepts m then (m ∷ rest.0, rest.1) else ([], false)

  -- `on_open`, with the messages of `subscribe` and `subscribe_trades`; `pings` tells whether it calls
  -- `schedule_ping`.
  unfoldable pub opened : Bool → List (Message J) → Exchange → Called J
  opened pings subscriptions h =
      let (sent, ok) = send_all subscriptions in
      record {
        handler = record h { running = true };
        sent = sent;
        timer = ok && pings;
        throws = not ok;
      }

  -- The timer of `schedule_ping`, with its error and the message it sends; it is set again if the message
  -- is sent.
  unfoldable pub timed_out : Bool → Message J → Exchange → Called J
  timed_out ec ping h =
      let sends = not (ec || not h.running) && accepts ping in
      record { handler = h; sent = if sends then ping ∷ [] else []; timer = sends; throws = false }

  send_all-sent : (ms : List (Message J)) → (send_all ms).1 ≡ true → (send_all ms).0 ≡ ms
  unfolding send_all
  send_all-sent [] h = refl
  send_all-sent (m ∷ ms) h = elim (Bool-cases (accepts m)) [
    | inl e ↦ simp (e, send_all-sent ms (ground (arith, h, e)))
    | inr e ↦ ground (arith, h, e)
  ]

  -- A connection that has been opened without an exception has sent all of its subscriptions, and its handler
  -- runs.
  opened-subscribed :
      (pings : Bool) (subscriptions : List (Message J)) (h : Exchange)
      → (opened pings subscriptions h).throws ≡ false
      → ((opened pings subscriptions h).sent ≡ subscriptions)
        × ((opened pings subscriptions h).handler.running ≡ true)
  unfolding opened
  opened-subscribed pings subscriptions h e =
      (send_all-sent subscriptions (ground (arith, e)), refl)
