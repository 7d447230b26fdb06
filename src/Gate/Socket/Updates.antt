-- ===== src/Gate/Socket/Updates.antt =====
-- The order updates of Gate: which events they give, and what they do to the map of ids.
use trade_station.Common.{
  ◌≡◌, refl, Bool, false, ◌||◌, inl, inr, Option, some, none, String, List, [], ◌∷◌, arith, str_eq,
}
use trade_station.Floats.{Floats}
use trade_station.Orders.{OrderEvent}
use trade_station.Orders.Typed.{IsOrderEvent, AllQueued, IfSome, push-AllQueued}
use trade_station.Text.{empty}
use trade_station.Rest.{ok, failed, Returns, Returns->>=, Returns-if}
use trade_station.Rest.Answers.{Client, value}
use trade_station.Gate.Socket.{
  Socket, typed_event, read_update, filled_part, take_event, take_updates,
}

module _ (F : Floats) (c : Client F.D) (accepts : List String → String → Bool)
    (key secret : String) where
  -- The event, if there is one, names its order and is one of Gate's.
  abbrev IsGood : Option (OrderEvent F.D) → Type 0
  IsGood = IfSome (IsOrderEvent "Gate")

  typed_event-IsGood :
      (kind : String) (o : c.json.J) (ev : OrderEvent F.D)
      → ev.exchange ≡ "Gate"
      → empty ev.order_id ≡ false
      → Returns IsGood (typed_event F c accepts key secret kind o ev)
  unfolding typed_event filled_part
  typed_event-IsGood kind o ev from named =
      Returns-if IsGood (str_eq kind "put") _ _
        (λ put. Returns->>= IsGood (value c o "side" "buy") _ (λ side. record {
          event = record { from_exchange = from; kind = inl refl };
          named = named;
        }))
        (λ _.
          Returns-if IsGood (str_eq kind "update") _ _
            (λ _. record {
              event = record { from_exchange = from; kind = inr (inl refl) };
              named = named;
            })
            (λ _.
              Returns-if IsGood (str_eq kind "finish") _ _
                (λ _. record {
                  event = record { from_exchange = from; kind = inr (inr refl) };
                  named = named;
                })
                (λ _. tt)))

  read_update-IsGood : (o : c.json.J) → Returns IsGood (read_update F c accepts key secret o)
  unfolding read_update
  read_update-IsGood o = Returns->>= IsGood (value c o "event" "") _ λ ev_type.
      Returns->>= IsGood (value c o "finish_as" "") _ λ finish_as.
        Returns->>= IsGood (value c o "id" "") _ λ gate_id.
          Returns->>= IsGood (value c o "text" "") _ λ client_id.
            Returns-if IsGood (empty ev_type || empty gate_id) _ _ (λ _. tt)
              λ full.
                Returns->>= IsGood (value c o "currency_pair" "") _
                  λ symbol. typed_event-IsGood ev_type o _ refl (ground arith)

  pub take_updates-AllQueued :
      (Q : OrderEvent F.D → Type 0)
      → ((ev : OrderEvent F.D) → IsOrderEvent "Gate" ev → Q ev)
      → (s : Socket F.D) (os : List c.json.J) → AllQueued Q s.events
      → AllQueued Q (take_updates F c accepts key secret s os).events
  unfolding take_updates take_event
  take_updates-AllQueued Q meant s [] h = h
  take_updates-AllQueued Q meant s (o ∷ os) h =
      elim (read_update F c accepts key secret o)
          as (λ r.
            Returns IsGood r
            → AllQueued Q
                (elim r as (λ _. Socket F.D) [
                  | failed what ↦ s
                  | ok none ↦ take_updates F c accepts key secret s os
                  | ok (some ev) ↦
                      take_updates F c accepts key secret (take_event F c accepts key secret s ev)
                        os
                ]).events) [
                  | failed what ↦ λ _. h
                  | ok none ↦ λ _. take_updates-AllQueued Q meant s os h
                  | ok (some ev) ↦ λ good.
                      take_updates-AllQueued Q meant (take_event F c accepts key secret s ev) os
                        (push-AllQueued Q s.events ev (meant ev good) h)
                ]
        (read_update-IsGood o)
