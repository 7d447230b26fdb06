-- ===== src/Orders/Typed.antt =====
-- What the order streams owe the screen: events of their exchange, of one of the three types.
use trade_station.Common.{◌≡◌, false, Option, none, some, String, [], ◌∷◌, All, All-append, ◌⊎◌}
use trade_station.Orders.{OrderEvent, SharedOrderEvents, push}
use trade_station.Text.{empty}

abbrev pub IsKind : String → Type 0
IsKind kind = (kind ≡ "new") ⊎ ((kind ≡ "update") ⊎ (kind ≡ "finish"))

pub record IsEventOf {D : Type 0} (exchange : String) (ev : OrderEvent D) : Type 0 where
  pub from_exchange : ev.exchange ≡ exchange
  pub kind : IsKind ev.event_type

-- An event that names its order.
pub record IsOrderEvent {D : Type 0} (exchange : String) (ev : OrderEvent D) : Type 0 where
  pub event : IsEventOf exchange ev
  pub named : empty ev.order_id ≡ false

-- What holds of every event in a queue; there is none behind a null pointer.
abbrev pub AllQueued :
    {D : Type 0} → (OrderEvent D → Type 0) → Option (SharedOrderEvents D) → Type 0
AllQueued P none = Unit
AllQueued P (some q) = All P q

-- What holds of an event, if there is one.
abbrev pub IfSome : {D : Type 0} → (OrderEvent D → Type 0) → Option (OrderEvent D) → Type 0
IfSome P none = Unit
IfSome P (some ev) = P ev

pub push-AllQueued :
    {D : Type 0} (P : OrderEvent D → Type 0) (events : Option (SharedOrderEvents D))
    (ev : OrderEvent D)
    → P ev
    → AllQueued P events
    → AllQueued P (elim events [ none ↦ none | some q ↦ some (push q ev) ])
unfolding push
push-AllQueued P none ev good h = tt
push-AllQueued P (some q) ev good h = All-append P q (ev ∷ []) h (good, tt)
