-- ===== src/Streams.antt =====
-- main.cpp: the trading part of the program, whose three sources of order events push to one queue: the
-- socket of Gate and the private streams of MEXC and BingX. The render thread drains it.
mod Examples
use trade_station.Common.{◌≡◌, ◌⊎◌, Bool, false, inl, inr, Option, some, none, String, List, [], ℕ}
use trade_station.Floats.{Floats}
use trade_station.Orders.{OrderEvent, SharedOrderEvents, drain}
use trade_station.Orders.Typed.{IsEventOf, IsOrderEvent, AllQueued}
use trade_station.Rest.Answers.{Client}
use trade_station.Gate.Socket as GateSocket
use trade_station.Gate.Socket.Keeping as GateKeeping
use trade_station.Gate.Socket.Steps as GateSteps
use trade_station.Gate.Socket.Updates.{take_updates-AllQueued}
use trade_station.Mexc.Stream as MexcStream
use trade_station.Mexc.Stream.Events as MexcEvents
use trade_station.Bingx.Stream as BingxStream
use trade_station.Bingx.Stream.Events as BingxEvents

-- The pointers that the three have are those of one queue: their fields `events` agree.
pub record Sources (D : Type 0) : Type 0 where
  pub gate : GateSocket.Socket D
  pub mexc : MexcStream.Stream D
  pub bingx : BingxStream.Stream D

-- All three see what has become of the queue.
unfoldable pub share : {D : Type 0} → Option (SharedOrderEvents D) → Sources D → Sources D
share events p = record {
  gate = record p.gate { events = events };
  mexc = record p.mexc { events = events };
  bingx = record p.bingx { events = events };
}

-- `SharedOrderEvents order_events;`, the trade manager with Gate's socket, and the two streams.
unfoldable pub started : {D : Type 0} → Sources D
started = record {
  gate = GateSocket.fresh (some []);
  mexc = record {
    events = some [];
    listen_key = "";
    running = false;
    connected = false;
    connecting = none;
    sent = [];
  };
  bingx = record {
    events = some [];
    listen_key = "";
    running = false;
    connected = false;
    connecting = none;
    sent = [];
  };
}

module _ (F : Floats) (gate mexc bingx : Client F.D) (accepts : List String → String → Bool)
    (gate_key gate_secret mexc_key mexc_secret bingx_key : String) where
  -- A step of one of them, the drain by the render thread included.
  pub data Step (p : Sources F.D) : Sources F.D → Type 0 where
    of_gate :
        {s : GateSocket.Socket F.D}
        → GateSteps.Step F gate accepts gate_key gate_secret p.gate s
        → Step p (share s.events (record p { gate = s }))
    of_mexc :
        {s : MexcStream.Stream F.D}
        → MexcEvents.Step F mexc mexc_key mexc_secret p.mexc s
        → Step p (share s.events (record p { mexc = s }))
    of_bingx :
        {s : BingxStream.Stream F.D}
        → BingxEvents.Step F bingx bingx_key p.bingx s
        → Step p (share s.events (record p { bingx = s }))

  pub data Steps (p : Sources F.D) : Sources F.D → Type 0 where
    here : Steps p p
    step : {q r : Sources F.D} → Steps p q → Step q r → Steps p r

  -- An event that one of the three owes the screen. Those of Gate and of MEXC name their order.
  abbrev pub IsMeant : OrderEvent F.D → Type 0
  IsMeant ev = IsOrderEvent "Gate" ev ⊎ (IsOrderEvent "MEXC" ev ⊎ IsEventOf "BingX" ev)

  -- What holds of the queue that all three see.
  record IsShared (p : Sources F.D) : Type 0 where
    by_gate : AllQueued IsMeant p.gate.events
    by_mexc : AllQueued IsMeant p.mexc.events
    by_bingx : AllQueued IsMeant p.bingx.events

  share-IsShared :
      (p : Sources F.D) (events : Option (SharedOrderEvents F.D))
      → AllQueued IsMeant events
      → IsShared (share events p)
  unfolding share
  share-IsShared p events h = record { by_gate = h; by_mexc = h; by_bingx = h }

  AllQueued-IsKept :
      GateKeeping.IsKept F gate accepts gate_key gate_secret (λ s. AllQueued IsMeant s.events)
  AllQueued-IsKept = record {
    flags = λ s _ _ _ _ _ h. h;
    maps = λ s _ h. h;
    updates = λ s os h.
        take_updates-AllQueued F gate accepts gate_key gate_secret IsMeant (λ ev. inl) s os h;
    empties = λ s h. tt;
  }

  Step-IsShared : {p q : Sources F.D} → Step p q → IsShared p → IsShared q
  Step-IsShared {p} (of_gate {s} st) h =
      share-IsShared (record p { gate = s }) s.events
        (GateSteps.step-kept F gate accepts gate_key gate_secret (λ n t. AllQueued IsMeant t.events)
          (λ n. AllQueued-IsKept) (λ n t k. k) (λ n t k. k) 0 st h.by_gate)
  Step-IsShared {p} (of_mexc {s} st) h =
      share-IsShared (record p { mexc = s }) s.events
        (MexcEvents.step-Kept F mexc mexc_key mexc_secret IsMeant (λ ev good. inr (inl good)) st
          h.by_mexc)
  Step-IsShared {p} (of_bingx {s} st) h =
      share-IsShared (record p { bingx = s }) s.events
        (BingxEvents.step-Kept F bingx bingx_key IsMeant (λ ev good. inr (inr good)) st h.by_bingx)

  Steps-IsShared : {p q : Sources F.D} → Steps p q → IsShared p → IsShared q
  Steps-IsShared here h = h
  Steps-IsShared (step ss st) h = Step-IsShared st (Steps-IsShared ss h)

  -- Whatever the exchanges send, and in whatever order the calls of the three sources and the drains come:
  -- each event that waits in their queue is of type new, update or finish and of Gate, MEXC or BingX, and
  -- one of Gate or MEXC names its order.
  pub queued-IsMeant : (p : Sources F.D) → Steps started p → AllQueued IsMeant p.gate.events
  unfolding started GateSocket.fresh
  queued-IsMeant p steps =
      (Steps-IsShared steps (record { by_gate = tt; by_mexc = tt; by_bingx = tt })).by_gate
