-- ===== src/Streams/Examples.antt =====
-- A run of the three sources: Gate's socket connects and reports a finished order, MEXC's stream a new one.
use trade_station.Common.{ℕ, true, none, some, String, List, Bool, Option}
use trade_station.Orders.Typed.{AllQueued}
use trade_station.Feed.Sample.{naturals, entry, words, item, end_items, end_entries}
use trade_station.Rest.Answers.{Client}
use trade_station.Rest.Sample.{client}
use trade_station.Gate.Socket.Messages.{handle_message, try_connect}
use trade_station.Gate.Socket.Steps as GateSteps
use trade_station.Mexc.Stream.{Wrapper, PrivateOrders, on_message}
use trade_station.Mexc.Stream.Events as MexcEvents
use trade_station.Streams.{Sources, share, started, Step, Steps, IsMeant, queued-IsMeant}

abbrev takes_all : List String → String → Bool
takes_all sent message = true

abbrev finished : Client ℕ
finished = client (
    entry "channel" (words "spot.orders") (
      entry "event" (words "update") (
        entry "result"
          (item
            (entry "event" (words "finish")
              (entry "id" (words "900") (entry "text" (words "t-11-1") end_entries)))
            end_items)
          end_entries)))

abbrev gate_up : Sources ℕ
gate_up =
    let s =
      try_connect naturals finished takes_all "k" "s" (started {D = ℕ}).gate 1 2 true true none in
    share s.events (record (started {D = ℕ}) { gate = s })

abbrev gate_reported : Sources ℕ
gate_reported =
    let s = handle_message naturals finished takes_all "k" "s" gate_up.gate 3 "{}" in
    share s.events (record gate_up { gate = s })

abbrev report : PrivateOrders
report = record {
  id = "77";
  client_id = "";
  status = 1;
  price = "3";
  quantity = "2";
  cumulative_quantity = "0";
  avg_price = "0";
  trade_type = 1;
  market = none;
  symbol_id = none;
  market_id = none;
}

abbrev parse : String → Option Wrapper
parse raw =
    some (record { private_orders = some report; symbol = some "BTCUSDT"; symbol_id = none })

abbrev mexc_reported : Sources ℕ
mexc_reported =
    let s = on_message naturals finished "k" "s" parse gate_reported.mexc "frame" in
    share s.events (record gate_reported { mexc = s })

queued-IsMeant_example :
    AllQueued
      (IsMeant naturals finished finished finished takes_all "k" "s" "k" "s" "k")
      mexc_reported.gate.events
queued-IsMeant_example =
    queued-IsMeant naturals finished finished finished takes_all "k" "s" "k" "s" "k" mexc_reported (
      Steps.step
        (Steps.step
          (Steps.step Steps.here (Step.of_gate (GateSteps.Step.connects 1 2 true true none)))
          (Step.of_gate (GateSteps.Step.handles 3 "{}")))
        (Step.of_mexc (MexcEvents.Step.receives parse "frame")))
