-- ===== src/Gate/Socket/Examples.antt =====
-- A socket of Gate through which an order goes, and its answer.
use mathlib.Core.Bool.{false≢true}
use trade_station.Common.{
  ℕ, zero, suc, ◌≡◌, ◌≢◌, arith, refl, sym, ◌∙◌, ap, true, some, String, List, [], Bool,
}
use trade_station.Common.Int.{ℤ, pos, negsuc}
use trade_station.Orders.{Side}
use trade_station.Feed.Sample.{naturals, Value, entry, words, item, end_items, end_entries}
use trade_station.Rest.Answers.{Client, accepted, dumped, value, get_text}
use trade_station.Rest.Splitting.{lacks}
use trade_station.Rest.Sample.{client, strokes}
use trade_station.Gate.Socket.{Socket, generate_req_id}
use trade_station.Gate.Socket.Messages.{handle_message, has_result, id_text}
use trade_station.Gate.Socket.Requests.{place_order_ws, cancel_order_ws, send_request, cancel_param}
use trade_station.Gate.Socket.Steps.{Steps, requests}
use trade_station.Gate.Socket.Ids.{
  IsPrinter, IsPlaceAnswer, order_ids-distinct, cancel-place_answer,
}

abbrev takes_all : List String → String → Bool
takes_all sent message = true

-- The socket before any request, with the connection up or down.
abbrev socket : Bool → Socket ℕ
socket connected = record {
  events = some [];
  ws = true;
  connected = connected;
  authenticated = true;
  running = true;
  req_counter = 0;
  order_id_map = [];
  sent = [];
}

-- An order of ours that is finished.
abbrev finished : Client ℕ
finished = client (
    entry "channel" (words "spot.orders") (
      entry "event" (words "update") (
        entry "result"
          (item
            (entry "event" (words "finish")
              (entry "id" (words "900") (entry "text" (words "t-11-1") end_entries)))
            end_items)
          end_entries)))

strokes_lack : (n : ℕ) → lacks b'-' (strokes n) ≡ true
unfolding lacks
strokes_lack zero = refl
strokes_lack (suc n) = strokes_lack n

strokes_injective : (n m : ℕ) → strokes n ≡ strokes m → n ≡ m
strokes_injective zero zero e = refl
strokes_injective zero (suc m) e = cc
strokes_injective (suc n) zero e = cc
strokes_injective (suc n) (suc m) e = ap suc (strokes_injective n m cc)

printed_injective : (i j : ℤ) → finished.print_long i ≡ finished.print_long j → i ≡ j
unfolding lacks
printed_injective (pos n) (pos m) e = ap pos (strokes_injective n m e)
printed_injective (pos n) (negsuc m) e =
    absurd (false≢true (sym (ap (lacks b'-') e) ∙ strokes_lack n))
printed_injective (negsuc n) (pos m) e = absurd (false≢true (ap (lacks b'-') e ∙ strokes_lack m))
printed_injective (negsuc n) (negsuc m) e = ap negsuc (strokes_injective n m cc)

printer : IsPrinter finished.print_long
printer = record { unsigned = strokes_lack; injective = printed_injective }

order_ids-distinct_example :
    (place_order_ws naturals finished takes_all "k" "s"
      (socket true)
      1
      2
      Side.buy
      "BTC_USDT"
      3
      5).0.order_id
    ≢ (place_order_ws naturals finished takes_all "k" "s"
        (place_order_ws naturals finished takes_all "k" "s"
          (socket true)
          1
          2
          Side.buy
          "BTC_USDT"
          3
          5).1
        1
        2
        Side.buy
        "BTC_USDT"
        3
        5).0.order_id
unfolding requests place_order_ws send_request accepted dumped
order_ids-distinct_example =
    order_ids-distinct naturals finished takes_all "k" "s" (socket true)
      (place_order_ws naturals finished takes_all "k" "s" (socket true) 1 2 Side.buy "BTC_USDT" 3
        5).1
      1 2 1 2 Side.buy Side.buy "BTC_USDT" "BTC_USDT" 3 5 3 5 printer Steps.here (omega arith) refl
      refl

-- The answer to an order that was placed.
abbrev answer : Value
answer = entry "header" (entry "channel" (words "spot.order_place") end_entries) (
    entry "data"
      (entry "result" (entry "id" (words "900") (entry "text" (words "t-11-1") end_entries))
        end_entries)
      end_entries)

answer-IsPlaceAnswer :
    IsPlaceAnswer naturals (client answer) takes_all "k" "s" answer "t-11-1" "900"
unfolding value get_text has_result id_text
answer-IsPlaceAnswer = record {
  no_channel = refl;
  is_object = refl;
  header = refl;
  channel = refl;
  result = refl;
  has_id = refl;
  has_text = refl;
  id = refl;
  client = refl;
}

cancel-place_answer_example :
    cancel_order_ws naturals
      (client answer)
      takes_all
      "k"
      "s"
      (handle_message naturals (client answer) takes_all "k" "s" (socket true) 3 "{}")
      4
      5
      "BTC_USDT"
      "t-11-1"
    ≡ send_request naturals
        (client answer)
        takes_all
        "k"
        "s"
        (accepted "t-11-1" "Cancel sent")
        (generate_req_id naturals
          (client answer)
          takes_all
          "k"
          "s"
          (handle_message naturals (client answer) takes_all "k" "s" (socket true) 3 "{}")
          5).1
        4
        "spot.order_cancel"
        (generate_req_id naturals (client answer) takes_all "k" "s" (socket true) 5).0
        (cancel_param naturals (client answer) takes_all "k" "s" "900" "BTC_USDT")
cancel-place_answer_example =
    cancel-place_answer naturals (client answer) takes_all "k" "s" (socket true) 3 4 5 "{}"
      "BTC_USDT" answer "t-11-1" "900" refl answer-IsPlaceAnswer
