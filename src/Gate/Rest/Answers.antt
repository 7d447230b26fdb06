-- ===== src/Gate/Rest/Answers.antt =====
-- What the REST helpers of Gate make of the answers.
use trade_station.Common.{◌≡◌, ◌↔◌, refl, ℕ, String, All}
use trade_station.Floats.{Floats}
use trade_station.Orders.{Side}
use trade_station.Rest.{ok}
use trade_station.Rest.Answers.{Client, accepted, value, get_text, refusal, open_order}
use trade_station.Rest.Outcomes.{
  IsNamed, IsSafe, caught-answer, caught-answer-IsSafe, refusal-IsRefusal,
}
use trade_station.Rest.Listing.{IsListed, chained-IsRead, fetched-IsListed}
use trade_station.Gate.Rest.{send_place, by_id, gate_place_rest, read_order, send_fetch, fetch_rest}

module _ (F : Floats) (c : Client F.D) (key secret : String) (now : ℕ) where
  -- An answer in which "id" names an order.
  abbrev pub IsPlaced : String → String → Type 0
  IsPlaced =
      IsNamed c (λ j. c.json.contains j "id") (λ j. get_text c (c.json.field j "id"))
        (λ raw j. refusal c j "message" raw) "OK"

  -- Placing an order over REST succeeds with an id exactly when the request was answered by a document
  -- whose "id" is that text; every other answer and every exception is a failure without an id.
  pub gate_place_rest-accepted :
      (side : Side) (symbol : String) (price qty : F.D) (id : String)
      → ((gate_place_rest F c key secret now side symbol price qty ≡ accepted id "OK") ↔ (
          (raw : String) × (send_place F c key secret now side symbol price qty ≡ ok raw)
          × IsPlaced raw id))
        × IsSafe (gate_place_rest F c key secret now side symbol price qty)
  unfolding gate_place_rest by_id
  gate_place_rest-accepted side symbol price qty id = (
    caught-answer c _ _ _ "OK" (λ raw j. refusal-IsRefusal c j "message" raw)
        (send_place F c key secret now side symbol price qty) id,
    caught-answer-IsSafe c _ _ _ "OK" (λ raw j. refusal-IsRefusal c j "message" raw)
        (send_place F c key secret now side symbol price qty),
  )

  -- Whatever is answered to a request for the open orders, what is listed are orders of Gate and of the
  -- symbol that was asked, each with an id.
  pub fetch_rest-IsListed :
      (symbol : String) → All (IsListed "Gate" symbol) (fetch_rest F c key secret now symbol)
  unfolding fetch_rest read_order open_order
  fetch_rest-IsListed symbol =
      fetched-IsListed c "Gate" symbol (read_order F c key secret now symbol)
        (λ j. c.json.is_array j) (λ j. c.json.elements j)
        (λ item.
          chained-IsRead "Gate" symbol (value c item "id" "") (value c item "side" "buy") _
            (λ i s. (refl, refl)))
        (send_fetch F c key secret now symbol)
