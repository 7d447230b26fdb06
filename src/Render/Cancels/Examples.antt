-- ===== src/Render/Cancels/Examples.antt =====
-- Twenty done rows, and a row whose cancellation has just succeeded.
use trade_station.Common.{ℕ, zero, suc, ◌≡◌, none, true, List, [], ◌∷◌}
use trade_station.Orders.{Future, PlacedOrder, blank_order}
use trade_station.Render.Cancels.{on_cancelled, answer, turn, poll_row, is_success, poll_cancels}
use trade_station.Render.Cancels.Poll.{any_success, poll_cancels_lem}

abbrev done_row : PlacedOrder ℕ
done_row = record (blank_order 0) { cancelled = true }

abbrev answered_row : PlacedOrder ℕ
answered_row = record (blank_order 0) {
  cancelling = true;
  cancel_fut = Future.ready (record { success = true; order_id = ""; message = "" });
}

abbrev done_before : ℕ → List (PlacedOrder ℕ) → List (PlacedOrder ℕ)
done_before zero os = os
done_before (suc n) os = done_row ∷ done_before n os

poll_cancels_example : poll_cancels (done_before 20 (answered_row ∷ [])) ≡ none
unfolding any_success answer turn poll_row is_success on_cancelled blank_order
poll_cancels_example = poll_cancels_lem (done_before 20 (answered_row ∷ []))
