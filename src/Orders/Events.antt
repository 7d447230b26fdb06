-- ===== src/Orders/Events.antt =====
-- The event queue under any interleaving of pushes and drains.
use trade_station.Common.{◌≡◌, sym, ap, ◌∙◌, List, [], ◌∷◌, ◌++◌, append-nil, append_assoc}
use trade_station.Orders.{OrderEvent, SharedOrderEvents, push, drain}

-- What a stream thread or the render thread does with the queue.
pub data Access (D : Type 0) : Type 0 where
  pushes : OrderEvent D → Access D
  drains : Access D

module _ {D : Type 0} where
  -- The queue after a run of accesses, and all that the drains returned, in order.
  pub run : List (Access D) → SharedOrderEvents D → List (OrderEvent D) × SharedOrderEvents D
  run [] q = ([], q)
  run (pushes e ∷ xs) q = run xs (push q e)
  run (drains ∷ xs) q = let (out, q') = drain q in let (rest, q'') = run xs q' in (out ++ rest, q'')

  pub pushed : List (Access D) → List (OrderEvent D)
  pushed [] = []
  pushed (pushes e ∷ xs) = e ∷ pushed xs
  pushed (drains ∷ xs) = pushed xs

  -- However pushes and drains interleave, what has been drained so far and what is still queued
  -- are together the events that were queued or pushed, each once and in their order.
  pub run-pushed :
      (xs : List (Access D)) (q : SharedOrderEvents D)
      → (run xs q).0 ++ (run xs q).1 ≡ q ++ pushed xs
  unfolding run pushed push drain
  run-pushed [] q = sym (append-nil q)
  run-pushed (pushes e ∷ xs) q = run-pushed xs (q ++ (e ∷ [])) ∙ append_assoc q (e ∷ []) (pushed xs)
  run-pushed (drains ∷ xs) q =
      append_assoc q (run xs []).0 (run xs []).1 ∙ ap (◌++◌ q) (run-pushed xs [])
