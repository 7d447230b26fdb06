-- ===== src/Render/Lists.antt =====
-- ui/render.cpp: `trim_history` and `cap_placed_orders`, which bound a panel's list of orders.
pub mod Trim
pub mod Cap
pub mod Counting
use trade_station.Common.{
  ℕ, zero, suc, ◌+◌, ◌-◌, Bool, List, [], ◌∷◌, ltb, leb, ◌==◌, length, if◌then◌else◌,
}
use trade_station.Orders.{PlacedOrder}

module _ {D : Type 0} where
  abbrev pub count_done : List (PlacedOrder D) → ℕ
  count_done [] = 0
  count_done (o ∷ os) = (if o.cancelled then 1 else 0) + count_done os

  -- The loop of `trim_history`, from an iterator on; `n` is the number of done orders left.
  pub trim_from : ℕ → ℕ → List (PlacedOrder D) → List (PlacedOrder D)
  trim_from max_done n [] = []
  trim_from max_done n (o ∷ os) =
      let erased = trim_from max_done (n - 1) os in
      let kept = o ∷ trim_from max_done n os in
      if ltb max_done n then (if o.cancelled then erased else kept) else o ∷ os

  unfoldable pub trim_history : List (PlacedOrder D) → ℕ → List (PlacedOrder D)
  trim_history orders max_done = trim_from max_done (count_done orders) orders

  -- The sequence of the first order, or a smaller one that comes later.
  pub min_seq : ℕ → List (PlacedOrder D) → ℕ
  min_seq m [] = m
  min_seq m (o ∷ os) = min_seq (if ltb o.ui_seq m then o.ui_seq else m) os

  pub erase_seq : ℕ → List (PlacedOrder D) → List (PlacedOrder D)
  erase_seq m [] = []
  erase_seq m (o ∷ os) = if o.ui_seq == m then os else o ∷ erase_seq m os

  -- `v.erase(min_element(...))`: the first order with the least sequence goes. (On an empty vector
  -- this would be an error; the loop below does not reach it with a positive bound.)
  pub erase_oldest : List (PlacedOrder D) → List (PlacedOrder D)
  erase_oldest [] = []
  erase_oldest (o ∷ os) = erase_seq (min_seq o.ui_seq os) (o ∷ os)

  -- The loop of `cap_placed_orders`, with fuel: one round for each order suffices.
  pub cap_from : ℕ → ℕ → List (PlacedOrder D) → List (PlacedOrder D)
  cap_from zero max_n v = v
  cap_from (suc fuel) max_n v =
      let rest = cap_from fuel max_n (erase_oldest v) in if leb max_n (length v) then rest else v

  unfoldable pub cap_placed_orders : List (PlacedOrder D) → ℕ → List (PlacedOrder D)
  cap_placed_orders v max_n = cap_from (length v) max_n v
