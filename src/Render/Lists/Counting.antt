-- ===== src/Render/Lists/Counting.antt =====
-- ui/render.cpp: how many rows of a list are open for an order id, under the list's operations.
use trade_station.Common.{
  ℕ, zero, suc, ◌+◌, ◌-◌, ◌≤◌, ◌≡◌, refl, ◌&&◌, not, String, List, [], modify, ◌∷◌, ◌++◌, length,
  str_eq, if◌then◌else◌, arith,
}
use trade_station.Orders.{PlacedOrder}
use trade_station.Render.Lists.{
  count_done, trim_from, trim_history, min_seq, erase_seq, erase_oldest, cap_from,
  cap_placed_orders,
}

module _ {D : Type 0} where
  unfoldable pub open_for : String → PlacedOrder D → ℕ
  open_for id o = if not o.cancelled && str_eq o.order_id id then 1 else 0

  unfoldable pub open_count : String → List (PlacedOrder D) → ℕ
  open_count id [] = 0
  open_count id (o ∷ os) = open_for id o + open_count id os

  pub open_count-append :
      (id : String) (xs ys : List (PlacedOrder D))
      → open_count id (xs ++ ys) ≡ open_count id xs + open_count id ys
  unfolding open_count
  open_count-append id [] ys = omega arith
  open_count-append id (x ∷ xs) ys = omega (arith, open_count-append id xs ys)

  open_count-erase_seq :
      (id : String) (m : ℕ) (os : List (PlacedOrder D))
      → open_count id (erase_seq m os) ≤ open_count id os
  unfolding open_count erase_seq
  open_count-erase_seq id m [] = omega arith
  open_count-erase_seq id m (o ∷ os) = ground (arith, open_count-erase_seq id m os)

  open_count-erase_oldest :
      (id : String) (os : List (PlacedOrder D)) → open_count id (erase_oldest os) ≤ open_count id os
  unfolding erase_oldest
  open_count-erase_oldest id [] = omega arith
  open_count-erase_oldest id (o ∷ os) = open_count-erase_seq id (min_seq o.ui_seq os) (o ∷ os)

  open_count-cap_from :
      (id : String) (f k : ℕ) (os : List (PlacedOrder D))
      → open_count id (cap_from f k os) ≤ open_count id os
  unfolding cap_from
  open_count-cap_from id zero k os = omega arith
  open_count-cap_from id (suc f) k os =
      ground (arith, open_count-erase_oldest id os, open_count-cap_from id f k (erase_oldest os))

  pub open_count-cap :
      (id : String) (k : ℕ) (os : List (PlacedOrder D))
      → open_count id (cap_placed_orders os k) ≤ open_count id os
  unfolding cap_placed_orders
  open_count-cap id k os = open_count-cap_from id (length os) k os

  open_count-trim_from :
      (id : String) (k n : ℕ) (os : List (PlacedOrder D))
      → open_count id (trim_from k n os) ≡ open_count id os
  unfolding open_count trim_from open_for
  open_count-trim_from id k n [] = refl
  open_count-trim_from id k n (o ∷ os) =
      ground (arith, open_count-trim_from id k (n - 1) os, open_count-trim_from id k n os)

  pub open_count-trim :
      (id : String) (k : ℕ) (os : List (PlacedOrder D))
      → open_count id (trim_history os k) ≡ open_count id os
  unfolding trim_history
  open_count-trim id k os = open_count-trim_from id k (count_done os) os

  pub open_count-modify :
      (id : String) (i : ℕ) (f : PlacedOrder D → PlacedOrder D) (os : List (PlacedOrder D))
      → ((o : PlacedOrder D) → open_for id (f o) ≤ open_for id o)
      → open_count id (modify i f os) ≤ open_count id os
  unfolding open_count
  open_count-modify id i f [] h = omega arith
  open_count-modify id zero f (o ∷ os) h = omega (arith, h o)
  open_count-modify id (suc i) f (o ∷ os) h = omega (arith, open_count-modify id i f os h)

  length-trim_from : (k n : ℕ) (os : List (PlacedOrder D)) → length (trim_from k n os) ≤ length os
  unfolding trim_from
  length-trim_from k n [] = omega arith
  length-trim_from k n (o ∷ os) =
      ground (arith, length-trim_from k (n - 1) os, length-trim_from k n os)

  pub length-trim : (k : ℕ) (os : List (PlacedOrder D)) → length (trim_history os k) ≤ length os
  unfolding trim_history
  length-trim k os = length-trim_from k (count_done os) os

  pub count_done-append_one :
      (os : List (PlacedOrder D)) (o : PlacedOrder D)
      → count_done (os ++ (o ∷ [])) ≤ count_done os + 1
  count_done-append_one [] o = ground arith
  count_done-append_one (p ∷ os) o = ground (arith, count_done-append_one os o)
