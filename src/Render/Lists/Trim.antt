-- ===== src/Render/Lists/Trim.antt =====
-- `trim_history`: what it keeps.
use trade_station.Common.{
  ◌≤◌, ℕ, ◌-◌, min, ◌≡◌, refl, sym, ap, List, [], ◌∷◌, length, drop, length-drop, drop-nil,
  drop_at_suc, drop_at_zero, if◌then◌else◌, arith,
}
use trade_station.Orders.{PlacedOrder}
use trade_station.Render.Lists.{count_done, trim_from, trim_history}

module _ {D : Type 0} where
  unfoldable pub open_orders : List (PlacedOrder D) → List (PlacedOrder D)
  open_orders [] = []
  open_orders (o ∷ os) = if o.cancelled then open_orders os else o ∷ open_orders os

  unfoldable pub done_orders : List (PlacedOrder D) → List (PlacedOrder D)
  done_orders [] = []
  done_orders (o ∷ os) = if o.cancelled then o ∷ done_orders os else done_orders os

  pub length-done_orders : (os : List (PlacedOrder D)) → length (done_orders os) ≡ count_done os
  unfolding done_orders
  length-done_orders [] = refl
  length-done_orders (o ∷ os) = ground (arith, length-done_orders os)

  open_orders-trim_from :
      (k n : ℕ) (os : List (PlacedOrder D)) → open_orders (trim_from k n os) ≡ open_orders os
  unfolding trim_from open_orders
  open_orders-trim_from k n [] = refl
  open_orders-trim_from k n (o ∷ os) =
      ground (arith, open_orders-trim_from k (n - 1) os, open_orders-trim_from k n os)

  done_orders-trim_from :
      (k n : ℕ) (os : List (PlacedOrder D))
      → n ≡ count_done os
      → done_orders (trim_from k n os) ≡ drop (n - k) (done_orders os)
  unfolding trim_from done_orders
  done_orders-trim_from k n [] e = sym (drop-nil (n - k))
  done_orders-trim_from k n (o ∷ os) e = ground (
    arith,
    done_orders-trim_from k (n - 1) os,
    done_orders-trim_from k n os,
    drop_at_suc (n - k) (n - 1 - k) o (done_orders os),
    drop_at_zero (n - k) (done_orders os),
    drop_at_zero (n - k) (o ∷ done_orders os),
  )

  trim_from_short : (k n : ℕ) (os : List (PlacedOrder D)) → n ≤ k → trim_from k n os ≡ os
  unfolding trim_from
  trim_from_short k n [] h = refl
  trim_from_short k n (o ∷ os) h = ground arith

  pub trim_history_short :
      (k : ℕ) (os : List (PlacedOrder D)) → count_done os ≤ k → trim_history os k ≡ os
  unfolding trim_history
  trim_history_short k os h = trim_from_short k (count_done os) os h

  -- Trimming drops no open order and changes none; of the done orders it drops the ones first in
  -- the list, as many as there are beyond the bound.
  pub trim_history_lem :
      (os : List (PlacedOrder D)) (k : ℕ)
      → (open_orders (trim_history os k) ≡ open_orders os)
        × (done_orders (trim_history os k) ≡ drop (count_done os - k) (done_orders os))
        × (count_done (trim_history os k) ≡ min k (count_done os))
  unfolding trim_history
  trim_history_lem os k = (
    open_orders-trim_from k (count_done os) os,
    kept,
    omega (
      arith,
      length-done_orders (trim_from k (count_done os) os),
      length-done_orders os,
      ap length kept,
      length-drop (count_done os - k) (done_orders os),
    ),
  )
    where
      kept :
          done_orders (trim_from k (count_done os) os) ≡ drop (count_done os - k) (done_orders os)
      kept = done_orders-trim_from k (count_done os) os refl
