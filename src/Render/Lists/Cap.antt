-- ===== src/Render/Lists/Cap.antt =====
-- `cap_placed_orders`: how many orders it leaves, and that the oldest go.
use trade_station.Common.{
  ℕ, zero, suc, ◌+◌, ◌-◌, ◌≤◌, ◌<◌, min, ◌≡◌, refl, sym, ap, ◌⊎◌, inl, inr, List, [], ◌∷◌, leb,
  length, if◌then◌else◌, arith, le_or_lt,
}
use trade_station.Orders.{PlacedOrder}
use trade_station.Render.Lists.{min_seq, erase_seq, erase_oldest, cap_from, cap_placed_orders}

module _ {D : Type 0} where
  -- Some order has the sequence.
  abbrev Has : ℕ → List (PlacedOrder D) → Type 0
  Has m [] = ⊥
  Has m (o ∷ os) = (o.ui_seq ≡ m) ⊎ Has m os

  min_seq_lem : (m : ℕ) (os : List (PlacedOrder D)) → (min_seq m os ≡ m) ⊎ Has (min_seq m os) os
  unfolding min_seq
  min_seq_lem m [] = inl refl
  min_seq_lem m (o ∷ os) = ground (arith, min_seq_lem o.ui_seq os, min_seq_lem m os)

  length-erase_seq :
      (m : ℕ) (os : List (PlacedOrder D)) → Has m os → length (erase_seq m os) + 1 ≡ length os
  unfolding erase_seq
  length-erase_seq m [] h = elim h [ ]
  length-erase_seq m (o ∷ os) h = ground (arith, length-erase_seq m os)

  length-erase_oldest :
      (o : PlacedOrder D) (os : List (PlacedOrder D)) → length (erase_oldest (o ∷ os)) ≡ length os
  unfolding erase_oldest
  length-erase_oldest o os = omega (arith, length-erase_seq (min_seq o.ui_seq os) (o ∷ os) there)
    where
      there : Has (min_seq o.ui_seq os) (o ∷ os)
      there = elim (min_seq_lem o.ui_seq os) [ inl e ↦ inl (sym e) | inr h ↦ inr h ]

  -- Every order is at least as new as `m`.
  unfoldable pub NotOlder : ℕ → List (PlacedOrder D) → Type 0
  NotOlder m [] = Unit
  NotOlder m (o ∷ os) = (m ≤ o.ui_seq) × NotOlder m os

  NotOlder-le : (m n : ℕ) (os : List (PlacedOrder D)) → m ≤ n → NotOlder n os → NotOlder m os
  unfolding NotOlder
  NotOlder-le m n [] h ns = tt
  NotOlder-le m n (o ∷ os) h (n1, ns) = (omega arith, NotOlder-le m n os h ns)

  min_seq_le : (m : ℕ) (os : List (PlacedOrder D)) → (min_seq m os ≤ m) × NotOlder (min_seq m os) os
  unfolding min_seq NotOlder
  min_seq_le m [] = (omega arith, tt)
  min_seq_le m (o ∷ os) = ground (arith, min_seq_le o.ui_seq os, min_seq_le m os)

  length-cap_from :
      (f k : ℕ) (v : List (PlacedOrder D))
      → 0 < k
      → length v ≤ f
      → length (cap_from f k v) ≡ min (length v) (k - 1)
  unfolding cap_from
  length-cap_from zero k v pos h = omega arith
  length-cap_from (suc f) k [] pos h = ground arith
  length-cap_from (suc f) k (o ∷ os) pos h =
      ground (arith, length-erase_oldest o os, length-cap_from f k (erase_oldest (o ∷ os)) pos)

  pub length-cap :
      (v : List (PlacedOrder D)) (k : ℕ)
      → 0 < k
      → length (cap_placed_orders v k) ≡ min (length v) (k - 1)
  unfolding cap_placed_orders
  length-cap v k pos = length-cap_from (length v) k v pos (omega arith)

  cap_from_short : (f k : ℕ) (v : List (PlacedOrder D)) → length v < k → cap_from f k v ≡ v
  unfolding cap_from
  cap_from_short zero k v h = refl
  cap_from_short (suc f) k v h = ground arith

  pub cap_placed_orders_short :
      (k : ℕ) (v : List (PlacedOrder D)) → length v < k → cap_placed_orders v k ≡ v
  unfolding cap_placed_orders
  cap_placed_orders_short k v h = cap_from_short (length v) k v h

  -- The orders that are at least as new as `m`.
  unfoldable pub newer : ℕ → List (PlacedOrder D) → List (PlacedOrder D)
  newer m [] = []
  newer m (o ∷ os) = if leb m o.ui_seq then o ∷ newer m os else newer m os

  newer-erase_seq :
      (m a : ℕ) (os : List (PlacedOrder D)) → a < m → newer m (erase_seq a os) ≡ newer m os
  unfolding newer erase_seq
  newer-erase_seq m a [] h = refl
  newer-erase_seq m a (o ∷ os) h = ground (arith, newer-erase_seq m a os h)

  newer_of_NotOlder : (m : ℕ) (os : List (PlacedOrder D)) → NotOlder m os → newer m os ≡ os
  unfolding newer NotOlder
  newer_of_NotOlder m [] ns = refl
  newer_of_NotOlder m (o ∷ os) (n, ns) = ground (arith, newer_of_NotOlder m os ns)

  newer-erase_oldest :
      (m : ℕ) (os : List (PlacedOrder D))
      → length (newer m os) < length os
      → newer m (erase_oldest os) ≡ newer m os
  unfolding erase_oldest NotOlder
  newer-erase_oldest m [] h = refl
  newer-erase_oldest m (o ∷ os) h = elim (le_or_lt m (min_seq o.ui_seq os)) [
    | inl p ↦ absurd (omega (arith, h, ap length (all_newer p)))
    | inr p ↦ newer-erase_seq m (min_seq o.ui_seq os) (o ∷ os) p
  ]
    where
      all_newer : m ≤ min_seq o.ui_seq os → newer m (o ∷ os) ≡ o ∷ os
      all_newer p =
          newer_of_NotOlder m (o ∷ os)
            (NotOlder-le m (min_seq o.ui_seq os) (o ∷ os) p (min_seq_le o.ui_seq os))

  newer-cap_from :
      (f k m : ℕ) (v : List (PlacedOrder D))
      → length (newer m v) < k
      → newer m (cap_from f k v) ≡ newer m v
  unfolding cap_from
  newer-cap_from zero k m v h = refl
  newer-cap_from (suc f) k m v h =
      ground (arith, newer-erase_oldest m v, newer-cap_from f k m (erase_oldest v))

  -- With room for at least one order, capping leaves less than `k` orders, and a list that is
  -- short enough as it is long. If less than `k` orders are at least as new as `m`, all of these
  -- survive, in their places: only older ones go.
  pub cap_placed_orders_lem :
      (v : List (PlacedOrder D)) (k m : ℕ)
      → 0 < k
      → length (newer m v) < k
      → (length (cap_placed_orders v k) ≡ min (length v) (k - 1))
        × (newer m (cap_placed_orders v k) ≡ newer m v)
  unfolding cap_placed_orders
  cap_placed_orders_lem v k m pos h = (length-cap v k pos, newer-cap_from (length v) k m v h)
