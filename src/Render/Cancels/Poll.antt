-- ===== src/Render/Cancels/Poll.antt =====
-- The poll of the cancellations of single orders: when it is defined, and what it does then.
use trade_station.Common.{
  ℕ, ◌+◌, ◌≤◌, ◌≡◌, refl, sym, Bool, false, ◌&&◌, ◌||◌, List, [], ◌∷◌, ◌++◌, map, ltb,
  if◌then◌else◌, Option, none, some, arith, append_assoc, append-nil,
}
use trade_station.Orders.{OrderResult, PlacedOrder}
use trade_station.Render.Lists.{count_done}
use trade_station.Render.Cancels.{
  on_cancelled, answer, turn, poll_row, is_success, poll_from, poll_cancels,
}

module _ {D : Type 0} where
  unfoldable pub any_success : List (PlacedOrder D) → Bool
  any_success [] = false
  any_success (o ∷ os) = is_success (answer o) || any_success os

  unfoldable done : PlacedOrder D → ℕ
  done o = if o.cancelled then 1 else 0

  done-turn : (o : PlacedOrder D) (a : Option OrderResult) → done o ≤ done (turn o a)
  unfolding done turn on_cancelled
  done-turn o none = omega arith
  done-turn o (some r) = ground arith

  done-turn_failed :
      (o : PlacedOrder D) (a : Option OrderResult) → is_success a ≡ false → done (turn o a) ≡ done o
  unfolding done turn on_cancelled is_success
  done-turn_failed o none h = refl
  done-turn_failed o (some r) h = ground (arith, h)

  count_done-map :
      (os : List (PlacedOrder D))
      → (count_done os ≤ count_done (map poll_row os))
        × (any_success os ≡ false → count_done (map poll_row os) ≡ count_done os)
  unfolding any_success poll_row done
  count_done-map [] = (omega arith, λ h. refl)
  count_done-map (o ∷ os) =
      let (below, same) = count_done-map os in
      (
        omega (arith, below, done-turn o (answer o)),
        λ h. ground (arith, h, same, done-turn_failed o (answer o)),
      )

  count_done-append :
      (xs ys : List (PlacedOrder D)) → count_done (xs ++ ys) ≡ count_done xs + count_done ys
  count_done-append [] ys = omega arith
  count_done-append (x ∷ xs) ys = omega (arith, count_done-append xs ys)

  -- What the loop comes to, if no row is erased in it.
  polled : List (PlacedOrder D) → List (PlacedOrder D) → Option (List (PlacedOrder D))
  polled before os =
      if any_success os && ltb 20 (count_done (before ++ map poll_row os))
      then none
      else some (before ++ map poll_row os)

  regroup :
      (before os : List (PlacedOrder D)) (o : PlacedOrder D)
      → (before ++ (poll_row o ∷ [])) ++ map poll_row os ≡ before ++ map poll_row (o ∷ os)
  regroup before os o = append_assoc before (poll_row o ∷ []) (map poll_row os)

  -- One turn, with `m` done rows when it ends and `n` at the end of the loop.
  one_turn :
      (first others : Bool) (m n : ℕ) (rest : Option (List (PlacedOrder D)))
      (all : List (PlacedOrder D))
      → rest ≡ (if others && ltb 20 n then none else some all)
      → m ≤ n
      → (others ≡ false → n ≡ m)
      → (if first && ltb 20 m then none else rest)
        ≡ (if (first || others) && ltb 20 n then none else some all)
  one_turn first others m n rest all e below same = ground (arith, e, below, same)

  poll_from-polled : (before os : List (PlacedOrder D)) → poll_from before os ≡ polled before os
  unfolding poll_from polled any_success
  poll_from-polled before [] = rw (append-nil before) refl
  poll_from-polled before (o ∷ os) =
      let (below, same) = count_done-map os in
      one_turn (is_success (answer o)) (any_success os) (count_done (before ++ (poll_row o ∷ os)))
        (count_done (before ++ map poll_row (o ∷ os))) (poll_from (before ++ (poll_row o ∷ [])) os)
        (before ++ map poll_row (o ∷ os))
        (rw (sym (regroup before os o)) (poll_from-polled (before ++ (poll_row o ∷ [])) os))
        (omega (
          arith,
          below,
          count_done-append before (poll_row o ∷ os),
          count_done-append before (map poll_row (o ∷ os)),
        ))
        (λ h. omega (
          arith,
          same h,
          count_done-append before (poll_row o ∷ os),
          count_done-append before (map poll_row (o ∷ os)),
        ))

  -- The poll gives each row the answer that has come for it, unless a cancellation has succeeded and more
  -- than 20 rows are done afterwards: then rows are erased under the loop.
  pub poll_cancels_lem :
      (os : List (PlacedOrder D))
      → poll_cancels os ≡ (
          if any_success os && ltb 20 (count_done (map poll_row os))
          then none
          else some (map poll_row os))
  unfolding poll_cancels polled
  poll_cancels_lem os = poll_from-polled [] os
