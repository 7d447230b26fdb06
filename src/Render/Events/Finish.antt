-- ===== src/Render/Events/Finish.antt =====
-- ui/render.cpp: "finish" events, for orders that are open and for those that are not.
use mathlib.Core.Option
use mathlib.Core.Option.{some-injective}
use trade_station.Common.{
  ℕ, zero, suc, ◌+◌, ◌≤◌, ◌<◌, ◌≡◌, ◌≢◌, refl, ap, ◌∙◌, inl, inr, true, false, Option, none, some,
  List, [], ◌∷◌, ◌++◌, modify, length, arith, Option-cases,
}
use trade_station.Floats.{Floats}
use trade_station.Orders.{PlacedOrder, OrderEvent, next_placed_order_seq}
use trade_station.Render.Lists.{cap_placed_orders, trim_history, count_done}
use trade_station.Render.Lists.Cap.{cap_placed_orders_short}
use trade_station.Render.Lists.Trim.{trim_history_short}
use trade_station.Render.Lists.Counting.{
  open_for, open_count, open_count-append, open_count-cap, open_count-trim, count_done-append_one,
}
use trade_station.Render.Events.OpenRows.{open_count_of_find_open, open_for-finish}
use trade_station.Render.Events.{
  row_of, append_row, is_for, find_open, finish, on_row, on_existing, on_event,
}
use trade_station.Text.{empty}

modify-length :
    {A : Type 0} (f : A → A) (xs : List A) (x : A)
    → modify (length xs) f (xs ++ (x ∷ [])) ≡ xs ++ (f x ∷ [])
modify-length f [] x = refl
modify-length f (y ∷ xs) x = ap (◌∷◌ y) (modify-length f xs x)

map-suc_zero : (m : Option ℕ) → Option.map suc m ≢ some 0
map-suc_zero none h = cc
map-suc_zero (some m) h = absurd (omega (arith, some-injective _ _ h))

map-suc-suc : (m : Option ℕ) (i : ℕ) → Option.map suc m ≡ some (suc i) → m ≡ some i
map-suc-suc none i h = cc
map-suc-suc (some m) i h = ap some (omega (arith, some-injective _ _ h))

module _ (F : Floats) (ev : OrderEvent F.D) where
  -- Closing the row that was found takes it from the open ones.
  open_count-finish_found :
      (i : ℕ) (os : List (PlacedOrder F.D))
      → empty ev.client_id ≡ true
      → find_open ev os ≡ some i
      → open_count ev.order_id (modify i (finish F ev) os) + 1 ≡ open_count ev.order_id os
  unfolding find_open open_count open_for is_for finish
  open_count-finish_found i [] only h = cc
  open_count-finish_found zero (o ∷ os) only h = ground (arith, map-suc_zero (find_open ev os))
  open_count-finish_found (suc i) (o ∷ os) only h =
      ground (arith, map-suc-suc (find_open ev os) i, open_count-finish_found i os only)

  on_finish :
      (i : ℕ) (os : List (PlacedOrder F.D)) (s : ℕ)
      → ev.event_type ≡ "finish"
      → on_row F ev i (os, s) ≡ (trim_history (modify i (finish F ev) os) 20, s)
  unfolding on_row
  on_finish i os s done = rw done refl

  on_event_finish :
      (os : List (PlacedOrder F.D)) (s : ℕ)
      → ev.event_type ≡ "finish"
      → on_event F ev (os, s) ≡ on_existing F ev (os, s)
  unfolding on_event
  on_event_finish os s done = rw done refl

  on_existing-none :
      (os : List (PlacedOrder F.D)) (s : ℕ)
      → find_open ev os ≡ none
      → empty ev.order_id ≡ false
      → on_existing F ev (os, s)
        ≡ on_row F ev (length (cap_placed_orders os 50)) (append_row F ev (os, s))
  unfolding on_existing
  on_existing-none os s e id = rw (e, id, on_existing) refl

  on_existing-some :
      (i : ℕ) (os : List (PlacedOrder F.D)) (s : ℕ)
      → find_open ev os ≡ some i
      → on_existing F ev (os, s) ≡ on_row F ev i (os, s)
  unfolding on_existing
  on_existing-some i os s e = rw (e, on_existing) refl

  -- The list after a "finish" event that finds no open row.
  finish_unfound :
      (os : List (PlacedOrder F.D)) (s : ℕ)
      → ev.event_type ≡ "finish"
      → empty ev.order_id ≡ false
      → find_open ev os ≡ none
      → (on_event F ev (os, s)).0
        ≡ trim_history (cap_placed_orders os 50 ++ (finish F ev (row_of F ev (s + 1)) ∷ [])) 20
  unfolding append_row next_placed_order_seq
  finish_unfound os s done id e =
      ap (λ p. p.0)
        (on_event_finish os s done
          ∙ on_existing-none os s e id
          ∙ on_finish (length (cap_placed_orders os 50)) (append_row F ev (os, s)).0 (s + 1) done)
      ∙ ap (λ l. trim_history l 20)
          (modify-length (finish F ev) (cap_placed_orders os 50) (row_of F ev (s + 1)))

  -- A "finish" event with an order id and without a client id leaves no open row for its order, if
  -- there was at most one before.
  pub on_event-closes :
      (os : List (PlacedOrder F.D)) (s : ℕ)
      → ev.event_type ≡ "finish"
      → empty ev.order_id ≡ false
      → empty ev.client_id ≡ true
      → open_count ev.order_id os ≤ 1
      → open_count ev.order_id (on_event F ev (os, s)).0 ≡ 0
  unfolding open_count
  on_event-closes os s done id only one = elim (Option-cases (find_open ev os)) [
    | inl e ↦ omega (
      arith,
      ap (open_count ev.order_id) (finish_unfound os s done id e),
      open_count-trim ev.order_id 20 (cap_placed_orders os 50 ++ (closed ∷ [])),
      open_count-append ev.order_id (cap_placed_orders os 50) (closed ∷ []),
      open_count-cap ev.order_id 50 os,
      open_count_of_find_open F ev os e,
      open_count-closed,
    )
    | inr (i, e) ↦ omega (
      arith,
      ap (λ p. open_count ev.order_id p.0)
          (on_event_finish os s done ∙ on_existing-some i os s e ∙ on_finish i os s done),
      open_count-trim ev.order_id 20 (modify i (finish F ev) os),
      open_count-finish_found i os only e,
    )
  ]
    where
      closed : PlacedOrder F.D
      closed = finish F ev (row_of F ev (s + 1))

      open_count-closed : open_count ev.order_id (closed ∷ []) ≡ 0
      open_count-closed = omega (arith, open_for-finish F ev ev.order_id (row_of F ev (s + 1)))

  -- A "finish" event that finds no open row appends a finished one, whether or not the list already
  -- has a done row of that order: with less than 50 rows and less than 20 done ones, the list
  -- afterwards is the one before and the new row.
  pub on_event-again :
      (os : List (PlacedOrder F.D)) (s : ℕ)
      → ev.event_type ≡ "finish"
      → empty ev.order_id ≡ false
      → find_open ev os ≡ none
      → length os < 50
      → count_done os < 20
      → (on_event F ev (os, s)).0 ≡ os ++ (finish F ev (row_of F ev (s + 1)) ∷ [])
  on_event-again os s done id e short few =
      finish_unfound os s done id e
      ∙ ap (λ l. trim_history (l ++ (closed ∷ [])) 20) (cap_placed_orders_short 50 os short)
      ∙ trim_history_short 20 (os ++ (closed ∷ [])) (omega (arith, count_done-append_one os closed))
    where
      closed : PlacedOrder F.D
      closed = finish F ev (row_of F ev (s + 1))
