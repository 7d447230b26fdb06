-- ===== src/Render/Events/OpenRows.antt =====
-- ui/render.cpp: what order events leave true of a panel's rows.
use mathlib.Core.Option
use trade_station.Common.{
  ℕ, suc, ◌+◌, ◌≤◌, ◌≡◌, refl, ap, inl, inr, false, Option, none, some, String, List, [], ◌∷◌, ◌++◌,
  modify, length, length-append, length-modify, All, str_eq, str_eq→eq, arith, Option-cases,
  Bool-cases,
}
use trade_station.Floats.{Floats, is_pos}
use trade_station.Orders.{PlacedOrder, OrderEvent, blank_order, next_placed_order_seq}
use trade_station.Render.Lists.{cap_placed_orders}
use trade_station.Render.Lists.Cap.{length-cap}
use trade_station.Render.Lists.Counting.{
  open_for, open_count, open_count-append, open_count-cap, open_count-trim, open_count-modify,
  length-trim,
}
use trade_station.Render.Events.{
  row_of, has_id, append_row, on_new, is_for, find_open, fill, finish, on_row, on_existing,
  on_event, to_panels, on_events,
}

pub open_for-fill :
    (F : Floats) (ev : OrderEvent F.D) (id : String) (o : PlacedOrder F.D)
    → open_for id (fill F ev o) ≡ open_for id o
unfolding open_for fill
open_for-fill F ev id o = elim (Bool-cases (is_pos F ev.cum_qty)) [ inl e ↦ rw e | inr e ↦ rw e ]

pub open_for-finish :
    (F : Floats) (ev : OrderEvent F.D) (id : String) (o : PlacedOrder F.D)
    → open_for id (finish F ev o) ≡ 0
unfolding open_for finish
open_for-finish F ev id o = refl

map-none : (i : Option ℕ) → Option.map suc i ≡ none → i ≡ none
map-none none h = refl
map-none (some i) h = cc

pub open_count_of_has_id :
    {D : Type 0} (id : String) (os : List (PlacedOrder D))
    → has_id id os ≡ false
    → open_count id os ≡ 0
unfolding has_id open_count open_for
open_count_of_has_id id [] h = refl
open_count_of_has_id id (o ∷ os) h = ground (arith, open_count_of_has_id id os)

module _ (F : Floats) (ev : OrderEvent F.D) where
  open_count-on_row :
      (id : String) (i : ℕ) (os : List (PlacedOrder F.D)) (s : ℕ)
      → open_count id (on_row F ev i (os, s)).0 ≤ open_count id os
  unfolding on_row
  open_count-on_row id i os s = ground (
    arith,
    open_count-modify id i (fill F ev) os (λ o. omega (arith, open_for-fill F ev id o)),
    open_count-modify id i (finish F ev) os (λ o. omega (arith, open_for-finish F ev id o)),
    open_count-trim id 20 (modify i (finish F ev) os),
  )

  open_count-append_row :
      (id : String) (os : List (PlacedOrder F.D)) (s : ℕ)
      → open_count id os ≤ 1
      → open_count ev.order_id os ≡ 0
      → open_count id (append_row F ev (os, s)).0 ≤ 1
  unfolding append_row open_count open_for row_of blank_order
  open_count-append_row id os s one none_yet = elim (Bool-cases (str_eq ev.order_id id)) [
    | inl e ↦ ground (arith, split, kept, ap (λ i. open_count i os) (str_eq→eq ev.order_id id e))
    | inr e ↦ ground (arith, split, kept)
  ]
    where
      split :
          open_count id (cap_placed_orders os 50 ++ (row_of F ev (next_placed_order_seq s) ∷ []))
          ≡ open_count id (cap_placed_orders os 50)
            + open_count id (row_of F ev (next_placed_order_seq s) ∷ [])
      split =
          open_count-append id (cap_placed_orders os 50)
            (row_of F ev (next_placed_order_seq s) ∷ [])

      kept : open_count id (cap_placed_orders os 50) ≤ open_count id os
      kept = open_count-cap id 50 os

  pub open_count_of_find_open :
      (os : List (PlacedOrder F.D)) → find_open ev os ≡ none → open_count ev.order_id os ≡ 0
  unfolding find_open open_count open_for is_for
  open_count_of_find_open [] h = refl
  open_count_of_find_open (o ∷ os) h =
      ground (arith, open_count_of_find_open os, map-none (find_open ev os))

  open_count-on_event :
      (id : String) (os : List (PlacedOrder F.D)) (s : ℕ)
      → open_count id os ≤ 1
      → open_count id (on_event F ev (os, s)).0 ≤ 1
  unfolding on_event on_new on_existing
  open_count-on_event id os s one = elim (Option-cases (find_open ev os)) [
    | inl e ↦ ground (
      arith,
      e,
      row,
      none_there (open_count_of_find_open os e),
      open_count_of_has_id ev.order_id os,
      none_there,
    )
    | inr (i, e) ↦
        ground
          (arith, e, open_count-on_row id i os s, open_count_of_has_id ev.order_id os, none_there)
  ]
    where
      added : ℕ
      added = length (cap_placed_orders os 50)

      none_there : open_count ev.order_id os ≡ 0 → open_count id (append_row F ev (os, s)).0 ≤ 1
      none_there = open_count-append_row id os s one

      row :
          open_count id (on_row F ev added (append_row F ev (os, s))).0
          ≤ open_count id (append_row F ev (os, s)).0
      row = open_count-on_row id added (append_row F ev (os, s)).0 (append_row F ev (os, s)).1

  length-on_row :
      (i : ℕ) (os : List (PlacedOrder F.D)) (s : ℕ) → length (on_row F ev i (os, s)).0 ≤ length os
  unfolding on_row
  length-on_row i os s = ground (
    arith,
    length-modify i (fill F ev) os,
    length-modify i (finish F ev) os,
    length-trim 20 (modify i (finish F ev) os),
  )

  length-append_row :
      (os : List (PlacedOrder F.D)) (s : ℕ) → length (append_row F ev (os, s)).0 ≤ 50
  unfolding append_row
  length-append_row os s = omega (
    arith,
    length-append (cap_placed_orders os 50) (row_of F ev (next_placed_order_seq s) ∷ []),
    length-cap os 50 (omega arith),
  )

  length-on_event :
      (n : ℕ) (os : List (PlacedOrder F.D)) (s : ℕ)
      → 50 ≤ n
      → length os ≤ n
      → length (on_event F ev (os, s)).0 ≤ n
  unfolding on_event on_new on_existing
  length-on_event n os s big h = elim (Option-cases (find_open ev os)) [
    | inl e ↦ ground (arith, e, row, length-append_row os s)
    | inr (i, e) ↦ ground (arith, e, length-on_row i os s, length-append_row os s)
  ]
    where
      added : ℕ
      added = length (cap_placed_orders os 50)

      row :
          length (on_row F ev added (append_row F ev (os, s))).0
          ≤ length (append_row F ev (os, s)).0
      row = length-on_row added (append_row F ev (os, s)).0 (append_row F ev (os, s)).1

-- At most `n` rows, and at most one open row for each order id.
unfoldable pub WellFormed : {D : Type 0} → ℕ → List (PlacedOrder D) → Type 0
WellFormed n os = (length os ≤ n) × ((id : String) → open_count id os ≤ 1)

to_panels-WellFormed :
    (F : Floats) (ev : OrderEvent F.D) (n : ℕ) (names : List String)
    (forms : List (List (PlacedOrder F.D))) (s : ℕ)
    → 50 ≤ n
    → All (WellFormed n) forms
    → All (WellFormed n) (to_panels F ev names (forms, s)).0
unfolding WellFormed to_panels
to_panels-WellFormed F ev n [] forms s big h = h
to_panels-WellFormed F ev n (name ∷ names) [] s big h = h
to_panels-WellFormed F ev n (name ∷ names) (os ∷ forms) s big ((short, one), h) =
    elim (Bool-cases (str_eq name ev.exchange)) [
      | inl e ↦ rw e (
          (
            (
              length-on_event F ev n os s big short,
              λ id. open_count-on_event F ev id os s (one id),
            ),
            to_panels-WellFormed F ev n names forms (on_event F ev (os, s)).1 big h,
          ))
      | inr e ↦ rw e (((short, one), to_panels-WellFormed F ev n names forms s big h))
    ]

-- Whatever events are drained and whichever panels they are for: if every panel has at most `n`
-- rows, with `n` at least 50, and at most one open row for each order id, this is so afterwards.
pub on_events-WellFormed :
    (F : Floats) (evs : List (OrderEvent F.D)) (n : ℕ) (names : List String)
    (forms : List (List (PlacedOrder F.D))) (s : ℕ)
    → 50 ≤ n
    → All (WellFormed n) forms
    → All (WellFormed n) (on_events F evs names (forms, s)).0
unfolding on_events
on_events-WellFormed F [] n names forms s big h = h
on_events-WellFormed F (ev ∷ evs) n names forms s big h =
    on_events-WellFormed F evs n names (to_panels F ev names (forms, s)).0
      (to_panels F ev names (forms, s)).1 big (to_panels-WellFormed F ev n names forms s big h)
