-- ===== src/Render/Polls/Merge.antt =====
-- ui/render.cpp: what fetched orders and a cancellation of all orders leave true of a panel.
use trade_station.Render.Lists.Cap.{cap_placed_orders_short}
use trade_station.Text.{empty}
use trade_station.Floats.{Floats}
use trade_station.Common.{
  ℕ, ◌+◌, ◌≤◌, ◌≡◌, refl, ap, ◌∙◌, inl, inr, true, false, String, List, [], ◌∷◌, ◌++◌, map, str_eq,
  str_eq→eq, ◌==◌, arith, Bool-cases, ◌<◌, length, str_eq_self,
}
use trade_station.Orders.{
  PlacedOrder, OrderFormState, OrderResult, next_placed_order_seq, blank_order,
}
use trade_station.Render.Lists.Trim.{open_orders, trim_history_lem}
use trade_station.Render.Lists.Counting.{open_for, open_count, open_count-append}
use trade_station.Render.Events.{has_id}
use trade_station.Render.Events.OpenRows.{open_count_of_has_id}
use trade_station.Render.Polls.{
  merge_fetched, mark_cancelled, on_cancelled_all, on_placed, placed_row,
}

module _ {D : Type 0} where
  open_count-append_one :
      (id : String) (os : List (PlacedOrder D)) (o : PlacedOrder D)
      → open_count id os ≤ 1
      → has_id o.order_id os ≡ false
      → open_count id (os ++ (o ∷ [])) ≤ 1
  unfolding open_count open_for
  open_count-append_one id os o one new = elim (Bool-cases (str_eq o.order_id id)) [
    | inl e ↦ ground (arith, split, none_yet, ap (λ i. open_count i os) (str_eq→eq o.order_id id e))
    | inr e ↦ ground (arith, split, e)
  ]
    where
      split : open_count id (os ++ (o ∷ [])) ≡ open_count id os + open_count id (o ∷ [])
      split = open_count-append id os (o ∷ [])

      none_yet : open_count o.order_id os ≡ 0
      none_yet = open_count_of_has_id o.order_id os new

  -- Merging fetched orders into a list with at most one open row for an order id leaves it so,
  -- also if the fetched ones repeat the id.
  pub open_count-merge_fetched :
      (id : String) (fetched os : List (PlacedOrder D)) (s : ℕ)
      → open_count id os ≤ 1
      → open_count id (merge_fetched fetched (os, s)).0 ≤ 1
  unfolding merge_fetched
  open_count-merge_fetched id [] os s one = one
  open_count-merge_fetched id (o ∷ fetched) os s one = elim (Bool-cases (has_id o.order_id os)) [
    | inl e ↦ rw e (open_count-merge_fetched id fetched os s one)
    | inr e ↦ elim (Bool-cases (o.ui_seq == 0)) [
      | inl z ↦
          rw (e, z)
            (open_count-merge_fetched id fetched _ _
              (open_count-append_one id os (record o { ui_seq = next_placed_order_seq s }) one e))
      | inr z ↦
          rw (e, z) (open_count-merge_fetched id fetched _ _ (open_count-append_one id os o one e))
    ]
  ]

  none_open : (os : List (PlacedOrder D)) → open_orders (map mark_cancelled os) ≡ []
  unfolding open_orders mark_cancelled
  none_open [] = refl
  none_open (o ∷ os) = elim (Bool-cases o.cancelled) [
    | inl e ↦ rw (e, mark_cancelled) (none_open os)
    | inr e ↦ rw (e, mark_cancelled) (none_open os)
  ]

  -- After a successful cancellation of all orders no row is open.
  open_orders-on_cancelled_all :
      (f : OrderFormState D) (r : OrderResult)
      → r.success ≡ true
      → open_orders (on_cancelled_all f r).orders ≡ []
  unfolding on_cancelled_all
  open_orders-on_cancelled_all f r ok =
      rw ok ((trim_history_lem (map mark_cancelled f.orders) 20).0 ∙ none_open f.orders)

own_row :
    (F : Floats) (f : OrderFormState F.D) (id exchange symbol : String) (seq : ℕ)
    → open_count id (placed_row F f id exchange symbol seq ∷ []) ≡ 1
unfolding open_count open_for placed_row blank_order
own_row F f id exchange symbol seq = rw (str_eq_self id) refl

-- The answer to an order appends a row without a look at the list: with less than 10 rows, the
-- open rows of the order become one more, so two if its "new" event was faster than the answer.
pub open_count-on_placed :
    (F : Floats) (f : OrderFormState F.D) (exchange symbol : String) (r : OrderResult) (s : ℕ)
    → r.success ≡ true
    → empty r.order_id ≡ false
    → length f.orders < 10
    → open_count r.order_id (on_placed F f exchange symbol r s).0.orders
      ≡ open_count r.order_id f.orders + 1
unfolding on_placed
open_count-on_placed F f exchange symbol r s ok id short =
    rw (ok, id)
      (ap (λ l. open_count r.order_id (l ++ (row ∷ []))) (cap_placed_orders_short 10 f.orders short)
        ∙ open_count-append r.order_id f.orders (row ∷ [])
        ∙ ap (λ n. open_count r.order_id f.orders + n) one)
  where
    row : PlacedOrder F.D
    row = placed_row F f r.order_id exchange symbol (next_placed_order_seq s)

    one : open_count r.order_id (row ∷ []) ≡ 1
    one = own_row F f r.order_id exchange symbol (next_placed_order_seq s)
