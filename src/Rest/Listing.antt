-- ===== src/Rest/Listing.antt =====
-- The orders that an answer lists.
use trade_station.Common.{
  ◌≡◌, Bool, false, Bool-cases, inl, inr, String, List, [], ◌∷◌, All, if◌then◌else◌,
}
use trade_station.Orders.{PlacedOrder}
use trade_station.Text.{empty}
use trade_station.Rest.{Result, ok, failed, ◌>>=◌, Returns, Returns-chain, Returns->>=, Returns-if}
use trade_station.Rest.Answers.{Client, quiet, parsed, open_orders}

-- An order of the exchange and the symbol that were asked, with an id.
pub record IsListed {D : Type 0} (exchange symbol : String) (o : PlacedOrder D) : Type 0 where
  pub at_exchange : o.exchange ≡ exchange
  pub of_symbol : o.symbol ≡ symbol
  pub named : empty o.order_id ≡ false

-- What reading an order gives before its id is looked at.
abbrev pub IsRead : {D : Type 0} → String → String → PlacedOrder D → Type 0
IsRead exchange symbol o = (o.exchange ≡ exchange) × (o.symbol ≡ symbol)

module _ {D J : Type 0} (exchange symbol : String) (read : J → Result (PlacedOrder D)) where
  kept-IsListed :
      (o : PlacedOrder D) (os : List (PlacedOrder D))
      → IsRead exchange symbol o
      → All (IsListed exchange symbol) os
      → All (IsListed exchange symbol) (if empty o.order_id then os else o ∷ os)
  kept-IsListed o os (e, s) h = elim (Bool-cases (empty o.order_id)) [
    | inl nameless ↦ rw nameless h
    | inr full ↦ rw full (record { at_exchange = e; of_symbol = s; named = full }, h)
  ]

  open_orders-IsListed :
      (items : List J)
      → ((item : J) → Returns (IsRead exchange symbol) (read item))
      → Returns (All (IsListed exchange symbol)) (open_orders read items)
  unfolding open_orders
  open_orders-IsListed [] h = tt
  open_orders-IsListed (item ∷ items) h =
      Returns-chain (IsRead exchange symbol) (All (IsListed exchange symbol)) (read item) _ (h item)
        λ o r.
          Returns-chain (All (IsListed exchange symbol)) (All (IsListed exchange symbol))
            (open_orders read items) _ (open_orders-IsListed items h)
            λ os hs. kept-IsListed o os r hs

  quiet-IsListed :
      (m : Result (List (PlacedOrder D)))
      → Returns (All (IsListed exchange symbol)) m
      → All (IsListed exchange symbol) (quiet [] m)
  unfolding quiet
  quiet-IsListed (ok os) h = h
  quiet-IsListed (failed what) h = tt

-- The form that every request for the open orders has: whatever is answered, what is listed was read
-- as an order of that exchange and symbol, with an id.
pub fetched-IsListed :
    {D : Type 0} (c : Client D) (exchange symbol : String)
    (read : c.json.J → Result (PlacedOrder D)) (has : c.json.J → Bool)
    (items : c.json.J → List c.json.J)
    → ((item : c.json.J) → Returns (IsRead exchange symbol) (read item))
    → (sent : Result String)
    → All (IsListed exchange symbol) (
        quiet [] (
          sent >>= (λ resp.
            parsed c resp >>= (λ j. if has j then open_orders read (items j) else ok []))))
fetched-IsListed {D} c exchange symbol read has items reads sent =
    let P : List (PlacedOrder D) → Type 0 = All (IsListed exchange symbol) in
    quiet-IsListed exchange symbol read _ (
      Returns->>= P sent _ λ resp. Returns->>= P (parsed c resp) _ λ j.
        Returns-if P (has j) _ _ (λ _. open_orders-IsListed exchange symbol read (items j) reads)
          (λ _. tt))

-- An order that is read from an id and a side.
pub chained-IsRead :
    {D : Type 0} (exchange symbol : String) (id side : Result String)
    (order : String → String → PlacedOrder D)
    → ((i s : String) → IsRead exchange symbol (order i s))
    → Returns (IsRead exchange symbol) (id >>= (λ i. side >>= (λ s. ok (order i s))))
chained-IsRead {D} exchange symbol id side order h =
    let P : PlacedOrder D → Type 0 = IsRead exchange symbol in
    Returns->>= P id _ λ i. Returns->>= P side _ λ s. h i s
