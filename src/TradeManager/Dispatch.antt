-- ===== src/TradeManager/Dispatch.antt =====
-- trading/trade_manager.h: every operation agrees with `has_keys` on which exchanges have a trader.
use trade_station.Common.{
  ◌≡◌, refl, ap, ◌∙◌, inl, inr, true, false, Option, none, some, String, [], str_eq, str_eq→eq,
  if◌then◌else◌, Bool-cases, arith,
}
use trade_station.Orders.{Side}
use trade_station.TradeManager.{
  Trader, TradeManager, is_set, has_keys, no_trader, try_one, dispatch, submit, fetch_orders,
  cancel_all, cancel, or_value,
}

-- A text that is one name is not another.
apart :
    (exchange a b : String)
    → str_eq exchange a ≡ true
    → str_eq a b ≡ false
    → str_eq exchange b ≡ false
apart exchange a b e ne = ap (λ x. str_eq x b) (str_eq→eq exchange a e) ∙ ne

module _ {D : Type 0} where
  -- The trader of an exchange.
  unfoldable pub trader_of : TradeManager D → String → Option (Trader D)
  trader_of m exchange =
      if str_eq exchange "MEXC"
      then m.mexc
      else (if str_eq exchange "Gate"
          then m.gate
          else (if str_eq exchange "BingX"
              then m.bingx
              else (if str_eq exchange "LBank" then m.lbank else none)))

  unfoldable pub or_else : {R : Type 0} → Option (Trader D) → (Trader D → R) → R → R
  or_else none call rest = rest
  or_else (some t) call rest = call t

  pub or_value-or_else :
      {R : Type 0} (o : Option (Trader D)) (call : Trader D → Option R) (r : R)
      → or_value r (or_else o call (some r)) ≡ or_else o (λ t. or_value r (call t)) r
  unfolding or_else or_value
  or_value-or_else none call r = refl
  or_value-or_else (some t) call r = refl

  try_other :
      {R : Type 0} (exchange name : String) (o : Option (Trader D)) (call : Trader D → R) (rest : R)
      → str_eq exchange name ≡ false
      → try_one exchange name o call rest ≡ rest
  unfolding try_one
  try_other exchange name none call rest e = refl
  try_other exchange name (some t) call rest e = rw e refl

  try_own :
      {R : Type 0} (exchange name : String) (o : Option (Trader D)) (call : Trader D → R) (rest : R)
      → str_eq exchange name ≡ true
      → try_one exchange name o call rest ≡ or_else o call rest
  unfolding try_one or_else
  try_own exchange name none call rest e = refl
  try_own exchange name (some t) call rest e = rw e refl

  -- One line of the four, given what the lines behind it do in either case.
  step :
      {R : Type 0} (exchange name : String) (o other : Option (Trader D)) (call : Trader D → R)
      (behind rest : R)
      → (str_eq exchange name ≡ true → behind ≡ rest)
      → behind ≡ or_else other call rest
      → try_one exchange name o call behind
        ≡ or_else (if str_eq exchange name then o else other) call rest
  step exchange name o other call behind rest hit miss = elim (Bool-cases (str_eq exchange name)) [
    | inl e ↦ rw e (try_own exchange name o call behind e ∙ ap (or_else o call) (hit e))
    | inr e ↦ rw e (try_other exchange name o call behind e ∙ miss)
  ]

  pub dispatch_lem :
      {R : Type 0} (m : TradeManager D) (exchange : String) (call : Trader D → R) (rest : R)
      → dispatch m exchange call rest ≡ or_else (trader_of m exchange) call rest
  unfolding dispatch trader_of or_else
  dispatch_lem m exchange call rest =
      step exchange "MEXC" m.mexc _ call _ rest
        (λ e.
          try_other exchange "Gate" m.gate call _ (apart exchange "MEXC" "Gate" e refl)
          ∙ try_other exchange "BingX" m.bingx call _ (apart exchange "MEXC" "BingX" e refl)
          ∙ try_other exchange "LBank" m.lbank call _ (apart exchange "MEXC" "LBank" e refl))
        (step exchange "Gate" m.gate _ call _ rest
          (λ e.
            try_other exchange "BingX" m.bingx call _ (apart exchange "Gate" "BingX" e refl)
            ∙ try_other exchange "LBank" m.lbank call _ (apart exchange "Gate" "LBank" e refl))
          (step exchange "BingX" m.bingx _ call _ rest
            (λ e. try_other exchange "LBank" m.lbank call _ (apart exchange "BingX" "LBank" e refl))
            (step exchange "LBank" m.lbank none call rest rest (λ e. refl) refl)))

  has_keys_lem :
      (m : TradeManager D) (exchange : String) → has_keys m exchange ≡ is_set (trader_of m exchange)
  unfolding has_keys trader_of is_set
  has_keys_lem m exchange = ground arith

  -- Each operation does what the trader of the exchange does, if there is one, which is when
  -- `has_keys` holds; otherwise the answer is that there is none, or no orders.
  pub operations_by_trader :
      (m : TradeManager D) (exchange : String) (side : Side) (symbol order_id : String) (p q : D)
      → (has_keys m exchange ≡ is_set (trader_of m exchange))
        × (submit m exchange side symbol p q
            ≡ or_else
                (trader_of m exchange)
                (λ t. t.place_limit_order side symbol p q)
                (some (no_trader exchange)))
        × (cancel m exchange symbol order_id
            ≡ or_else
                (trader_of m exchange)
                (λ t. t.cancel_limit_order symbol order_id)
                (some (no_trader exchange)))
        × (cancel_all m exchange symbol
            ≡ or_else
                (trader_of m exchange)
                (λ t. or_value (no_trader exchange) (t.cancel_all_orders symbol))
                (no_trader exchange))
        × (fetch_orders m exchange symbol
            ≡ or_else (trader_of m exchange) (λ t. or_value [] (t.fetch_open_orders symbol)) [])
  unfolding submit cancel cancel_all fetch_orders
  operations_by_trader m exchange side symbol order_id p q = (
    has_keys_lem m exchange,
    dispatch_lem m exchange (λ t. t.place_limit_order side symbol p q) (some (no_trader exchange)),
    dispatch_lem m exchange (λ t. t.cancel_limit_order symbol order_id) (some (no_trader exchange)),
    ap (or_value (no_trader exchange))
          (dispatch_lem m exchange (λ t. t.cancel_all_orders symbol) (some (no_trader exchange)))
        ∙ or_value-or_else (trader_of m exchange) (λ t. t.cancel_all_orders symbol)
            (no_trader exchange),
    ap (or_value []) (dispatch_lem m exchange (λ t. t.fetch_open_orders symbol) (some []))
        ∙ or_value-or_else (trader_of m exchange) (λ t. t.fetch_open_orders symbol) [],
  )
