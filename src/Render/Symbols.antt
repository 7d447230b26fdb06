-- ===== src/Render/Symbols.antt =====
-- ui/render.cpp, `exchange_symbol` and the button "Apply All": the pair that the four handlers stream and
-- that orders are fetched and cancelled for.
mod Examples
use Prim.Native.String
use trade_station.Common.{
  ℕ, ◌≡◌, refl, Bool, true, false, Bool-cases, inl, inr, String, List, [], ◌∷◌, ◌++◌, All, str_eq,
  if◌then◌else◌,
}
use trade_station.Feed.{Exchange, Message}
use trade_station.Orders.{Future, OrderStatus, OrderFormState}
use trade_station.Book.{SharedDisplay, clear_books}
use trade_station.Trades.{Trade, SharedTrades, clear_all}
use trade_station.Text.{◌<>◌, translated, lower_case, upper_case}
use trade_station.Mexc.{MexcHandler}
use trade_station.Mexc
use trade_station.Gate
use trade_station.Bingx
use trade_station.Lbank

-- For the texts of the two fields of the symbol bar.
unfoldable pub exchange_symbol : String → String → String → String
exchange_symbol b q exchange =
    if str_eq exchange "MEXC"
    then b <> q
    else (if str_eq exchange "Gate"
        then b <> "_" <> q
        else (if str_eq exchange "BingX" then b <> "-" <> q else lower_case (b <> "_" <> q)))

lower_case-<> : (s t : String) → lower_case (s <> t) ≡ lower_case s <> lower_case t
unfolding lower_case
lower_case-<> String.[] t = refl
lower_case-<> (String.◌∷◌ c s) t = cc (lower_case-<> s t)

-- `OrderFormState{}`
unfoldable pub blank_form : {D : Type 0} → OrderFormState D
blank_form = record {
  side = 0;
  price_buf = "";
  qty_buf = "";
  pending_fut = Future.invalid;
  status = OrderStatus.idle;
  status_msg = "";
  orders = [];
  fetch_fut = Future.invalid;
  fetching = false;
  cancel_all_fut = Future.invalid;
  cancelling_all = false;
}

-- The loop that fetches the open orders of each panel's exchange that has keys: the forms, and the
-- arguments of `trader.fetch_orders`.
unfoldable pub fetch_each :
    {D : Type 0}
    → (String → Bool)
    → String
    → String
    → List String
    → List (OrderFormState D)
    → List (OrderFormState D) × List (String × String)
fetch_each has_keys b q [] forms = (forms, [])
fetch_each has_keys b q (name ∷ names) [] = ([], [])
fetch_each has_keys b q (name ∷ names) (f ∷ forms) =
    let rest = fetch_each has_keys b q names forms in
    if has_keys name
    then (
      record f { fetch_fut = Future.running; fetching = true } ∷ rest.0,
      (name, exchange_symbol b q name) ∷ rest.1,
    )
    else (f ∷ rest.0, rest.1)

-- What the button works on: the two fields of the symbol bar, the display, the trades, the forms and the
-- handlers.
pub record Desk (D : Type 0) : Type 0 where
  pub base : String
  pub quote : String
  pub display : SharedDisplay D
  pub trades : SharedTrades D
  pub forms : List (OrderFormState D)
  pub mexc : MexcHandler D
  pub gate : Exchange
  pub bingx : Exchange
  pub lbank : Exchange

-- What is sent beside: the handlers' messages, and the requests for the open orders.
pub record Applied (D J : Type 0) : Type 0 where
  pub desk : Desk D
  pub sent : List (Message J)
  pub fetches : List (String × String)

-- The press of "Apply All". The clock is read by the handlers, as `ts` and `ts2`.
unfoldable pub apply_all :
    {D : Type 0} (J : Type 0)
    → D
    → Trade D
    → (ℕ → String)
    → ℕ
    → ℕ
    → (String → Bool)
    → List String
    → Desk D
    → Applied D J
apply_all J nought blank print ts ts2 has_keys names d =
    let b = upper_case d.base in
    let q = upper_case d.quote in
    let (mexc, m) = Mexc.change_symbol {J = J} d.mexc b q in
    let (gate, g) = Gate.change_symbol {J = J} ts ts2 d.gate b q in
    let (bingx, x) = Bingx.change_symbol {J = J} print ts ts2 d.bingx b q in
    let (lbank, l) = Lbank.change_symbol {J = J} d.lbank b q in
    let (forms, fetches) =
      fetch_each has_keys b q names (blank_form ∷ blank_form ∷ blank_form ∷ blank_form ∷ []) in
    record {
      desk = record {
        base = b;
        quote = q;
        display = clear_books nought d.display;
        trades = clear_all blank d.trades;
        forms = forms;
        mexc = mexc;
        gate = gate;
        bingx = bingx;
        lbank = lbank;
      };
      sent = m ++ (g ++ (x ++ l));
      fetches = fetches;
    }

-- A desk on which each handler streams the pair that orders are fetched and cancelled for.
pub record IsInStep {D : Type 0} (d : Desk D) : Type 0 where
  pub mexc : d.mexc.exchange.symbol ≡ exchange_symbol d.base d.quote "MEXC"
  pub gate : d.gate.symbol ≡ exchange_symbol d.base d.quote "Gate"
  pub bingx : d.bingx.symbol ≡ exchange_symbol d.base d.quote "BingX"
  pub lbank : d.lbank.symbol ≡ exchange_symbol d.base d.quote "LBank"

lower_symbol : (b q : String) → lower_case b <> "_" <> lower_case q ≡ lower_case (b <> "_" <> q)
unfolding lower_case translated
lower_symbol b q = rw (lower_case-<> (b <> "_") q, lower_case-<> b "_")

fetch_each-exchange_symbol :
    {D : Type 0} (has_keys : String → Bool) (b q : String) (names : List String)
    (forms : List (OrderFormState D))
    → All (λ r. r.1 ≡ exchange_symbol b q r.0) (fetch_each has_keys b q names forms).1
unfolding fetch_each
fetch_each-exchange_symbol has_keys b q [] forms = tt
fetch_each-exchange_symbol has_keys b q (name ∷ names) [] = tt
fetch_each-exchange_symbol has_keys b q (name ∷ names) (f ∷ forms) =
    elim (Bool-cases (has_keys name)) [
      | inl e ↦ rw e (refl, fetch_each-exchange_symbol has_keys b q names forms)
      | inr e ↦ rw e (fetch_each-exchange_symbol has_keys b q names forms)
    ]

-- When all handlers run, after "Apply All" each of them streams the pair that orders are fetched and
-- cancelled for on its exchange, and the open orders are requested for that pair.
pub apply_all-IsInStep :
    {D : Type 0} (J : Type 0) (nought : D) (blank : Trade D) (print : ℕ → String) (ts ts2 : ℕ)
    (has_keys : String → Bool) (names : List String) (d : Desk D)
    → d.mexc.exchange.running ≡ true
    → d.gate.running ≡ true
    → d.bingx.running ≡ true
    → d.lbank.running ≡ true
    → IsInStep (apply_all J nought blank print ts ts2 has_keys names d).desk
      × All
          (λ r. r.1 ≡ exchange_symbol (upper_case d.base) (upper_case d.quote) r.0)
          (apply_all J nought blank print ts ts2 has_keys names d).fetches
unfolding apply_all Mexc.change_symbol Gate.change_symbol Bingx.change_symbol Lbank.change_symbol
    exchange_symbol
apply_all-IsInStep J nought blank print ts ts2 has_keys names d m g b l = (
  record {
    mexc = rw m refl;
    gate = rw g refl;
    bingx = rw b refl;
    lbank = rw l (lower_symbol (upper_case d.base) (upper_case d.quote));
  },
  fetch_each-exchange_symbol has_keys (upper_case d.base) (upper_case d.quote) names _,
)
