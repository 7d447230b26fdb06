-- ===== src/Rest/Answers.antt =====
-- What the traders and the order streams do with an answer. nlohmann::json, std::to_string, the number
-- formats of streams and the clock are parameters.
use trade_station.Common.{
  ℕ, Bool, true, false, Option, none, some, String, List, [], ◌∷◌, if◌then◌else◌,
}
use trade_station.Common.Int.{ℤ}
use trade_station.Floats.{Floats}
use trade_station.Feed.{Json}
use trade_station.Orders.{Side, OrderResult, PlacedOrder, blank_order}
use trade_station.Text.{empty}
use trade_station.Rest.{Result, ok, failed, ◌>>=◌, Digests, Network}

-- A JSON object that the program builds: the entries that its initialiser lists.
mutual
  pub data Node : Type 0 where
    text : String → Node
    number : ℕ → Node
    texts : List String → Node
    object : Entries → Node

  pub data Entries : Type 0 where
    done : Entries
    entry : String → Node → Entries → Entries

-- What the code below takes from libraries. An error text is what() of the exception thrown by the
-- operation, for its argument.
pub record Client (D : Type 0) : Type 1 where
  pub json : Json D
  pub is_object : json.J → Bool
  pub is_null : json.J → Bool
  pub dump : json.J → String
  -- get<long long> and get<int>
  pub to_long : json.J → Option ℤ
  pub to_int : json.J → Option ℤ
  pub parse_error : String → String
  pub text_error : json.J → String
  pub long_error : json.J → String
  pub value_error : json.J → String
  -- `dump` of an object that the program builds. It throws for a text that is not UTF-8, which `invalid`
  -- says with its what(); an object of constant texts is never invalid.
  pub print : Entries → String
  pub invalid : Entries → Option String
  -- std::to_string
  pub print_long : ℤ → String
  pub print_double : D → String
  -- `std::fixed << std::setprecision(8)`
  pub print_fixed : D → String
  pub digests : Digests
  pub net : Network

-- What a `try` block that catches std::exception returns.
unfoldable pub caught : Result OrderResult → OrderResult
caught (ok r) = r
caught (failed what) = record { success = false; order_id = ""; message = what }

unfoldable pub accepted : String → String → OrderResult
accepted id message = record { success = true; order_id = id; message = message }

unfoldable pub refused : String → OrderResult
refused message = record { success = false; order_id = ""; message = message }

-- A `try` block whose exceptions lead to a default.
unfoldable pub quiet : {A : Type 0} → A → Result A → A
quiet a (ok b) = b
quiet a (failed what) = a

module _ {D : Type 0} (c : Client D) where
  unfoldable pub dumped : Entries → Result String
  dumped e = elim (c.invalid e) [ none ↦ ok (c.print e) | some what ↦ failed what ]

  unfoldable pub parsed : String → Result c.json.J
  parsed raw = elim (c.json.parse raw) [ none ↦ failed (c.parse_error raw) | some j ↦ ok j ]

  -- `v.get<std::string>()`
  unfoldable pub get_text : c.json.J → Result String
  get_text v = elim (c.json.to_text v) [ none ↦ failed (c.text_error v) | some s ↦ ok s ]

  unfoldable pub get_long : c.json.J → Result ℤ
  get_long v = elim (c.to_long v) [ none ↦ failed (c.long_error v) | some n ↦ ok n ]

  unfoldable pub get_int : c.json.J → Result ℤ
  get_int v = elim (c.to_int v) [ none ↦ failed (c.long_error v) | some n ↦ ok n ]

  -- `j.value(key, otherwise)`, of texts.
  unfoldable pub value : c.json.J → String → String → Result String
  value j key otherwise =
      if c.is_object j
      then (if c.json.contains j key then get_text (c.json.field j key) else ok otherwise)
      else failed (c.value_error j)

  -- `v.is_string() ? v.get<std::string>() : v.dump()`
  unfoldable pub text_or_dump : c.json.J → Result String
  text_or_dump v = if c.json.is_string v then get_text v else ok (c.dump v)

  -- The message of a refusal: `j.contains(key) ? j[key].get<std::string>() : body`.
  unfoldable pub refusal : c.json.J → String → String → Result OrderResult
  refusal j key body =
      if c.json.contains j key
      then get_text (c.json.field j key) >>= (λ message. ok (refused message))
      else ok (refused body)

-- `try { x = std::stod(text); } catch (...) {}`, for an `x` that is `otherwise` before.
unfoldable pub stod_or : (F : Floats) → F.D → Result String → F.D
stod_or F otherwise (failed what) = otherwise
stod_or F otherwise (ok s) = elim (F.stod s) [ none ↦ otherwise | some x ↦ x ]

-- The orders in an answer, of which those without an id are skipped; an exception ends it all.
unfoldable pub open_orders :
    {D J : Type 0} → (J → Result (PlacedOrder D)) → List J → Result (List (PlacedOrder D))
open_orders read [] = ok []
open_orders read (item ∷ items) =
    let rest = open_orders read items in
    read item >>= (λ o. rest >>= (λ os. ok (if empty o.order_id then os else o ∷ os)))

-- An order as it is read from an answer, with the defaults in the other fields.
unfoldable pub open_order :
    (F : Floats) → String → String → String → Side → F.D → F.D → PlacedOrder F.D
open_order F exchange symbol id side price qty = record (blank_order F.nought) {
  exchange = exchange;
  symbol = symbol;
  order_id = id;
  side = side;
  price = price;
  qty = qty;
}
