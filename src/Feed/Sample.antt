-- ===== src/Feed/Sample.antt =====
-- Documents for concrete runs, with natural numbers in place of `double`.
use trade_station.Common.{
  ℕ, ◌+◌, ◌-◌, ◌*◌, ◌/◌, Bool, true, false, Option, none, some, String, List, [], ◌∷◌, ltb, ◌==◌,
  str_eq, if◌then◌else◌, arith,
}
use trade_station.Common.Int.{pos}
use trade_station.Floats.{Floats}
use trade_station.Feed.{Json}
use trade_station.Feed.Levels.{IsOrder}
use trade_station.Feed.Snapshot.{higher, lower}

abbrev pub naturals : Floats
naturals = record {
  D = ℕ;
  nought = 0;
  lt = ltb;
  eq = ◌==◌;
  plus = ◌+◌;
  minus = ◌-◌;
  times = ◌*◌;
  over = ◌/◌;
  abs = λ x. x;
  lit = λ m e. m;
  stod = λ s. some 1;
}

-- An array is `item` and `end_items`, an object `entry` and `end_entries`.
pub data Value : Type 0 where
  null end_items end_entries : Value
  words : String → Value
  amount : ℕ → Value
  item : Value → Value → Value
  entry : String → Value → Value → Value

abbrev pub value_at : Value → String → Option Value
value_at (entry k v rest) key =
    let later = value_at rest key in if str_eq k key then some v else later
value_at v key = none

abbrev pub items : Value → List Value
items (item v rest) = v ∷ items rest
items v = []

abbrev pub is_items : Value → Bool
is_items (item v rest) = true
is_items end_items = true
is_items v = false

-- The interface, with a parser that gives the document for every text.
abbrev pub reading : Value → Json ℕ
reading document = record {
  J = Value;
  parse = λ raw. some document;
  contains = λ j key. elim (value_at j key) [ none ↦ false | some v ↦ true ];
  field = λ j key. elim (value_at j key) [ none ↦ null | some v ↦ v ];
  equals = λ j s. elim j [ words t ↦ str_eq t s | _ ↦ false ];
  is_string = λ j. elim j [ words t ↦ true | _ ↦ false ];
  is_array = is_items;
  is_number = λ j. elim j [ amount n ↦ true | _ ↦ false ];
  elements = items;
  to_text = λ j. elim j [ words t ↦ some t | _ ↦ none ];
  to_double = λ j. elim j [ amount n ↦ some n | _ ↦ none ];
  to_integer = λ j. elim j [ amount n ↦ some (pos n) | _ ↦ none ];
  to_bool = λ j. none;
}

abbrev pub level : ℕ → ℕ → Value
level price quantity = item (amount price) (item (amount quantity) end_items)

-- Two bids in the wrong order.
abbrev pub two_bids : Value
two_bids = entry "bids" (item (level 3 1) (item (level 4 1) end_items)) end_entries

pub higher-IsOrder : IsOrder (higher naturals)
unfolding higher
higher-IsOrder = record {
  asym = λ a b h. ground (arith, h);
  weak = λ a b c h k. ground (arith, h, k);
}

pub lower-IsOrder : IsOrder (lower naturals)
unfolding lower
lower-IsOrder = record {
  asym = λ a b h. ground (arith, h);
  weak = λ a b c h k. ground (arith, h, k);
}
