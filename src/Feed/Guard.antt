-- ===== src/Feed/Guard.antt =====
-- What holds of an update that a handler of full order books publishes.
use mathlib.Core.Option.{some-injective}
use trade_station.Common.{
  ℕ, ◌+◌, ◌≤◌, ◌<◌, ◌≡◌, refl, sym, ap, subst, ◌∙◌, inl, inr, Bool, true, false, ◌&&◌, Option, none,
  some, ◌>>=◌, String, List, [], ◌∷◌, ◌++◌, All, first, window-shifted, length, if◌then◌else◌,
  arith, Bool-cases,
}
use trade_station.Floats.{Floats}
use trade_station.Book.{PriceLevel, OrderBookUpdate}
use trade_station.Trades.{SharedTrades}
use trade_station.Feed.{Json, Outcome, nothing, collect, array_of, update_of, is_worth, deliver}
use trade_station.Feed.Levels.{best, IsOrder, Sorted, best_lem}
use trade_station.Feed.Snapshot.{higher, lower, side_of}
use trade_station.Text.{take_chars}

pub bind_some :
    {A B : Type 0} {f : A → Option B} {b : B} (o : Option A)
    → (o >>= f) ≡ some b
    → (a : A) × (o ≡ some a) × (f a ≡ some b)
bind_some none h = cc
bind_some (some a) h = (a, refl, h)

pub none-absurd : {A : Type 0} {a : A} → none ≡ some a → ⊥
none-absurd h = cc

worth-some :
    {D : Type 0} (u : OrderBookUpdate D) → is_worth u ≡ true → 0 < u.bid_count + u.ask_count
unfolding is_worth
worth-some u h = ground (arith, h)

pub deliver-published :
    {D : Type 0} (J : Type 0) (st : Option (SharedTrades D)) (o : Option (OrderBookUpdate D))
    {u : OrderBookUpdate D}
    → (deliver {J = J} st o).published ≡ some u
    → (o ≡ some u) × (is_worth u ≡ true)
unfolding deliver nothing
deliver-published J st none h = cc
deliver-published J st (some v) {u} h = elim (Bool-cases (is_worth v)) [
  | inl e ↦ let same = rw e at h in (same, ap is_worth (sym (some-injective _ _ same)) ∙ e)
  | inr e ↦ absurd (none-absurd (rw e at h))
]

All-prefix : {A : Type 0} (P : A → Type 0) (xs ys : List A) → All P (xs ++ ys) → All P xs
All-prefix P [] ys h = tt
All-prefix P (x ∷ xs) ys (p, h) = (p, All-prefix P xs ys h)

pub Sorted-prefix :
    {A : Type 0} (better : A → A → Bool) (xs ys : List A)
    → Sorted better (xs ++ ys)
    → Sorted better xs
unfolding Sorted
Sorted-prefix better [] ys h = tt
Sorted-prefix better (x ∷ xs) ys (p, h) =
    (All-prefix (λ y. better y x ≡ false) xs ys p, Sorted-prefix better xs ys h)

first-array_of :
    {D : Type 0} (nought : D) (ls : List (PriceLevel D))
    → first (length ls) (array_of nought ls) ≡ ls
unfolding array_of
first-array_of nought [] = refl
first-array_of nought (l ∷ ls) = ap (◌∷◌ l) (
    window-shifted 0 (length ls) (array_of nought ls) (array_of nought (l ∷ ls)) (λ j ge lt. refl)
    ∙ first-array_of nought ls)

-- The update is of the exchange and the symbol, has one to five levels, and its sides are best
-- first.
pub record IsBook (F : Floats) (exchange symbol : String) (u : OrderBookUpdate F.D) : Type 0 where
  pub of_exchange : u.exchange ≡ take_chars 15 exchange
  pub of_symbol : u.symbol ≡ take_chars 15 symbol
  pub few_bids : u.bid_count ≤ 5
  pub few_asks : u.ask_count ≤ 5
  pub some_level : 0 < u.bid_count + u.ask_count
  pub bids_sorted : Sorted (higher F) (first u.bid_count u.bids)
  pub asks_sorted : Sorted (lower F) (first u.ask_count u.asks)

module _ (F : Floats) where
  pub update_of-IsBook :
      (exchange symbol : String) (now : ℕ) (bids asks : List (PriceLevel F.D))
      {u : OrderBookUpdate F.D}
      → update_of F.nought exchange symbol now bids asks ≡ u
      → (length bids ≤ 5) × Sorted (higher F) bids
      → (length asks ≤ 5) × Sorted (lower F) asks
      → is_worth u ≡ true
      → IsBook F exchange symbol u
  unfolding update_of
  update_of-IsBook exchange symbol now bids asks {u} e (few_bids, bid_side) (few_asks, ask_side)
        worth =
      subst (IsBook F exchange symbol) e (record {
        of_exchange = refl;
        of_symbol = refl;
        few_bids = few_bids;
        few_asks = few_asks;
        some_level = rw (ap (λ v. v.bid_count) e, ap (λ v. v.ask_count) e) (worth-some u worth);
        bids_sorted = rw (first-array_of F.nought bids) bid_side;
        asks_sorted = rw (first-array_of F.nought asks) ask_side;
      })

module _ (F : Floats) (api : Json F.D) where
  side_of-Sorted :
      (better : PriceLevel F.D → PriceLevel F.D → Bool)
      → IsOrder better
      → (depth : api.J) (key : String) {ls : List (PriceLevel F.D)}
      → side_of F api better depth key ≡ some ls
      → (length ls ≤ 5) × Sorted better ls
  unfolding side_of Sorted
  side_of-Sorted better o depth key {ls} h =
      elim (Bool-cases (api.contains depth key && api.is_array (api.field depth key))) [
        | inl e ↦ kept (bind_some (collect F api (api.elements (api.field depth key))) (rw e at h))
        | inr e ↦ subst Good (some-injective _ _ (rw e at h)) (omega arith, tt)
      ]
    where
      Good : List (PriceLevel F.D) → Type 0
      Good l = (length l ≤ 5) × Sorted better l

      kept :
          (ls' : List (PriceLevel F.D)) × (collect F api (api.elements (api.field depth key))
              ≡ some ls')
            × (some (best better ls') ≡ some ls)
          → Good ls
      kept (ls', e, b) = subst Good (some-injective _ _ b) (
        omega (arith, (best_lem better o ls').3),
        Sorted-prefix better (best better ls') (best_lem better o ls').0 (best_lem better o ls').2,
      )

  pub built-IsBook :
      IsOrder (higher F)
      → IsOrder (lower F)
      → (exchange symbol : String) (now : ℕ) (depth : api.J) {u : OrderBookUpdate F.D}
      → (side_of F api (higher F) depth "bids" >>= (λ bids.
          side_of F api (lower F) depth "asks"
          >>= (λ asks. some (update_of F.nought exchange symbol now bids asks))))
        ≡ some u
      → is_worth u ≡ true
      → IsBook F exchange symbol u
  built-IsBook high low exchange symbol now depth {u} h worth =
      let (bids, got_bids, h') = bind_some (side_of F api (higher F) depth "bids") h in
      let (asks, got_asks, h'') = bind_some (side_of F api (lower F) depth "asks") h' in
      update_of-IsBook F exchange symbol now bids asks (some-injective _ _ h'')
        (side_of-Sorted (higher F) high depth "bids" got_bids)
        (side_of-Sorted (lower F) low depth "asks" got_asks) worth

module _ {D J : Type 0} {u : OrderBookUpdate D} where
  -- A branch that publishes nothing is not the one that was taken.
  pub not_then :
      (b : Bool) (x y : Outcome D J)
      → x.published ≡ none
      → (if b then x else y).published ≡ some u
      → y.published ≡ some u
  not_then true x y n h = absurd (none-absurd (sym n ∙ h))
  not_then false x y n h = h

  pub not_else :
      (b : Bool) (x y : Outcome D J)
      → y.published ≡ none
      → (if b then x else y).published ≡ some u
      → x.published ≡ some u
  not_else true x y n h = h
  not_else false x y n h = absurd (none-absurd (sym n ∙ h))
