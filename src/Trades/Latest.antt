-- ===== src/Trades/Latest.antt =====
-- The rows of the arrays against lists: a row holds the latest 20 trades, newest first.
use mathlib.Core.Bool.{false≢true}
use trade_station.Common.{
  ℕ, suc, ◌+◌, ◌≤◌, ◌<◌, ◌≡◌, ◌≢◌, refl, sym, ap, subst, ◌∙◌, inl, inr, Option, none, some, String,
  lt→ltb, str_eq, str_eq→eq, str_eq_ne, str_eq_self, eq_iff, update, update_self, update_ne, first,
  List, [], ◌∷◌, take, arith, if◌then◌else◌, Bool-cases, Option-cases,
}
use trade_station.Text.{take_chars}
use trade_station.Trades.Search.{find_from_lem, or_last, or_last-false, find_from-suc}
use trade_station.Trades.Shift.{row-prepend}
use trade_station.Trades.{
  Trade, SharedTrades, max_trades, max_ex, find_from, find_idx, find_or_create, shift, prepend, add,
  snapshot,
}

module _ {D : Type 0} where
  pub record IsValid (s : SharedTrades D) : Type 0 where
    pub few : s.exchange_count ≤ max_ex
    pub bounded : (i : ℕ) → s.counts i ≤ max_trades
    pub unused : (i : ℕ) → s.exchange_count ≤ i → s.counts i ≡ 0

  -- A trade of an exchange that has a row, or can get one.
  abbrev pub HasRoom : SharedTrades D → String → Type 0
  HasRoom s name = find_idx s name ≡ none → s.exchange_count < max_ex

  -- The row that `add` writes to, in the state that `find_or_create` leaves.
  record Row (s : SharedTrades D) (name : String) (i : ℕ) (s' : SharedTrades D) : Type 0 where
    made : find_or_create s name ≡ (some i, s')
    valid : IsValid s'
    own : find_idx s' name ≡ some i
    same : first (s'.counts i) (s'.trades i) ≡ snapshot s name
    others : (other : String) → name ≢ other → snapshot s' other ≡ snapshot s other

  old-Row :
      (s : SharedTrades D) (name : String) (k : ℕ)
      → IsValid s
      → find_idx s name ≡ some k
      → s.names k ≡ name
      → Row s name k s
  unfolding find_or_create snapshot
  old-Row s name k v hit named = record {
    made = rw (hit, find_or_create);
    valid = v;
    own = hit;
    same = rw (hit, snapshot);
    others = λ other ne. refl;
  }

  found_name :
      (s : SharedTrades D) (name : String) (k : ℕ)
      → find_idx s name ≡ some k
      → (s.names k ≡ name) × (k < s.exchange_count)
  unfolding find_idx
  found_name s name k h = elim (find_from_lem s.names name 0 s.exchange_count) [
    | inl miss ↦ absurd (cc)
    | inr (j, hit, ge, lt, e) ↦
        let same : j ≡ k = cc in
        subst (λ i. (s.names i ≡ name) × (i < s.exchange_count)) same (e, omega arith)
  ]

  module _ (s : SharedTrades D) (name : String) where
    -- `find_or_create` where there is no row and room for one.
    grown : SharedTrades D
    grown = record s {
      exchange_count = s.exchange_count + 1;
      names = update s.names s.exchange_count (take_chars 15 name);
    }

    find_idx-grown :
        take_chars 15 name ≡ name
        → (x : String) → find_idx grown x ≡ or_last (find_idx s x) (str_eq name x) s.exchange_count
    unfolding grown find_idx
    find_idx-grown short x =
        ap (find_from grown.names x 0) {x = s.exchange_count + 1} {y = suc s.exchange_count}
          (omega arith)
        ∙ find_from-suc s.names grown.names x 0 s.exchange_count
            (λ j lt. update_ne s.names (take_chars 15 name) (omega arith))
        ∙ ap (λ k. or_last (find_idx s x) (str_eq (grown.names k) x) k) {x = 0 + s.exchange_count}
            {y = s.exchange_count} (omega arith)
        ∙ ap (λ n. or_last (find_idx s x) (str_eq n x) s.exchange_count)
            (update_self s.names s.exchange_count (take_chars 15 name) ∙ short)

    new-Row :
        IsValid s
        → take_chars 15 name ≡ name
        → find_idx s name ≡ none
        → s.exchange_count < max_ex
        → Row s name s.exchange_count grown
    unfolding find_or_create snapshot grown
    new-Row v short miss fits = record {
      made = rw (miss, find_or_create) (rw (lt→ltb s.exchange_count max_ex fits));
      valid = record {
        few = omega arith;
        bounded = v.bounded;
        unused = λ i le. v.unused i (omega arith);
      };
      own = find_idx-grown short name ∙ rw (miss, str_eq_self);
      same =
          rw (miss, snapshot)
            (ap (λ n. first n (s.trades s.exchange_count))
              (v.unused s.exchange_count (omega arith)));
      others = λ other ne. ap (λ o. row_of o) (find_idx-grown short other ∙ unmatched other ne);
    }
      where
        row_of : Option ℕ → List (Trade D)
        row_of none = []
        row_of (some i) = first (s.counts i) (s.trades i)

        unmatched :
            (other : String)
            → name ≢ other
            → or_last (find_idx s other) (str_eq name other) s.exchange_count ≡ find_idx s other
        unmatched other ne =
            rw (str_eq_ne name other ne) (or_last-false (find_idx s other) s.exchange_count)

  row_lem :
      (s : SharedTrades D) (name : String)
      → IsValid s
      → take_chars 15 name ≡ name
      → HasRoom s name
      → (i : ℕ) × (s' : SharedTrades D) × Row s name i s'
  row_lem s name v short room = elim (Option-cases (find_idx s name)) [
    | inl miss ↦ (s.exchange_count, grown s name, new-Row s name v short miss (room miss))
    | inr (k, hit) ↦ (k, s, old-Row s name k v hit (found_name s name k hit).0)
  ]

  prepend-IsValid :
      (s : SharedTrades D) (name : String) (i : ℕ) (t : Trade D)
      → find_idx s name ≡ some i
      → IsValid s
      → IsValid (prepend s i t)
  unfolding prepend
  prepend-IsValid s name i t hit v = record {
    few = v.few;
    bounded = λ j. ground (arith, v.bounded i, v.bounded j);
    unused = λ j le. ground (arith, v.unused j le, (found_name s name i hit).1);
  }

  snapshot-prepend_self :
      (s : SharedTrades D) (name : String) (i : ℕ) (t : Trade D)
      → find_idx s name ≡ some i
      → snapshot (prepend s i t) name ≡ first ((prepend s i t).counts i) ((prepend s i t).trades i)
  unfolding snapshot prepend find_idx
  snapshot-prepend_self s name i t hit = rw (hit, snapshot)

  snapshot-prepend_ne :
      (s : SharedTrades D) (other : String) (i : ℕ) (t : Trade D)
      → find_idx s other ≢ some i
      → snapshot (prepend s i t) other ≡ snapshot s other
  unfolding snapshot prepend find_idx
  snapshot-prepend_ne s other i t ne = elim (Option-cases (find_idx s other)) [
    | inl miss ↦ rw (miss, snapshot)
    | inr (k, hit) ↦
        let apart : i ≢ k = λ e. ne (hit ∙ ap some (sym e)) in
        rw (hit, snapshot)
          (ap (λ n. first n (update s.trades i (update (shift 19 (s.trades i)) 0 t) k))
              (count k apart)
            ∙ ap (first (s.counts k))
                (update_ne s.trades (update (shift 19 (s.trades i)) 0 t) apart))
  ]
    where
      count : (k : ℕ) → i ≢ k → (prepend s i t).counts k ≡ s.counts k
      count k apart = ground arith

  -- What each exchange shows after one more trade of one of them, where that one has a row or
  -- room for one and its name fits the 15 characters stored: the trade goes in front of its
  -- exchange's trades, of which the first 20 are kept, and the others stay as they are. The state
  -- stays valid.
  pub snapshot-add :
      (s : SharedTrades D) (name : String) (t : Trade D)
      → IsValid s
      → take_chars 15 name ≡ name
      → HasRoom s name
      → IsValid (add s name t)
        × ((other : String)
            → snapshot (add s name t) other
              ≡ (if str_eq name other then take 20 (t ∷ snapshot s name) else snapshot s other))
  unfolding add
  snapshot-add s name t v short room = rw written (prepend-IsValid s' name i t r.own r.valid, shown)
    where
      i : ℕ
      i = (row_lem s name v short room).0

      s' : SharedTrades D
      s' = (row_lem s name v short room).1

      r : Row s name i s'
      r = (row_lem s name v short room).2

      put : Option ℕ × SharedTrades D → SharedTrades D
      put (none, a) = a
      put (some k, a) = prepend a k t

      by_put :
          (p : Option ℕ × SharedTrades D)
          → (elim p.0 [ none ↦ p.1 | some k ↦ prepend p.1 k t ]) ≡ put p
      by_put (none, a) = refl
      by_put (some k, a) = refl

      written : add s name t ≡ prepend s' i t
      written = by_put (find_or_create s name) ∙ ap put r.made

      shown :
          (other : String)
          → snapshot (prepend s' i t) other
            ≡ (if str_eq name other then take 20 (t ∷ snapshot s name) else snapshot s other)
      shown other = elim (Bool-cases (str_eq name other)) [
        | inl e ↦
            subst
              (λ x.
                snapshot (prepend s' i t) x
                ≡ (if str_eq name x then take 20 (t ∷ snapshot s name) else snapshot s x))
              (str_eq→eq name other e)
              (rw (str_eq_self name) (
                snapshot-prepend_self s' name i t r.own
                ∙ row-prepend s' i t (r.valid.bounded i)
                ∙ ap (λ l. take 20 (t ∷ l)) r.same))
        | inr ne ↦
            let apart : name ≢ other = λ eq. false≢true (sym ne ∙ (eq_iff name other).1 eq) in
            rw ne (
              snapshot-prepend_ne s' other i t (λ found.
                apart (sym (found_name s' name i r.own).0 ∙ (found_name s' other i found).0))
              ∙ r.others other apart)
      ]
