-- ===== src/Trades/Clear.antt =====
-- scr/trades.h: `clear_all`, which empties every row and keeps the names.
use mathlib.Core.Path.{ap₂}
use trade_station.Common.{
  ℕ, zero, suc, ◌+◌, ◌≤◌, ◌<◌, ◌≡◌, refl, ap, ◌∙◌, inl, inr, String, [], first, update, update_self,
  update_ne, arith, le_or_lt, ltb, if◌then◌else◌,
}
use trade_station.Trades.{
  Trade, SharedTrades, find_from, find_idx, snapshot, clear_from, clear_all, max_trades,
}
use trade_station.Trades.Search.{find_from_lem}

module _ {D : Type 0} where
  -- One round of the loop.
  abbrev one_cleared : Trade D → ℕ → SharedTrades D → SharedTrades D
  one_cleared blank i s = record s {
    counts = update s.counts i 0;
    trades = update s.trades i (λ j. if ltb j max_trades then blank else s.trades i j);
  }

  clear_from_lem :
      (blank : Trade D) (i n : ℕ) (s : SharedTrades D)
      → ((clear_from blank i n s).names ≡ s.names)
        × ((clear_from blank i n s).exchange_count ≡ s.exchange_count)
        × ((j : ℕ) → j < i → (clear_from blank i n s).counts j ≡ s.counts j)
        × ((j : ℕ) → i ≤ j → j < i + n → (clear_from blank i n s).counts j ≡ 0)
  unfolding clear_from
  clear_from_lem blank i zero s = (refl, refl, λ j lt. refl, λ j ge lt. absurd (omega arith))
  clear_from_lem blank i (suc n) s =
      let (names, count, before, cleared) =
        clear_from_lem blank (suc i) n (one_cleared blank i s) in
      (
        names,
        count,
        λ j lt. before j (omega arith) ∙ update_ne s.counts 0 (omega arith),
        λ j ge lt. elim (le_or_lt (suc i) j) [
          | inl later ↦ cleared j later (omega arith)
          | inr own ↦
              before j own
              ∙ ap (update s.counts i 0) {x = j} {y = i} (omega arith)
              ∙ update_self s.counts i 0
        ],
      )

  -- After `clear_all` no exchange shows a trade, and each keeps its row.
  pub snapshot-clear_all :
      (blank : Trade D) (s : SharedTrades D) (name : String)
      → (snapshot (clear_all blank s) name ≡ [])
        × (find_idx (clear_all blank s) name ≡ find_idx s name)
  unfolding clear_all snapshot find_idx
  snapshot-clear_all blank s name = (
    elim (find_from_lem (clear_all blank s).names name 0 (clear_all blank s).exchange_count) [
      | inl miss ↦ rw (miss, snapshot) refl
      | inr (k, hit, ge, lt, e) ↦
          rw (hit, snapshot)
            (ap (λ n. first n ((clear_all blank s).trades k))
              (lem.3 k (omega arith) (omega (arith, lt, lem.1))))
    ],
    ap₂ (λ h n. find_from h name 0 n) lem.0 lem.1,
  )
    where
      lem :
          ((clear_from blank 0 s.exchange_count s).names ≡ s.names)
          × ((clear_from blank 0 s.exchange_count s).exchange_count ≡ s.exchange_count)
          × ((j : ℕ) → j < 0 → (clear_from blank 0 s.exchange_count s).counts j ≡ s.counts j)
          × ((j : ℕ)
              → 0 ≤ j
              → j < 0 + s.exchange_count
              → (clear_from blank 0 s.exchange_count s).counts j ≡ 0)
      lem = clear_from_lem blank 0 s.exchange_count s
