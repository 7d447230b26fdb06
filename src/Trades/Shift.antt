-- ===== src/Trades/Shift.antt =====
-- scr/trades.h, `add`: the row that a trade is put in front of.
use native.Mathlib.Decide.{ℕ_discrete}
use trade_station.Common.{
  ℕ, zero, suc, ◌+◌, ◌≤◌, ◌<◌, min, ◌≡◌, refl, sym, ap, subst, ◌∙◌, inl, inr, ltb, ltb→lt,
  le_of_ltb, update, update_self, update_ne, first, window-shifted, take-window, ◌∷◌, take, arith,
  Bool-cases,
}
use trade_station.Trades.{Trade, SharedTrades, max_trades, shift, prepend}

module _ {D : Type 0} where
  shift_lem :
      (i : ℕ) (row : ℕ → Trade D)
      → ((j : ℕ) → j < i → shift i row (suc j) ≡ row j) × ((j : ℕ) → i < j → shift i row j ≡ row j)
  unfolding shift
  shift_lem zero row = (λ j lt. absurd (omega arith), λ j lt. refl)
  shift_lem (suc i) row = moved (shift_lem i (update row (suc i) (row i)))
    where
      moved :
          ((j : ℕ)
              → j < i
              → shift i (update row (suc i) (row i)) (suc j) ≡ update row (suc i) (row i) j)
            × ((j : ℕ)
                → i < j
                → shift i (update row (suc i) (row i)) j ≡ update row (suc i) (row i) j)
          → ((j : ℕ) → j < suc i → shift (suc i) row (suc j) ≡ row j)
            × ((j : ℕ) → suc i < j → shift (suc i) row j ≡ row j)
      moved ih = (
        λ j lt. elim (ℕ_discrete i j) [
          | yes e ↦
              subst (λ k. shift (suc i) row (suc k) ≡ row k) e
                (ih.1 (suc i) (omega arith) ∙ update_self row (suc i) (row i))
          | no ne ↦ ih.0 j (omega arith) ∙ update_ne row (row i) (omega arith)
        ],
        λ j lt. ih.1 j (omega arith) ∙ update_ne row (row i) (omega arith),
      )

  -- The row with a trade prepended holds the first 20 of the new list.
  pub row-prepend :
      (s : SharedTrades D) (i : ℕ) (t : Trade D)
      → s.counts i ≤ max_trades
      → first ((prepend s i t).counts i) ((prepend s i t).trades i)
        ≡ take 20 (t ∷ first (s.counts i) (s.trades i))
  unfolding prepend
  row-prepend s i t b =
      ap (λ k. first k ((prepend s i t).trades i)) grown
      ∙ ap (first (suc (min 19 (s.counts i)))) (update_self s.trades i front)
      ∙ ap (◌∷◌ t) (
          window-shifted 0 (min 19 (s.counts i)) (s.trades i) front follow
          ∙ sym (take-window 19 0 (s.counts i) (s.trades i)))
    where
      front : ℕ → Trade D
      front = update (shift 19 (s.trades i)) 0 t

      follow : (j : ℕ) → 0 ≤ j → j < 0 + min 19 (s.counts i) → front (suc j) ≡ s.trades i j
      follow j ge lt =
          update_ne (shift 19 (s.trades i)) {i = 0} {j = suc j} t (omega arith)
          ∙ (shift_lem 19 (s.trades i)).0 j (omega arith)

      grown : (prepend s i t).counts i ≡ suc (min 19 (s.counts i))
      grown = elim (Bool-cases (ltb (s.counts i) max_trades)) [
        | inl more ↦ rw more (
            update_self s.counts i (s.counts i + 1)
            ∙ omega (arith, ltb→lt (s.counts i) max_trades more))
        | inr full ↦ rw full (omega (arith, le_of_ltb (s.counts i) max_trades full))
      ]
