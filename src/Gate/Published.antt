-- ===== src/Gate/Published.antt =====
-- gate/gate_handler.cpp: which levels a snapshot takes, and what follows a change of symbol.
use trade_station.Common.{
  ℕ, zero, suc, ◌≡◌, refl, inl, inr, List, [], ◌∷◌, take, if◌then◌else◌, Bool-cases,
}
use trade_station.Floats.{Floats}
use trade_station.Feed.{Json, is_level, collect}
use trade_station.Gate.{collect_first}

module _ (F : Floats) (api : Json F.D) where
  -- The elements of a side that are levels.
  unfoldable pub only_levels : List api.J → List api.J
  only_levels [] = []
  only_levels (x ∷ xs) = if is_level F api x then x ∷ only_levels xs else only_levels xs

  -- The loop that counts to five reads the first five elements that are levels, and nothing
  -- behind them: an exception there does not happen.
  pub collect_first_lem :
      (n : ℕ) (levels : List api.J)
      → collect_first F api n levels ≡ collect F api (take n (only_levels levels))
  unfolding collect_first collect only_levels
  collect_first_lem zero levels = refl
  collect_first_lem (suc n) [] = refl
  collect_first_lem (suc n) (x ∷ xs) = elim (Bool-cases (is_level F api x)) [
    | inl e ↦ rw (e, collect_first_lem n xs, collect) (rw e refl)
    | inr e ↦ rw e (collect_first_lem (suc n) xs)
  ]
