-- ===== src/Feed/Examples.antt =====
-- The best of three levels.
use mathlib.Core.List.{Permᴰ}
use trade_station.Common.{ℕ, ◌≡◌, List, [], ◌∷◌, ◌++◌, length, min}
use trade_station.Book.{PriceLevel}
use trade_station.Feed.Levels.{best, Sorted, best_lem}
use trade_station.Feed.Snapshot.{lower}
use trade_station.Feed.Sample.{naturals, lower-IsOrder}

abbrev three : List (PriceLevel ℕ)
three =
    record { price = 3; quantity = 1 }
    ∷ record { price = 2; quantity = 1 }
    ∷ record { price = 4; quantity = 1 }
    ∷ []

best_lem_example :
    (rest : List (PriceLevel ℕ)) × Permᴰ (best (lower naturals) three ++ rest) three
    × Sorted (lower naturals) (best (lower naturals) three ++ rest)
    × (length (best (lower naturals) three) ≡ min 5 (length three))
best_lem_example = best_lem (lower naturals) lower-IsOrder three
