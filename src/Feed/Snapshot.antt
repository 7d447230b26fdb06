-- ===== src/Feed/Snapshot.antt =====
-- A full order book as LBank and BingX send it: two sides, in no particular order.
use trade_station.Common.{◌&&◌, Bool, Option, some, ◌>>=◌, String, List, [], if◌then◌else◌}
use trade_station.Floats.{Floats}
use trade_station.Book.{PriceLevel}
use trade_station.Feed.{Json, to_d, collect}
use trade_station.Feed.Levels.{best}

-- Comparisons that put the best bid and the best ask first.
unfoldable pub higher : (F : Floats) → PriceLevel F.D → PriceLevel F.D → Bool
higher F a b = F.lt b.price a.price

unfoldable pub lower : (F : Floats) → PriceLevel F.D → PriceLevel F.D → Bool
lower F a b = F.lt a.price b.price

module _ (F : Floats) (api : Json F.D) where
  -- One side of `parse_snapshot`, also of BingXHandler's. A side that is missing has no levels.
  unfoldable pub side_of :
      (PriceLevel F.D → PriceLevel F.D → Bool) → api.J → String → Option (List (PriceLevel F.D))
  side_of better depth key =
      if api.contains depth key && api.is_array (api.field depth key)
      then collect F api (api.elements (api.field depth key)) >>= (λ ls. some (best better ls))
      else some []

  -- A number, where the key is there; the value of a new Trade otherwise.
  unfoldable pub number_at : api.J → String → Option F.D
  number_at t key = if api.contains t key then to_d F api (api.field t key) else some F.nought
