-- ===== src/Text/Joining.antt =====
-- Laws of joining texts.
use Prim.Native.String.{String}
use trade_station.Common.{◌≡◌, refl}
use trade_station.Text.{◌<>◌}

pub append-empty : (s : String) → s <> "" ≡ s
append-empty String.[] = refl
append-empty (String.◌∷◌ c s) = cc (append-empty s)

pub join_assoc : (s t u : String) → (s <> t) <> u ≡ s <> (t <> u)
join_assoc String.[] t u = refl
join_assoc (String.◌∷◌ c s) t u = cc (join_assoc s t u)
