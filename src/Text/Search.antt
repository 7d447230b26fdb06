-- ===== src/Text/Search.antt =====
-- Searching for a text that occurs.
use Prim.Native.String.{String}
use trade_station.Common.{◌≡◌, refl, true, arith}
use trade_station.Text.{◌<>◌, starts_with, contains_text}

starts_with_self : (t rest : String) → starts_with (t <> rest) t ≡ true
unfolding starts_with
starts_with_self String.[] String.[] = refl
starts_with_self String.[] (String.◌∷◌ c s) = refl
starts_with_self (String.◌∷◌ c t) rest = ground (arith, starts_with_self t rest)

contains_text_start : (t rest : String) → contains_text (t <> rest) t ≡ true
unfolding contains_text starts_with
contains_text_start String.[] String.[] = refl
contains_text_start String.[] (String.◌∷◌ c s) = refl
contains_text_start (String.◌∷◌ c t) rest = ground (arith, starts_with_self t rest)

-- A text is found wherever it stands.
pub contains_text_within : (prefix t rest : String) → contains_text (prefix <> (t <> rest)) t ≡ true
unfolding contains_text
contains_text_within String.[] t rest = contains_text_start t rest
contains_text_within (String.◌∷◌ c prefix) t rest =
    ground (arith, contains_text_within prefix t rest)
