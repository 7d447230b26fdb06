-- ===== src/Render/Format.antt =====
-- ui/render.cpp: the formats of prices, quantities and totals. snprintf with "%.*f", the whole part of a
-- double and std::to_string of it are parameters.
pub mod Commas
use Prim.Native.Char.{Char, code}
use Prim.Native.String
use trade_station.Common.{
  ℕ, zero, suc, ◌-◌, Bool, true, false, ◌&&◌, ◌==◌, String, ltb, if◌then◌else◌,
}
use trade_station.Floats.{Floats, le}
use trade_station.Text.{◌<>◌, empty}

-- `s.size()`, of a text of bytes.
unfoldable pub size : String → ℕ
size String.[] = 0
size (String.◌∷◌ c s) = suc (size s)

-- `s.insert(n, ",")`
unfoldable pub insert_comma : ℕ → String → String
insert_comma zero s = String.◌∷◌ "," s
insert_comma (suc n) String.[] = ","
insert_comma (suc n) (String.◌∷◌ c s) = String.◌∷◌ c (insert_comma n s)

-- `while (i > 0) { s.insert(i, ","); i -= 3; }`; an `i` below zero ends the loop as zero does.
unfoldable pub commas : ℕ → String → String
commas zero s = s
commas (suc zero) s = insert_comma 1 s
commas (suc (suc zero)) s = insert_comma 2 s
commas (suc (suc (suc i))) s = commas i (insert_comma (suc (suc (suc i))) s)

unfoldable pub with_commas : String → String
with_commas s = commas (size s - 3) s

-- `s.substr(0, s.find_last_not_of('0') + 1)`
unfoldable pub without_zeros : String → String
without_zeros String.[] = ""
without_zeros (String.◌∷◌ c s) =
    let rest = without_zeros s in if empty rest && (code c == b'0') then "" else String.◌∷◌ c rest

-- The `.` at the end goes.
unfoldable pub without_dot : String → String
without_dot String.[] = ""
without_dot (String.◌∷◌ c s) =
    let rest = without_dot s in if empty s && (code c == b'.') then "" else String.◌∷◌ c rest

unfoldable pub has_dot : String → Bool
has_dot String.[] = false
has_dot (String.◌∷◌ c s) = let rest = has_dot s in if code c == b'.' then true else rest

-- The parts of a number before its `.`, and from it on.
unfoldable pub whole_part : String → String
whole_part String.[] = ""
whole_part (String.◌∷◌ c s) =
    let rest = whole_part s in if code c == b'.' then "" else String.◌∷◌ c rest

unfoldable pub decimal_part : String → String
decimal_part String.[] = ""
decimal_part (String.◌∷◌ c s) =
    let rest = decimal_part s in if code c == b'.' then String.◌∷◌ c s else rest

unfoldable pub trimmed : String → String
trimmed s = if has_dot s then without_dot (without_zeros s) else s

-- What `fmt_smart` makes of the number that snprintf has written.
unfoldable pub smart : String → String
smart s = with_commas (whole_part (trimmed s)) <> decimal_part (trimmed s)

-- `s.substr(1)`
unfoldable tail : String → String
tail String.[] = ""
tail (String.◌∷◌ c s) = s

module _ (F : Floats) (printf : ℕ → F.D → String) where
  -- `whole` writes the whole part of a number, `frac` is the rest of it.
  unfoldable fmt_commas : (F.D → String) → (F.D → F.D) → F.D → ℕ → String
  fmt_commas whole frac v decimals =
      let neg = F.lt v F.nought in
      let a = if neg then F.minus F.nought v else v in
      let s = with_commas (whole a) in
      let t = if ltb 0 decimals then s <> tail (printf decimals (frac a)) else s in
      if neg then "-" <> t else t

  unfoldable fmt_smart : F.D → ℕ → String
  fmt_smart v max_dec = if le F v F.nought then "0" else smart (printf max_dec v)

  unfoldable fmt_price : F.D → String
  fmt_price p =
      if le F p F.nought
      then "0"
      else (if le F (F.lit 1000 0) p
          then fmt_smart p 2
          else (if le F (F.lit 1 0) p
              then fmt_smart p 6
              else (if le F (F.lit 1 2) p then fmt_smart p 6 else fmt_smart p 8)))

  unfoldable fmt_qty : F.D → String
  fmt_qty q =
      if le F q F.nought
      then "0"
      else (if le F (F.lit 1000 0) q
          then fmt_smart q 2
          else (if le F (F.lit 1 0) q then fmt_smart q 4 else fmt_smart q 6))

  unfoldable fmt_total : F.D → String
  fmt_total t = fmt_smart t 2
