-- ===== src/Render/Format/Commas.antt =====
-- Reading a formatted number: the separators and the zeros at its end are all that the format changes.
use Prim.Native.Char.{code}
use trade_station.Common.{
  ℕ, zero, suc, ◌-◌, ◌≡◌, refl, sym, ap, ◌∙◌, true, ◌==◌, String, Bool-cases, inl, inr, arith,
  if◌then◌else◌,
}
use trade_station.Text.{◌<>◌}
use trade_station.Rest.Splitting.{lacks}
use trade_station.Render.Format.{
  size, insert_comma, commas, with_commas, whole_part, decimal_part, trimmed, smart,
}

-- A text without its commas.
unfoldable pub read_commas : String → String
read_commas String.[] = ""
read_commas (String.◌∷◌ c s) =
    let rest = read_commas s in if code c == b',' then rest else String.◌∷◌ c rest

read_commas-insert_comma : (n : ℕ) (s : String) → read_commas (insert_comma n s) ≡ read_commas s
unfolding read_commas insert_comma
read_commas-insert_comma zero s = refl
read_commas-insert_comma (suc n) String.[] = refl
read_commas-insert_comma (suc n) (String.◌∷◌ c s) = rw (read_commas-insert_comma n s) refl

read_commas-commas : (n : ℕ) (s : String) → read_commas (commas n s) ≡ read_commas s
unfolding commas
read_commas-commas zero s = refl
read_commas-commas (suc zero) s = read_commas-insert_comma 1 s
read_commas-commas (suc (suc zero)) s = read_commas-insert_comma 2 s
read_commas-commas (suc (suc (suc n))) s =
    read_commas-commas n (insert_comma (suc (suc (suc n))) s)
    ∙ read_commas-insert_comma (suc (suc (suc n))) s

read_commas-<> : (s t : String) → read_commas (s <> t) ≡ read_commas s <> read_commas t
unfolding read_commas
read_commas-<> String.[] t = refl
read_commas-<> (String.◌∷◌ c s) t = elim (Bool-cases (code c == b',')) [
  | inl e ↦ simp (e, read_commas-<> s t)
  | inr e ↦ simp (e, read_commas-<> s t)
]

read_commas-lacks : (s : String) → lacks b',' s ≡ true → read_commas s ≡ s
unfolding read_commas lacks
read_commas-lacks String.[] h = refl
read_commas-lacks (String.◌∷◌ c s) h = elim (Bool-cases (code c == b',')) [
  | inl e ↦ ground (arith, h, e)
  | inr e ↦ simp (e, read_commas-lacks s (ground (arith, h, e)))
]

whole_part-decimal_part : (s : String) → whole_part s <> decimal_part s ≡ s
unfolding whole_part decimal_part
whole_part-decimal_part String.[] = refl
whole_part-decimal_part (String.◌∷◌ c s) = elim (Bool-cases (code c == b'.')) [
  | inl e ↦ simp e
  | inr e ↦ simp (e, whole_part-decimal_part s)
]

-- A formatted number without its commas is the number that was written, without the zeros and the point
-- at its end.
read_commas-smart : (s : String) → lacks b',' (trimmed s) ≡ true → read_commas (smart s) ≡ trimmed s
unfolding smart with_commas
read_commas-smart s h =
    read_commas-<> (with_commas (whole_part (trimmed s))) (decimal_part (trimmed s))
    ∙ ap (λ t. t <> read_commas (decimal_part (trimmed s)))
        (read_commas-commas (size (whole_part (trimmed s)) - 3) (whole_part (trimmed s)))
    ∙ sym (read_commas-<> (whole_part (trimmed s)) (decimal_part (trimmed s)))
    ∙ ap read_commas (whole_part-decimal_part (trimmed s))
    ∙ read_commas-lacks (trimmed s) h
