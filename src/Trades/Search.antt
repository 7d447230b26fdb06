-- ===== src/Trades/Search.antt =====
-- scr/trades.h, `find_idx`: what the search for a row finds, also when a row is added.
use trade_station.Common.{
  ℕ, zero, suc, ◌+◌, ◌≤◌, ◌<◌, ◌≡◌, refl, ap, ◌∙◌, ◌⊎◌, inl, inr, Bool, false, Option, none, some,
  String, str_eq, str_eq→eq, arith, if◌then◌else◌, Bool-cases,
}
use trade_station.Trades.{find_from}

-- What the search for a row finds.
pub find_from_lem :
    (names : ℕ → String) (name : String) (i n : ℕ)
    → (find_from names name i n ≡ none)
      ⊎ ((k : ℕ) × (find_from names name i n ≡ some k) × (i ≤ k) × (k < i + n) × (names k ≡ name))
unfolding find_from
find_from_lem names name i zero = inl refl
find_from_lem names name i (suc n) = elim (Bool-cases (str_eq (names i) name)) [
  | inl e ↦ inr (i, rw e, omega arith, omega arith, str_eq→eq (names i) name e)
  | inr ne ↦ elim (find_from_lem names name (suc i) n) [
    | inl miss ↦ inl (rw (ne, miss))
    | inr (k, hit, ge, lt, e) ↦ inr (k, rw (ne, hit), omega arith, omega arith, e)
  ]
]

-- One more row, at the end, is found if no other is.
abbrev pub or_last : Option ℕ → Bool → ℕ → Option ℕ
or_last (some k) b i = some k
or_last none b i = if b then some i else none

pub or_last-false : (o : Option ℕ) (i : ℕ) → or_last o false i ≡ o
or_last-false none i = refl
or_last-false (some k) i = refl

pub find_from-suc :
    (names extended : ℕ → String) (name : String) (i n : ℕ)
    → ((j : ℕ) → j < i + n → extended j ≡ names j)
    → find_from extended name i (suc n)
      ≡ or_last (find_from names name i n) (str_eq (extended (i + n)) name) (i + n)
unfolding find_from
find_from-suc names extended name i zero same =
    ap (λ k. if str_eq (extended k) name then some k else none) {x = i} {y = i + 0} (omega arith)
find_from-suc names extended name i (suc n) same = elim (Bool-cases (str_eq (names i) name)) [
  | inl e ↦ rw (same i (omega arith), e)
  | inr ne ↦
      rw (same i (omega arith), ne)
        (find_from-suc names extended name (suc i) n (λ j lt. same j (omega arith))
          ∙ ap (λ k. or_last (find_from names name (suc i) n) (str_eq (extended k) name) k)
              {x = suc i + n} {y = i + suc n} (omega arith))
]
