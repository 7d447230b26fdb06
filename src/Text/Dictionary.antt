-- ===== src/Text/Dictionary.antt =====
-- std::map from texts to texts, as the list of its entries in the order of their keys.
use Prim.Native.Char.{code}
use trade_station.Common.{
  ◌≡◌, refl, ◌≢◌, Bool, true, false, ◌||◌, ◌&&◌, Option, none, some, String, List, [], ◌∷◌, ltb,
  ◌==◌, str_eq, str_eq_self, str_eq_ne, str_eq→eq, if◌then◌else◌, Bool-cases, inl, inr, sym, ◌∙◌,
}

abbrev pub Dictionary : Type 0
Dictionary = List (String × String)

-- std::less<std::string>
unfoldable pub less : String → String → Bool
less s String.[] = false
less String.[] (String.◌∷◌ d t) = true
less (String.◌∷◌ c s) (String.◌∷◌ d t) =
    let rest = less s t in ltb (code c) (code d) || ((code c == code d) && rest)

-- `m[k] = v`
unfoldable pub assign : String → String → Dictionary → Dictionary
assign k v [] = (k, v) ∷ []
assign k v ((j, w) ∷ m) =
    let rest = assign k v m in
    if str_eq k j then (k, v) ∷ m else (if less k j then (k, v) ∷ (j, w) ∷ m else (j, w) ∷ rest)

-- `m.find(k)`
unfoldable pub find : String → Dictionary → Option String
find k [] = none
find k ((j, w) ∷ m) = let rest = find k m in if str_eq k j then some w else rest

-- `m.erase(k)`
unfoldable pub erase : String → Dictionary → Dictionary
erase k [] = []
erase k ((j, w) ∷ m) = let rest = erase k m in if str_eq k j then rest else (j, w) ∷ rest

pub find-assign : (k v : String) (m : Dictionary) → find k (assign k v m) ≡ some v
unfolding find assign
find-assign k v [] = simp (str_eq_self k)
find-assign k v ((j, w) ∷ m) = elim (Bool-cases (str_eq k j)) [
  | inl e ↦ simp (e, str_eq_self k)
  | inr e ↦ elim (Bool-cases (less k j)) [
    | inl l ↦ simp (e, l, str_eq_self k)
    | inr l ↦ simp (e, l, find-assign k v m)
  ]
]

pub find-erase : (k : String) (m : Dictionary) → find k (erase k m) ≡ none
unfolding find erase
find-erase k [] = refl
find-erase k ((j, w) ∷ m) = elim (Bool-cases (str_eq k j)) [
  | inl e ↦ simp (e, find-erase k m)
  | inr e ↦ simp (e, find-erase k m)
]

-- A key that is equal to one is different from what that one is different from.
ne_by : (i k j : String) → i ≢ k → str_eq k j ≡ true → str_eq i j ≡ false
ne_by i k j ne e = str_eq_ne i j (λ h. ne (h ∙ sym (str_eq→eq k j e)))

pub find-assign_other : (i k v : String) (m : Dictionary) → i ≢ k → find i (assign k v m) ≡ find i m
unfolding find assign
find-assign_other i k v [] ne = simp (str_eq_ne i k ne)
find-assign_other i k v ((j, w) ∷ m) ne = elim (Bool-cases (str_eq k j)) [
  | inl e ↦ simp (e, str_eq_ne i k ne, ne_by i k j ne e)
  | inr e ↦ elim (Bool-cases (less k j)) [
    | inl l ↦ simp (e, l, str_eq_ne i k ne)
    | inr l ↦ simp (e, l, find-assign_other i k v m ne)
  ]
]

pub find-erase_other : (i k : String) (m : Dictionary) → i ≢ k → find i (erase k m) ≡ find i m
unfolding find erase
find-erase_other i k [] ne = refl
find-erase_other i k ((j, w) ∷ m) ne = elim (Bool-cases (str_eq k j)) [
  | inl e ↦ simp (e, ne_by i k j ne e, find-erase_other i k m ne)
  | inr e ↦ simp (e, find-erase_other i k m ne)
]
