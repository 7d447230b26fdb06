-- ===== src/Rest/Splitting.antt =====
-- Texts split at a character, and the characters that percent-encoding does not write.
use Prim.Native.Char.{Char, code}
use trade_station.Common.{
  ℕ, zero, suc, ◌/◌, ◌%◌, ◌≡◌, refl, true, false, Bool, not, ◌&&◌, String, List, [], ◌∷◌, ◌==◌,
  if◌then◌else◌, arith, sym, Bool-cases, inl, inr,
}
use trade_station.Text.{◌<>◌}
use trade_station.Rest.{char_at, two_digits, upper_digits, is_plain, url_encode}

-- The first part has one more character.
unfoldable pub onto_first : Char → List String → List String
onto_first c [] = (String.◌∷◌ c "") ∷ []
onto_first c (t ∷ ts) = (String.◌∷◌ c t) ∷ ts

-- The parts between the characters with the code `n`; there is always one.
unfoldable pub splits : ℕ → String → List String
splits n String.[] = "" ∷ []
splits n (String.◌∷◌ c s) =
    let rest = splits n s in if code c == n then "" ∷ rest else onto_first c rest

unfoldable pub lacks : ℕ → String → Bool
lacks n String.[] = true
lacks n (String.◌∷◌ c s) = let rest = lacks n s in not (code c == n) && rest

unfoldable pub prefixed : String → List String → List String
prefixed t [] = t ∷ []
prefixed t (s ∷ ts) = (t <> s) ∷ ts

onto_first-prefixed :
    (c : Char) (t : String) (ts : List String)
    → onto_first c (prefixed t ts) ≡ prefixed (String.◌∷◌ c t) ts
unfolding onto_first prefixed
onto_first-prefixed c t [] = refl
onto_first-prefixed c t (s ∷ ts) = refl

prefixed-onto_first :
    (c : Char) (ts : List String) → prefixed "" (onto_first c ts) ≡ onto_first c ts
unfolding onto_first prefixed
prefixed-onto_first c [] = refl
prefixed-onto_first c (t ∷ ts) = refl

prefixed-splits : (n : ℕ) (s : String) → prefixed "" (splits n s) ≡ splits n s
unfolding prefixed splits
prefixed-splits n String.[] = refl
prefixed-splits n (String.◌∷◌ c s) = elim (Bool-cases (code c == n)) [
  | inl e ↦ simp e
  | inr e ↦ simp (e, prefixed-onto_first c (splits n s))
]

-- A text without the character stands whole in the first part.
pub splits-append :
    (n : ℕ) (t s : String) → lacks n t ≡ true → splits n (t <> s) ≡ prefixed t (splits n s)
unfolding lacks splits
splits-append n String.[] s h = sym (prefixed-splits n s)
splits-append n (String.◌∷◌ c t) s h = elim (Bool-cases (code c == n)) [
  | inl e ↦ ground arith
  | inr e ↦ simp (e, splits-append n t s (ground arith), onto_first-prefixed c t (splits n s))
]

lacks-append :
    (n : ℕ) (t s : String) → lacks n t ≡ true → lacks n s ≡ true → lacks n (t <> s) ≡ true
unfolding lacks
lacks-append n String.[] s ht hs = hs
lacks-append n (String.◌∷◌ c t) s ht hs = ground (arith, lacks-append n t s)

char_at-ne :
    (n : ℕ) (s : String) (k : ℕ)
    → lacks n s ≡ true
    → (0 == n) ≡ false
    → (code (char_at s k) == n) ≡ false
unfolding lacks char_at
char_at-ne n String.[] k h z = z
char_at-ne n (String.◌∷◌ c s) zero h z = ground arith
char_at-ne n (String.◌∷◌ c s) (suc k) h z = char_at-ne n s k (ground arith) z

-- A separator is neither plain, nor a digit, nor the escape character.
pub record IsSeparator (n : ℕ) : Type 0 where
  pub special : is_plain n ≡ false
  pub no_escape : (b'%' == n) ≡ false
  pub no_digit : lacks n upper_digits ≡ true
  pub no_nul : (0 == n) ≡ false

plain_ne : (n m : ℕ) → is_plain n ≡ true → is_plain m ≡ false → (n == m) ≡ false
plain_ne n m hn hm = ground arith

pub lacks-url_encode : (n : ℕ) → IsSeparator n → (s : String) → lacks n (url_encode s) ≡ true
unfolding lacks url_encode two_digits
lacks-url_encode n sep String.[] = refl
lacks-url_encode n sep (String.◌∷◌ c s) = elim (Bool-cases (is_plain (code c))) [
  | inl e ↦ simp (e, plain_ne (code c) n e sep.special, lacks-url_encode n sep s)
  | inr e ↦ simp (
    e,
    sep.no_escape,
    char_at-ne n upper_digits (code c / 16) sep.no_digit sep.no_nul,
    char_at-ne n upper_digits (code c % 16) sep.no_digit sep.no_nul,
    lacks-url_encode n sep s,
  )
]

pub ampersand-IsSeparator : IsSeparator b'&'
unfolding is_plain lacks
ampersand-IsSeparator = record { special = refl; no_escape = refl; no_digit = refl; no_nul = refl }

pub equals-IsSeparator : IsSeparator b'='
unfolding is_plain lacks
equals-IsSeparator = record { special = refl; no_escape = refl; no_digit = refl; no_nul = refl }
