-- ===== src/Text.antt =====
-- The string operations of the program: C string copies, concatenation, case, search.
pub mod Search
pub mod Joining
pub mod Dictionary
use Prim.Native.Char.{Char, code}
use Prim.Native.String
use Prim.Native.String.{String}
use trade_station.Common.{
  ℕ, zero, suc, ◌+◌, ◌-◌, ◌≡◌, refl, Bool, true, false, ◌&&◌, ◌||◌, List, [], ◌∷◌, Option, some,
  none, ltb, leb, ◌==◌, if◌then◌else◌, length, map,
}
use text.Mathlib.Text.{find?}

-- `strncpy(buffer, s, n)` into a buffer of zeros: the first `n` characters, up to a NUL.
unfoldable pub take_chars : ℕ → String → String
take_chars zero s = ""
take_chars (suc n) String.[] = ""
take_chars (suc n) (String.◌∷◌ c s) =
    let rest = take_chars n s in if code c == 0 then "" else String.◌∷◌ c rest

-- `std::string::operator+`.
infixl 65 ◌<>◌
abbrev pub ◌<>◌ : String → String → String
String.[] <> t = t
String.◌∷◌ c s <> t = String.◌∷◌ c (s <> t)

-- `s.empty()`
abbrev pub empty : String → Bool
empty String.[] = true
empty (String.◌∷◌ c s) = false

-- The occurrence of `t` at the front of `s`.
unfoldable pub starts_with : String → String → Bool
starts_with s String.[] = true
starts_with String.[] (String.◌∷◌ d t) = false
starts_with (String.◌∷◌ c s) (String.◌∷◌ d t) = (code c == code d) && starts_with s t

-- `s.find(t) != npos`
unfoldable pub contains_text : String → String → Bool
contains_text String.[] t = empty t
contains_text (String.◌∷◌ c s) t = starts_with (String.◌∷◌ c s) t || contains_text s t

-- The character that stands in `to` where `c` stands in `from`, or `c`.
unfoldable pub translated : Char → String → String → Char
translated c String.[] to = c
translated c (String.◌∷◌ f from) String.[] = c
translated c (String.◌∷◌ f from) (String.◌∷◌ t to) =
    if code c == code f then t else translated c from to

abbrev pub capitals : String
capitals = "ABCDEFGHIJKLMNOPQRSTUVWXYZ"

abbrev pub small_letters : String
small_letters = "abcdefghijklmnopqrstuvwxyz"

-- `tolower` and `toupper` of the C locale, on every character.
unfoldable pub lower_case : String → String
lower_case String.[] = ""
lower_case (String.◌∷◌ c s) = String.◌∷◌ (translated c capitals small_letters) (lower_case s)

unfoldable pub upper_case : String → String
upper_case String.[] = ""
upper_case (String.◌∷◌ c s) = String.◌∷◌ (translated c small_letters capitals) (upper_case s)
