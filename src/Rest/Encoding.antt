-- ===== src/Rest/Encoding.antt =====
-- Percent-encoding, read back.
use Prim.Native.Char.{code}
use trade_station.Common.{
  ℕ, zero, suc, ◌+◌, ◌*◌, ◌/◌, ◌%◌, ◌<◌, ◌≡◌, refl, true, false, Option, none, some, ◌>>=◌, String,
  List, [], ◌∷◌, ◌==◌, if◌then◌else◌, arith, Bool-cases, inl, inr,
}
use trade_station.Rest.{char_at, two_digits, lower_digits, to_hex, is_plain, url_encode}
use trade_station.Rest.Hex.{digit_value, upper-value, two_digits-sum}

-- The bytes of a text.
abbrev pub codes : String → List ℕ
codes String.[] = []
codes (String.◌∷◌ c s) = code c ∷ codes s

abbrev pub IsBytes : String → Type 0
IsBytes String.[] = Unit
IsBytes (String.◌∷◌ c s) = (code c < 256) × IsBytes s

-- What has been read of an escape.
pub data Pending : Type 0 where
  outside percent : Pending
  high : ℕ → Pending

-- A decoder as RFC 3986 describes it.
unfoldable pub url_decode : Pending → String → Option (List ℕ)
url_decode outside String.[] = some []
url_decode percent String.[] = none
url_decode (high h) String.[] = none
url_decode outside (String.◌∷◌ c s) =
    let escape = url_decode percent s in
    let rest = url_decode outside s in
    if code c == b'%' then escape else rest >>= (λ bytes. some (code c ∷ bytes))
url_decode percent (String.◌∷◌ c s) = digit_value b'A' (code c) >>= (λ h. url_decode (high h) s)
url_decode (high h) (String.◌∷◌ c s) =
    let rest = url_decode outside s in
    digit_value b'A' (code c) >>= (λ l. rest >>= (λ bytes. some ((h * 16 + l) ∷ bytes)))

plain_no_percent : (n : ℕ) → is_plain n ≡ true → (n == b'%') ≡ false
unfolding is_plain
plain_no_percent n h = ground arith

pub decode-url_encode :
    (s : String) → IsBytes s → url_decode outside (url_encode s) ≡ some (codes s)
unfolding url_decode url_encode two_digits
decode-url_encode String.[] h = refl
decode-url_encode (String.◌∷◌ c s) (h, hs) = elim (Bool-cases (is_plain (code c))) [
  | inl e ↦ simp (e, plain_no_percent (code c) e, decode-url_encode s hs)
  | inr e ↦ simp (
    e,
    upper-value (code c / 16) (omega arith),
    upper-value (code c % 16) (omega arith),
    decode-url_encode s hs,
    two_digits-sum (code c),
  )
]

char_at-byte : (s : String) (k : ℕ) → IsBytes s → code (char_at s k) < 256
unfolding char_at
char_at-byte String.[] k h = omega arith
char_at-byte (String.◌∷◌ c s) zero (h, hs) = h
char_at-byte (String.◌∷◌ c s) (suc k) (h, hs) = char_at-byte s k hs

lower-IsBytes : IsBytes lower_digits
lower-IsBytes = ground arith

pub to_hex-IsBytes : (bytes : List ℕ) → IsBytes (to_hex bytes)
unfolding to_hex two_digits
to_hex-IsBytes [] = tt
to_hex-IsBytes (b ∷ bytes) = (
  char_at-byte lower_digits (b / 16) lower-IsBytes,
  (char_at-byte lower_digits (b % 16) lower-IsBytes, to_hex-IsBytes bytes),
)
