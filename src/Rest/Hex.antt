-- ===== src/Rest/Hex.antt =====
-- Digits of base sixteen, read back.
use Prim.Native.Char.{code}
use trade_station.Common.{
  ℕ, zero, suc, ◌+◌, ◌-◌, ◌*◌, ◌/◌, ◌%◌, ◌<◌, ◌≡◌, refl, ◌&&◌, Option, none, some, ◌>>=◌, String,
  List, [], ◌∷◌, All, leb, if◌then◌else◌, arith,
}
use trade_station.Rest.{char_at, two_digits, lower_digits, upper_digits, to_hex}

-- The value of a digit; `letter` is the code of the digit ten.
unfoldable pub digit_value : ℕ → ℕ → Option ℕ
digit_value letter n =
    if leb b'0' n && leb n b'9'
    then some (n - b'0')
    else (if leb letter n && leb n (letter + 5) then some (n - letter + 10) else none)

-- The characters that are left when the bytes have been read.
unfoldable from_hex : String → Option (List ℕ)
from_hex String.[] = some []
from_hex (String.◌∷◌ c String.[]) = none
from_hex (String.◌∷◌ c (String.◌∷◌ d s)) =
    let rest = from_hex s in
    digit_value b'a' (code c)
    >>= (λ h. digit_value b'a' (code d) >>= (λ l. rest >>= (λ bytes. some ((h * 16 + l) ∷ bytes))))

pub upper-value : (k : ℕ) → k < 16 → digit_value b'A' (code (char_at upper_digits k)) ≡ some k
unfolding digit_value char_at
upper-value zero h = refl
upper-value (suc zero) h = refl
upper-value (suc (suc zero)) h = refl
upper-value (suc (suc (suc zero))) h = refl
upper-value (suc (suc (suc (suc zero)))) h = refl
upper-value (suc (suc (suc (suc (suc zero))))) h = refl
upper-value (suc (suc (suc (suc (suc (suc zero)))))) h = refl
upper-value (suc (suc (suc (suc (suc (suc (suc zero))))))) h = refl
upper-value (suc (suc (suc (suc (suc (suc (suc (suc zero)))))))) h = refl
upper-value (suc (suc (suc (suc (suc (suc (suc (suc (suc zero))))))))) h = refl
upper-value (suc (suc (suc (suc (suc (suc (suc (suc (suc (suc zero)))))))))) h = refl
upper-value (suc (suc (suc (suc (suc (suc (suc (suc (suc (suc (suc zero))))))))))) h = refl
upper-value (suc (suc (suc (suc (suc (suc (suc (suc (suc (suc (suc (suc zero)))))))))))) h = refl
upper-value (suc (suc (suc (suc (suc (suc (suc (suc (suc (suc (suc (suc (suc zero))))))))))))) h =
    refl
upper-value (suc (suc (suc (suc (suc (suc (suc (suc (suc (suc (suc (suc (suc (suc zero))))))))))))))
      h =
    refl
upper-value
      (suc (suc (suc (suc (suc (suc (suc (suc (suc (suc (suc (suc (suc (suc (suc zero)))))))))))))))
      h =
    refl
upper-value
      (suc
        (suc (suc (suc (suc (suc (suc (suc (suc (suc (suc (suc (suc (suc (suc (suc k))))))))))))))))
      h =
    absurd (omega arith)

pub lower-value : (k : ℕ) → k < 16 → digit_value b'a' (code (char_at lower_digits k)) ≡ some k
unfolding digit_value char_at
lower-value zero h = refl
lower-value (suc zero) h = refl
lower-value (suc (suc zero)) h = refl
lower-value (suc (suc (suc zero))) h = refl
lower-value (suc (suc (suc (suc zero)))) h = refl
lower-value (suc (suc (suc (suc (suc zero))))) h = refl
lower-value (suc (suc (suc (suc (suc (suc zero)))))) h = refl
lower-value (suc (suc (suc (suc (suc (suc (suc zero))))))) h = refl
lower-value (suc (suc (suc (suc (suc (suc (suc (suc zero)))))))) h = refl
lower-value (suc (suc (suc (suc (suc (suc (suc (suc (suc zero))))))))) h = refl
lower-value (suc (suc (suc (suc (suc (suc (suc (suc (suc (suc zero)))))))))) h = refl
lower-value (suc (suc (suc (suc (suc (suc (suc (suc (suc (suc (suc zero))))))))))) h = refl
lower-value (suc (suc (suc (suc (suc (suc (suc (suc (suc (suc (suc (suc zero)))))))))))) h = refl
lower-value (suc (suc (suc (suc (suc (suc (suc (suc (suc (suc (suc (suc (suc zero))))))))))))) h =
    refl
lower-value (suc (suc (suc (suc (suc (suc (suc (suc (suc (suc (suc (suc (suc (suc zero))))))))))))))
      h =
    refl
lower-value
      (suc (suc (suc (suc (suc (suc (suc (suc (suc (suc (suc (suc (suc (suc (suc zero)))))))))))))))
      h =
    refl
lower-value
      (suc
        (suc (suc (suc (suc (suc (suc (suc (suc (suc (suc (suc (suc (suc (suc (suc k))))))))))))))))
      h =
    absurd (omega arith)

pub two_digits-sum : (b : ℕ) → b / 16 * 16 + b % 16 ≡ b
two_digits-sum b = omega arith

-- A string of bytes is read back from its digits.
from_hex-to_hex : (bytes : List ℕ) → All (λ b. b < 256) bytes → from_hex (to_hex bytes) ≡ some bytes
unfolding from_hex to_hex two_digits
from_hex-to_hex [] h = refl
from_hex-to_hex (b ∷ bytes) (h, hs) = simp (
  lower-value (b / 16) (omega arith),
  lower-value (b % 16) (omega arith),
  from_hex-to_hex bytes hs,
  two_digits-sum b,
)
