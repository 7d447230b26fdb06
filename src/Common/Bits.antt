-- ===== src/Common/Bits.antt =====
-- `x & (SIZE - 1)` is `x % SIZE` for a SIZE that is a power of two.
use Prim.Native.Nat.{ℕ, zero, suc, ◌+◌, ◌*◌, ◌/◌, ◌%◌, ◌≤◌, min, bit_and, digits, bit_and-bitwise}
use mathlib.Core.Path.{◌≡◌, refl, sym, ap, ◌∙◌}
use native.Mathlib.Nat.{div-add-mod, add-mul-mod_self_left, mod-eq_of_lt, mod-lt}
use native.Mathlib.Omega.{arith}

-- The digits of `a & b`, lowest last, found with `n` rounds.
abbrev conj : ℕ → ℕ → ℕ → ℕ
conj n a b = digits (λ _. zero) min n a b

-- Rounds beyond the number's size add nothing.
conj_rounds : (n m a b : ℕ) → a ≤ n → a ≤ m → conj n a b ≡ conj m a b
conj_rounds zero zero a b hn hm = refl
conj_rounds zero (suc m) zero b hn hm = refl
conj_rounds (suc n) zero zero b hn hm = refl
conj_rounds (suc n) (suc m) zero b hn hm = refl
conj_rounds zero m (suc a) b hn hm = absurd (omega arith)
conj_rounds (suc n) zero (suc a) b hn hm = absurd (omega arith)
conj_rounds (suc n) (suc m) (suc a) b hn hm =
    let halved = conj_rounds n m (suc a / 2) (b / 2) (omega arith) (omega arith) in rw halved

bit_and_low : (a b : ℕ) → bit_and a b ≡ bit_and (a / 2) (b / 2) * 2 + min (a % 2) (b % 2)
bit_and_low zero b = simp bit_and-bitwise (omega arith)
bit_and_low (suc a) b =
    simp bit_and-bitwise
      (omega (arith, conj_rounds a (suc a / 2) (suc a / 2) (b / 2) (omega arith) (omega arith)))

-- `m` is one less than a power of two, as far as masking shows it.
abbrev IsMask : ℕ → Type 0
IsMask m = (a : ℕ) → bit_and a m ≡ a % (m + 1)

conj_nothing : (n a : ℕ) → conj n a 0 ≡ 0
conj_nothing zero a = refl
conj_nothing (suc n) zero = refl
conj_nothing (suc n) (suc a) = rw (conj_nothing n (suc a / 2)) (omega arith)

IsMask-zero : IsMask 0
IsMask-zero a = simp bit_and-bitwise (conj_nothing a a ∙ omega arith)

-- A mask of one more bit.
IsMask-double : (m : ℕ) → IsMask m → IsMask (m * 2 + 1)
IsMask-double m h a = bits ∙ sym value
  where
    high : ℕ
    high = a / 2 / (m + 1)

    low : ℕ
    low = a / 2 % (m + 1) * 2 + a % 2

    split : a ≡ low + (m * 2 + 1 + 1) * high
    split = omega (arith, div-add-mod (a / 2) (m + 1))

    value : a % (m * 2 + 1 + 1) ≡ low
    value =
        ap (λ k. k % (m * 2 + 1 + 1)) split
        ∙ add-mul-mod_self_left low (m * 2 + 1 + 1) high
        ∙ mod-eq_of_lt (omega (arith, mod-lt (a / 2) {m = m + 1} (omega arith)))

    bits : bit_and a (m * 2 + 1) ≡ low
    bits =
        bit_and_low a (m * 2 + 1)
        ∙ ap (λ k. bit_and (a / 2) k * 2 + min (a % 2) ((m * 2 + 1) % 2)) {x = (m * 2 + 1) / 2}
            {y = m} (omega arith)
        ∙ omega (arith, h (a / 2))

-- `x & 1023` is `x % 1024`.
pub bit_and_ten_bits : (a : ℕ) → bit_and a 1023 ≡ a % 1024
bit_and_ten_bits = twice 255 (twice 63 (twice 15 (twice 3 (twice 0 IsMask-zero))))
  where
    twice : (m : ℕ) → IsMask m → IsMask ((m * 2 + 1) * 2 + 1)
    twice m h = IsMask-double (m * 2 + 1) (IsMask-double m h)
