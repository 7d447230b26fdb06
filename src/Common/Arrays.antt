-- ===== src/Common/Arrays.antt =====
-- Fixed arrays as functions of the index, and the list of their first elements.
use Prim.Native.Nat.{ℕ, zero, suc, ◌+◌, ◌≤◌, ◌<◌, min}
use mathlib.Core.Path.{◌≡◌, refl, ap, ap₂, ◌∙◌}
use mathlib.Core.Logic.{◌≢◌}
use mathlib.Core.List.{List, [], ◌∷◌, ◌++◌}
use native.Mathlib.Omega.{arith}
use trade_station.Common.Tests.{◌==◌, if◌then◌else◌}
use trade_station.Common.Lists.{length, take}

module _ {A : Type 0} where
  -- An array with the element at `i` replaced.
  abbrev pub update : (ℕ → A) → ℕ → A → ℕ → A
  update f i v j = if j == i then v else f j

  pub update_self : (f : ℕ → A) (i : ℕ) (v : A) → update f i v i ≡ v
  update_self f i v = ground arith

  pub update_ne : (f : ℕ → A) {i j : ℕ} (v : A) → i ≢ j → update f i v j ≡ f j
  update_ne f v ne = ground arith

  -- The elements at `i`, `i + 1`, ... of which there are `n`.
  abbrev pub window : ℕ → ℕ → (ℕ → A) → List A
  window i zero f = []
  window i (suc n) f = f i ∷ window (suc i) n f

  abbrev pub first : ℕ → (ℕ → A) → List A
  first n f = window 0 n f

  pub length-window : (i n : ℕ) (f : ℕ → A) → length (window i n f) ≡ n
  length-window i zero f = refl
  length-window i (suc n) f = ap suc (length-window (suc i) n f)

  -- Arrays that agree on a window have the same elements there.
  pub window-ext :
      (i n : ℕ) (f g : ℕ → A)
      → ((j : ℕ) → i ≤ j → j < i + n → f j ≡ g j)
      → window i n f ≡ window i n g
  window-ext i zero f g same = refl
  window-ext i (suc n) f g same =
      ap₂ ◌∷◌ (same i (omega arith) (omega arith))
        (window-ext (suc i) n f g (λ j ge lt. same j (omega arith) (omega arith)))

  -- The element just past a window goes to its end.
  pub window-suc : (i n : ℕ) (f : ℕ → A) → window i (suc n) f ≡ window i n f ++ (f (i + n) ∷ [])
  window-suc i zero f = ap (λ k. f k ∷ []) {x = i} {y = i + 0} (omega arith)
  window-suc i (suc n) f = ap (◌∷◌ (f i)) (
      rw (window-suc (suc i) n f)
        (ap (λ k. window (suc i) n f ++ (f k ∷ [])) {x = suc i + n} {y = i + suc n} (omega arith)))

  pub first-update_next :
      (n : ℕ) (f : ℕ → A) (a : A) → first (n + 1) (update f n a) ≡ first n f ++ (a ∷ [])
  first-update_next n f a =
      ap (λ k. first k (update f n a)) {x = n + 1} {y = suc n} (omega arith)
      ∙ window-suc 0 n (update f n a)
      ∙ ap₂ (λ l x. l ++ (x ∷ []))
          (window-ext 0 n (update f n a) f (λ j ge lt. update_ne f a (omega arith)))
          (ap (update f n a) {x = 0 + n} {y = n} (omega arith) ∙ update_self f n a)

  pub take-window : (k i n : ℕ) (f : ℕ → A) → take k (window i n f) ≡ window i (min k n) f
  take-window zero i n f = ap (λ m. window i m f) {x = 0} {y = min 0 n} (omega arith)
  take-window (suc k) i zero f = ap (λ m. window i m f) {x = 0} {y = min (suc k) 0} (omega arith)
  take-window (suc k) i (suc n) f =
      ap (◌∷◌ (f i)) (take-window k (suc i) n f)
      ∙ ap (λ m. window i m f) {x = suc (min k n)} {y = min (suc k) (suc n)} (omega arith)

  -- Elements moved up by one place.
  pub window-shifted :
      (i n : ℕ) (f g : ℕ → A)
      → ((j : ℕ) → i ≤ j → j < i + n → g (suc j) ≡ f j)
      → window (suc i) n g ≡ window i n f
  window-shifted i zero f g moved = refl
  window-shifted i (suc n) f g moved =
      ap₂ ◌∷◌ (moved i (omega arith) (omega arith))
        (window-shifted (suc i) n f g (λ j ge lt. moved j (omega arith) (omega arith)))
