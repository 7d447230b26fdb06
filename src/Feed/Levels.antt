-- ===== src/Feed/Levels.antt =====
-- The five best levels of a side, as LBankHandler and BingXHandler take them: all levels sorted
-- (std::sort, which leaves the order of equal prices open; here one such order), the first 5 kept.
use mathlib.Core.List.{Permᴰ}
use mathlib.Core.List.Permᴰ
use mathlib.Core.List.Permᴰ.{nil, cons, swap, trans}
use trade_station.Common.{
  suc, ◌≡◌, refl, Bool, true, false, List, [], ◌∷◌, ◌++◌, All, length, take, drop, take-append-drop,
  length-take, min, if◌then◌else◌, arith, Bool-cases, inl, inr,
}

module _ {A : Type 0} where
  unfoldable pub insert : (A → A → Bool) → A → List A → List A
  insert better x [] = x ∷ []
  insert better x (y ∷ ys) = if better x y then x ∷ y ∷ ys else y ∷ insert better x ys

  -- `better a b` is the comparison that is passed to std::sort.
  unfoldable pub sort : (A → A → Bool) → List A → List A
  sort better [] = []
  sort better (x ∷ xs) = insert better x (sort better xs)

  unfoldable pub best : (A → A → Bool) → List A → List A
  best better ls = take 5 (sort better ls)

  -- What std::sort asks of the comparison: a strict weak order.
  pub record IsOrder (better : A → A → Bool) : Type 0 where
    pub asym : (a b : A) → better a b ≡ true → better b a ≡ false
    pub weak : (a b c : A) → better b a ≡ false → better c b ≡ false → better c a ≡ false

  -- No element is better than one before it.
  unfoldable pub Sorted : (A → A → Bool) → List A → Type 0
  Sorted better [] = Unit
  Sorted better (x ∷ xs) = All (λ y. better y x ≡ false) xs × Sorted better xs

  module _ (better : A → A → Bool) where
    insert-Perm : (x : A) (ys : List A) → Permᴰ (insert better x ys) (x ∷ ys)
    unfolding insert
    insert-Perm x [] = Permᴰ.refl (x ∷ [])
    insert-Perm x (y ∷ ys) = elim (Bool-cases (better x y)) [
      | inl e ↦ rw e (Permᴰ.refl (x ∷ y ∷ ys))
      | inr e ↦ rw e (trans (cons refl (insert-Perm x ys)) (swap refl refl))
    ]

    sort-Perm : (xs : List A) → Permᴰ (sort better xs) xs
    unfolding sort
    sort-Perm [] = nil
    sort-Perm (x ∷ xs) = trans (insert-Perm x (sort better xs)) (cons refl (sort-Perm xs))

    length-insert : (x : A) (ys : List A) → length (insert better x ys) ≡ suc (length ys)
    unfolding insert
    length-insert x [] = refl
    length-insert x (y ∷ ys) = ground (arith, length-insert x ys)

    length-sort : (xs : List A) → length (sort better xs) ≡ length xs
    unfolding sort
    length-sort [] = refl
    length-sort (x ∷ xs) = omega (arith, length-insert x (sort better xs), length-sort xs)

    All-insert :
        (P : A → Type 0) (x : A) (ys : List A) → P x → All P ys → All P (insert better x ys)
    unfolding insert
    All-insert P x [] p ps = (p, tt)
    All-insert P x (y ∷ ys) p (q, qs) = elim (Bool-cases (better x y)) [
      | inl e ↦ rw e (p, (q, qs))
      | inr e ↦ rw e (q, All-insert P x ys p qs)
    ]

    All-weak :
        IsOrder better
        → (a b : A) (ys : List A) → better b a ≡ false
        → All (λ y. better y b ≡ false) ys
        → All (λ y. better y a ≡ false) ys
    All-weak o a b [] h ps = tt
    All-weak o a b (y ∷ ys) h (p, ps) = (o.weak a b y h p, All-weak o a b ys h ps)

    insert-Sorted :
        IsOrder better
        → (x : A) (ys : List A) → Sorted better ys
        → Sorted better (insert better x ys)
    unfolding insert Sorted
    insert-Sorted o x [] s = (tt, tt)
    insert-Sorted o x (y ∷ ys) (p, s) = elim (Bool-cases (better x y)) [
      | inl e ↦ rw e ((o.asym x y e, All-weak o x y ys (o.asym x y e) p), (p, s))
      | inr e ↦ rw e (All-insert (λ z. better z y ≡ false) x ys e p, insert-Sorted o x ys s)
    ]

    sort-Sorted : IsOrder better → (xs : List A) → Sorted better (sort better xs)
    unfolding sort Sorted
    sort-Sorted o [] = tt
    sort-Sorted o (x ∷ xs) = insert-Sorted o x (sort better xs) (sort-Sorted o xs)

    -- For a strict weak order the levels that are shown are five of those sent, or all if there
    -- are fewer, best first, and none that is left out is better than a level that is shown.
    pub best_lem :
        IsOrder better
        → (ls : List A)
        → (rest : List A) × Permᴰ (best better ls ++ rest) ls
          × Sorted better (best better ls ++ rest)
          × (length (best better ls) ≡ min 5 (length ls))
    unfolding best
    best_lem o ls = (
      drop 5 (sort better ls),
      rw (take-append-drop 5 (sort better ls)) (sort-Perm ls),
      rw (take-append-drop 5 (sort better ls)) (sort-Sorted o ls),
      omega (arith, length-take 5 (sort better ls), length-sort ls),
    )
