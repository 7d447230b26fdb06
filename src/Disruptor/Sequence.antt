-- ===== src/Disruptor/Sequence.antt =====
-- Sequences as counts: `last n` is the sequence of the newest of `n` publications, so -1 at first.
-- What `find_minimum` and the test of the waiting loop compute on sequences of this form.
use native.Mathlib.Decide.{ℕ_discrete}
use trade_station.Common.{
  ℕ, zero, suc, ◌+◌, ◌%◌, ◌^◌, ◌≤◌, ◌<◌, ◌≡◌, ◌≢◌, refl, sym, subst, ◌∙◌, ap, inl, inr, true, false,
  arith, Bool-cases,
}
use trade_station.Common.Bits.{bit_and_ten_bits}
use trade_station.Common.Int.{
  ℤ, pos, negsuc, pos_part, neg_part, ◌+ℤ◌, ◌-ℤ◌, ◌≤ℤ◌, leb_ℤ, eqb_ℤ, eqb_ℤ_of_lt, gt_of_leb_ℤ,
  leb_ℤ_of_gt, -ℤ_parts,
}
use trade_station.Disruptor.{
  Disruptor, size, long_max, slot, lower, minimum_from, find_minimum, blocked, next_of,
}

abbrev pub last : ℕ → ℤ
last zero = negsuc 0
last (suc n) = pos n

pub next_of-last : (n : ℕ) → next_of (last n) ≡ pos n
unfolding ◌+ℤ◌
next_of-last zero = refl
next_of-last (suc n) = ground arith

-- How `omega` reads such a sequence.
pub last_parts : (n : ℕ) → pos_part (last n) + 1 ≡ n + neg_part (last n)
last_parts zero = refl
last_parts (suc n) = omega arith

pub slot-pos : (n : ℕ) → slot (pos n) ≡ n % size
unfolding slot
slot-pos n = bit_and_ten_bits n

true_ne_false : true ≢ false
true_ne_false e = cc

module _ {A : Type 0} (d : Disruptor A) where
  lower_le : (i : ℕ) (min : ℤ) → lower d i min ≤ℤ min
  unfolding lower
  lower_le i min = ground arith

  lower_le_active :
      (i : ℕ) (min : ℤ) → d.consumer_active i ≡ true → lower d i min ≤ℤ d.consumer_sequences i
  unfolding lower
  lower_le_active i min a = ground arith

  minimum_from_le : (n i : ℕ) (min : ℤ) → minimum_from d n i min ≤ℤ min
  unfolding minimum_from
  minimum_from_le zero i min = omega arith
  minimum_from_le (suc n) i min =
      omega (arith, minimum_from_le n (i + 1) (lower d i min), lower_le i min)

  minimum_from_le_active :
      (n i j : ℕ) (min : ℤ)
      → i ≤ j
      → j < i + n
      → d.consumer_active j ≡ true
      → minimum_from d n i min ≤ℤ d.consumer_sequences j
  unfolding minimum_from
  minimum_from_le_active zero i j min ge lt a = absurd (omega arith)
  minimum_from_le_active (suc n) i j min ge lt a = elim (ℕ_discrete i j) [
    | yes e ↦
        let active = subst (λ k. d.consumer_active k ≡ true) (sym e) a in
        subst (λ k. minimum_from d n (i + 1) (lower d i min) ≤ℤ d.consumer_sequences k) e
          (omega (arith, minimum_from_le n (i + 1) (lower d i min), lower_le_active i min active))
    | no ne ↦ minimum_from_le_active n (i + 1) j (lower d i min) (omega arith) (omega arith) a
  ]

  lower_ge :
      (b : ℤ) (i : ℕ) (min : ℤ)
      → b ≤ℤ min
      → (d.consumer_active i ≡ true → b ≤ℤ d.consumer_sequences i)
      → b ≤ℤ lower d i min
  unfolding lower
  lower_ge b i min start own = ground (arith, own)

  -- A bound from below for the start and for every active consumer bounds the minimum.
  minimum_from_ge :
      (b : ℤ) (n i : ℕ) (min : ℤ)
      → b ≤ℤ min
      → ((j : ℕ) → j < i + n → d.consumer_active j ≡ true → b ≤ℤ d.consumer_sequences j)
      → b ≤ℤ minimum_from d n i min
  unfolding minimum_from
  minimum_from_ge b zero i min start each = start
  minimum_from_ge b (suc n) i min start each =
      minimum_from_ge b n (i + 1) (lower d i min) (lower_ge b i min start (each i (omega arith)))
        (λ j lt. each j (omega arith))

  -- Every active consumer bounds what `find_minimum` returns, unless it found no consumer below
  -- `LONG_MAX`; then the test of the waiting loop holds at the next sequence.
  module _ (p : ℕ) (at : d.producer_sequence ≡ last p) where
    pub blocked_at_max :
        eqb_ℤ (minimum_from d d.consumer_count 0 long_max) long_max ≡ true
        → blocked d (pos p) ≡ true
    unfolding blocked find_minimum
    blocked_at_max e =
        rw (e, at)
          (ground (
            arith,
            -ℤ_parts (pos p) (last p -ℤ pos size),
            -ℤ_parts (last p) (pos size),
            last_parts p,
          ))

    -- A publication that does not wait leaves every active consumer less than a round behind.
    pub room_of_pass :
        (j c : ℕ)
        → blocked d (pos p) ≡ false
        → j < d.consumer_count
        → d.consumer_active j ≡ true
        → d.consumer_sequences j ≡ last c
        → p + 1 < c + size
    unfolding blocked find_minimum
    room_of_pass j c pass lt a e = elim (Bool-cases (eqb_ℤ low long_max)) [
      | inl top ↦ absurd (true_ne_false (sym (blocked_at_max top) ∙ pass))
      | inr fine ↦
          let seen =
            minimum_from_le_active d.consumer_count 0 j long_max (omega arith) (omega arith) a in
          let test : leb_ℤ (pos size) (pos p -ℤ low) ≡ false = rw fine at pass in
          omega (
            arith,
            gt_of_leb_ℤ (pos size) (pos p -ℤ low) test,
            -ℤ_parts (pos p) low,
            seen,
            ap pos_part e,
            ap neg_part e,
            last_parts c,
          )
    ]
      where
        low : ℤ
        low = minimum_from d d.consumer_count 0 long_max

    -- With an active consumer, and every active consumer less than a round behind, the
    -- publication does not wait.
    pub pass_of_room :
        (j c : ℕ)
        → p < 2 ^ 63
        → j < d.consumer_count
        → d.consumer_active j ≡ true
        → d.consumer_sequences j ≡ last c
        → c ≤ p
        → ((i : ℕ)
            → i < d.consumer_count
            → d.consumer_active i ≡ true
            → pos (p + 1) -ℤ pos size ≤ℤ d.consumer_sequences i)
        → blocked d (pos p) ≡ false
    unfolding blocked find_minimum
    pass_of_room j c small lt a e le each = rw below test
      where
        low : ℤ
        low = minimum_from d d.consumer_count 0 long_max

        seen : low ≤ℤ d.consumer_sequences j
        seen = minimum_from_le_active d.consumer_count 0 j long_max (omega arith) (omega arith) a

        below : eqb_ℤ low long_max ≡ false
        below =
            eqb_ℤ_of_lt low long_max
              (omega (arith, seen, ap pos_part e, ap neg_part e, last_parts c))

        bound : pos (p + 1) -ℤ pos size ≤ℤ low
        bound =
            minimum_from_ge (pos (p + 1) -ℤ pos size) d.consumer_count 0 long_max
              (omega (arith, -ℤ_parts (pos (p + 1)) (pos size))) (λ i h. each i (omega arith))

        test : leb_ℤ (pos size) (pos p -ℤ low) ≡ false
        test =
            leb_ℤ_of_gt (pos size) (pos p -ℤ low)
              (omega (arith, bound, -ℤ_parts (pos p) low, -ℤ_parts (pos (p + 1)) (pos size)))
