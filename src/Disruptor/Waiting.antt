-- ===== src/Disruptor/Waiting.antt =====
-- When `publish` goes through, and when its loop waits.
use trade_station.Common.{
  ℕ, zero, suc, ◌+◌, ◌^◌, ◌≤◌, ◌<◌, ◌≡◌, refl, ◌↔◌, Bool, true, false, if◌then◌else◌, none, some,
  arith,
}
use trade_station.Common.Int.{ℤ, pos, eqb_ℤ, -ℤ_parts}
use trade_station.Disruptor.{
  Disruptor, size, long_max, lower, minimum_from, blocked, next_of, write, publish,
}
use trade_station.Disruptor.Sequence.{
  last, last_parts, next_of-last, blocked_at_max, room_of_pass, pass_of_room,
}

-- `p` publications so far; `got c` of them taken by the consumer `c`.
pub record Counts {A : Type 0} (d : Disruptor A) (p : ℕ) (got : ℕ → ℕ) : Type 0 where
  pub at : d.producer_sequence ≡ last p
  pub small : p < 2 ^ 63
  pub active : (c : ℕ) → c < d.consumer_count → d.consumer_active c ≡ true
  pub taken : (c : ℕ) → c < d.consumer_count → d.consumer_sequences c ≡ last (got c)
  pub behind : (c : ℕ) → c < d.consumer_count → got c ≤ p

module _ {A : Type 0} (d : Disruptor A) where
  minimum_of_inactive :
      (n i : ℕ) (min : ℤ)
      → ((c : ℕ) → c < i + n → d.consumer_active c ≡ false)
      → minimum_from d n i min ≡ min
  unfolding minimum_from lower
  minimum_of_inactive zero i min off = refl
  minimum_of_inactive (suc n) i min off =
      rw (off i (omega arith)) (minimum_of_inactive n (i + 1) min (λ c lt. off c (omega arith)))

  next_is : (p : ℕ) → d.producer_sequence ≡ last p → next_of d.producer_sequence ≡ pos p
  next_is p at = rw at (next_of-last p)

  -- With no active consumer `publish` waits, whatever the ring holds.
  pub publish-none_of_inactive :
      (p : ℕ) (a : A)
      → d.producer_sequence ≡ last p
      → ((c : ℕ) → c < d.consumer_count → d.consumer_active c ≡ false)
      → publish d a ≡ none
  unfolding publish
  publish-none_of_inactive p a at off = rw (next_is p at, blocked_at_max d p at top)
    where
      top : eqb_ℤ (minimum_from d d.consumer_count 0 long_max) long_max ≡ true
      top = rw (minimum_of_inactive d.consumer_count 0 long_max (λ c lt. off c (omega arith))) refl

  -- With consumers registered, `publish` goes through exactly when each of them has fewer than
  -- 1023 publications left to take.
  pub publish-some_iff :
      (p : ℕ) (got : ℕ → ℕ) (a : A)
      → Counts d p got
      → 0 < d.consumer_count
      → ((e : Disruptor A) × (publish d a ≡ some e))
        ↔ ((c : ℕ) → c < d.consumer_count → p + 1 < got c + size)
  unfolding publish
  publish-some_iff p got a v some_consumer = (forth, back)
    where
      Result : Bool → Type 0
      Result b =
          (e : Disruptor A) × ((if b
              then none
              else some (record (write d (pos p) a) { producer_sequence = pos p }))
            ≡ some e)

      open_of_some : (b : Bool) → Result b → b ≡ false
      open_of_some true r = absurd (cc r.1)
      open_of_some false r = refl

      forth :
          ((e : Disruptor A) × (publish d a ≡ some e))
          → (c : ℕ) → c < d.consumer_count
          → p + 1 < got c + size
      forth r c lt =
          room_of_pass d p v.at c (got c)
            (open_of_some (blocked d (pos p)) (rw (next_is p v.at) at r)) lt (v.active c lt)
            (v.taken c lt)

      back :
          ((c : ℕ) → c < d.consumer_count → p + 1 < got c + size)
          → (e : Disruptor A) × (publish d a ≡ some e)
      back roomy =
          (record (write d (pos p) a) { producer_sequence = pos p }, rw (next_is p v.at, free))
        where
          free : blocked d (pos p) ≡ false
          free =
              pass_of_room d p v.at 0 (got 0) v.small some_consumer (v.active 0 some_consumer)
                (v.taken 0 some_consumer) (v.behind 0 some_consumer)
                (λ c lt. rw (v.taken c lt) (
                  omega (arith, roomy c lt, last_parts (got c), -ℤ_parts (pos (p + 1)) (pos size))))
