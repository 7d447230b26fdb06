-- ===== src/Disruptor/Consuming.antt =====
-- One producer thread: the steps of `consume` keep the invariant.
use native.Mathlib.Decide.{ℕ_discrete}
use trade_station.Common.{
  update, update_self, update_ne, ℕ, zero, suc, ◌+◌, ◌≤◌, ◌<◌, ◌≡◌, ◌≢◌, sym, ap, subst, ◌∙◌, false,
  List, [], ◌∷◌, ◌++◌, some, arith, length, get_elem?, take, length-append, take-suc,
}
use trade_station.Common.Int.{ℤ, pos, ltb_ℤ}
use trade_station.Disruptor.{size, slot, next_of}
use trade_station.Disruptor.Sequence.{last, next_of-last, slot-pos}
use trade_station.Disruptor.Threads.{
  Producer, waiting, passed, written, Machine, Consumer, reading, copied, with_consumer, advance,
}
use trade_station.Disruptor.Invariant.{PlaceP, PlaceC, Inv}

-- The test of `consume` passes only if a publication is ahead.
ahead : (p r : ℕ) → ltb_ℤ (last p) (pos r) ≡ false → r < p
ahead zero r h = ground arith
ahead (suc p) r h = ground arith

module _ {A : Type 0} (m : Machine A) (v : Inv m) where
  -- The places of all consumers after the one of `c` has changed.
  moved : (c : ℕ) (s : Consumer A) → PlaceC m c s → (k : ℕ) → PlaceC m k (update m.consumers c s k)
  moved c s own k = elim (ℕ_discrete c k) [
    | yes e ↦
        subst (λ i. PlaceC m i (update m.consumers c s i)) e (rw (update_self m.consumers c s) own)
    | no ne ↦ rw (update_ne m.consumers s ne) (v.consumer k)
  ]

  with_place : (c : ℕ) (s : Consumer A) → PlaceC m c s → Inv (with_consumer m c s)
  with_place c s own = record {
    at = v.at;
    active = v.active;
    taken = v.taken;
    behind = v.behind;
    room = v.room;
    prefix = v.prefix;
    kept = v.kept;
    producer = v.producer;
    consumer = moved c s own;
  }

  pub begin-Inv :
      (c : ℕ)
      → c < m.disruptor.consumer_count
      → ltb_ℤ m.disruptor.producer_sequence (next_of (m.disruptor.consumer_sequences c)) ≡ false
      → Inv (with_consumer m c (reading (next_of (m.disruptor.consumer_sequences c))))
  begin-Inv c lt test = with_place c _ (lt, own, ahead _ _ (rw (v.at, own) at test))
    where
      own : next_of (m.disruptor.consumer_sequences c) ≡ pos (length (m.received c))
      own = rw (v.taken c lt) (next_of-last (length (m.received c)))

  -- The slot read still holds the publication that is due.
  pub copy-Inv :
      (c : ℕ) (n : ℤ)
      → m.consumers c ≡ reading n
      → Inv (with_consumer m c (copied n (m.disruptor.buffer (slot n))))
  copy-Inv c n e = with_place c _ (own.0, own.1, own.2, due)
    where
      own : PlaceC m c (reading n)
      own = subst (PlaceC m c) e (v.consumer c)

      due : get_elem? m.published (length (m.received c)) ≡ some (m.disruptor.buffer (slot n))
      due =
          rw (own.1, slot-pos (length (m.received c)))
            (v.kept (length (m.received c)) own.2 (v.room c own.0))

  -- What holds of the finished consumer, and of each other as before, holds of each.
  each_after :
      (Q : ℕ → ℤ → List A → Type 0) (c : ℕ) (n : ℤ) (l : List A)
      → Q c n l
      → ((k : ℕ) → Q k (m.disruptor.consumer_sequences k) (m.received k))
      → (k : ℕ) → Q k (update m.disruptor.consumer_sequences c n k) (update m.received c l k)
  each_after Q c n l own others k = elim (ℕ_discrete c k) [
    | yes e ↦
        subst (λ i. Q i (update m.disruptor.consumer_sequences c n i) (update m.received c l i)) e
          (rw (update_self m.disruptor.consumer_sequences c n, update_self m.received c l) own)
    | no ne ↦
        rw (update_ne m.disruptor.consumer_sequences n ne, update_ne m.received l ne) (others k)
  ]

  pub finish-Inv :
      (c : ℕ) (n : ℤ) (a : A)
      → m.consumers c ≡ copied n a
      → Inv (with_consumer (advance m c n a) c Consumer.idle)
  finish-Inv c n a e = record {
    at = v.at;
    active = v.active;
    kept = v.kept;
    taken =
        each (λ k s l. k < count → s ≡ last (length l)) (λ _. own.1 ∙ sym (ap last one_more))
          v.taken;
    behind =
        each (λ k s l. k < count → length l ≤ length m.published)
          (λ _. omega (arith, one_more, own.2)) v.behind;
    room =
        each (λ k s l. k < count → length m.published + 1 ≤ length l + size)
          (λ lt. omega (arith, one_more, v.room c lt)) v.room;
    prefix =
        each (λ k s l. k < count → l ≡ take (length l) m.published)
          (λ lt.
            ap (λ l. l ++ (a ∷ [])) (v.prefix c lt)
            ∙ sym (take-suc m.published (length (m.received c)) own.3)
            ∙ ap (λ k. take k m.published) (sym one_more))
          v.prefix;
    producer = producer_after (m.producers 0) v.producer;
    consumer = consumer_after;
  }
    where
      count : ℕ
      count = m.disruptor.consumer_count

      own : PlaceC m c (copied n a)
      own = subst (PlaceC m c) e (v.consumer c)

      one_more : length (m.received c ++ (a ∷ [])) ≡ suc (length (m.received c))
      one_more = omega (arith, length-append (m.received c) (a ∷ []))

      each :
          (Q : ℕ → ℤ → List A → Type 0)
          → Q c n (m.received c ++ (a ∷ []))
          → ((k : ℕ) → Q k (m.disruptor.consumer_sequences k) (m.received k))
          → (k : ℕ)
          → Q k
              (update m.disruptor.consumer_sequences c n k)
              (update m.received c (m.received c ++ (a ∷ [])) k)
      each Q = each_after Q c n (m.received c ++ (a ∷ []))

      after : Machine A
      after = with_consumer (advance m c n a) c Consumer.idle

      roomy :
          ((k : ℕ) → k < count → length m.published + 1 < length (m.received k) + size)
          → (k : ℕ) → k < count
          → length m.published + 1 < length (after.received k) + size
      roomy h =
          each (λ k s l. k < count → length m.published + 1 < length l + size)
            (λ lt. omega (arith, one_more, h c lt)) h

      producer_after : (s : Producer A) → PlaceP m s → PlaceP after s
      producer_after Producer.idle h = tt
      producer_after (waiting k b) h = h
      producer_after (passed k b) h = (h.0, roomy h.1)
      producer_after (written k b) h = (h.0, roomy h.1, h.2)

      other_after : (k : ℕ) → c ≢ k → (s : Consumer A) → PlaceC m k s → PlaceC after k s
      other_after k ne Consumer.idle h = tt
      other_after k ne (reading i) h = rw (update_ne m.received (m.received c ++ (a ∷ [])) ne) h
      other_after k ne (copied i b) h = rw (update_ne m.received (m.received c ++ (a ∷ [])) ne) h

      consumer_after : (k : ℕ) → PlaceC after k (after.consumers k)
      consumer_after k = elim (ℕ_discrete c k) [
        | yes e ↦
            subst (λ i. PlaceC after i (after.consumers i)) e
              (rw (update_self m.consumers c Consumer.idle) tt)
        | no ne ↦
            rw (update_ne m.consumers Consumer.idle ne)
              (other_after k ne (m.consumers k) (v.consumer k))
      ]
