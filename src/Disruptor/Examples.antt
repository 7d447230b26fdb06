-- ===== src/Disruptor/Examples.antt =====
-- Runs of the ring with one producer and one consumer.
use trade_station.Disruptor.Race.{update_lost}
use trade_station.Disruptor.Waiting.{Counts, publish-some_iff, publish-none_of_inactive}
use trade_station.Disruptor.Sequence.{last}
use trade_station.Common.{
  ℕ, ◌+◌, ◌≤◌, ◌≡◌, refl, some, [], ◌∷◌, ◌++◌, length, drop, false, arith, none, true, zero, suc,
  ◌<◌, ◌↔◌,
}
use trade_station.Common.Int.{pos, ◌+ℤ◌, ◌-ℤ◌}
use trade_station.Disruptor.{
  Disruptor, size, init, activate, add_consumer, slot, write, blocked, find_minimum, minimum_from,
  lower, publish,
}
use trade_station.Disruptor.Threads.{
  Machine, Producer, waiting, passed, written, reading, Reach, here, next, load, pass, fill, store,
  begin, start, with_producer, with_consumer, commit,
}
use trade_station.Disruptor.Fifo.{published-received, register}

abbrev one_consumer : Disruptor ℕ
one_consumer = activate (init 0) 0

abbrev loaded : Machine ℕ
loaded = with_producer (start one_consumer) 0 (waiting (pos 0) 7)

abbrev free : Machine ℕ
free = with_producer loaded 0 (passed (pos 0) 7)

abbrev filled : Machine ℕ
filled =
    with_producer (record free { disruptor = write free.disruptor (pos 0) 7 }) 0 (written (pos 0) 7)

abbrev stored : Machine ℕ
stored = with_producer (commit filled (pos 0) 7) 0 Producer.idle

abbrev begun : Machine ℕ
begun = with_consumer stored 0 (reading (pos 0))

one_published : Reach 1 (start one_consumer) begun
unfolding init blocked find_minimum minimum_from lower write ◌+ℤ◌ ◌-ℤ◌
one_published =
    next
      (next
        (next
          (next (next here (load _ 0 7 (omega arith) refl))
            (pass _ 0 (pos 0) 7 (omega arith) refl refl))
          (fill _ 0 (pos 0) 7 (omega arith) refl))
        (store _ 0 (pos 0) 7 (omega arith) refl))
      (begin _ 0 (omega arith) refl refl)

registered : register 1 0 ≡ some one_consumer
unfolding register add_consumer init
registered = refl

published-received_example :
    (begun.published ≡ begun.received 0 ++ drop (length (begun.received 0)) begun.published)
    × (length begun.published + 1 ≤ length (begun.received 0) + size)
published-received_example = published-received 1 0 registered one_published 0 (omega arith)

one_consumer-Counts : Counts one_consumer 0 (λ c. 0)
unfolding init
one_consumer-Counts = record {
  at = refl;
  small = omega arith;
  active = λ c lt. one_active c lt;
  taken = λ c lt. none_taken c lt;
  behind = λ c lt. omega arith;
}
  where
    one_active : (c : ℕ) → c < 1 → one_consumer.consumer_active c ≡ true
    one_active zero lt = refl
    one_active (suc c) lt = absurd (omega arith)

    none_taken : (c : ℕ) → c < 1 → one_consumer.consumer_sequences c ≡ last 0
    none_taken zero lt = refl
    none_taken (suc c) lt = absurd (omega arith)

publish-some_iff_example :
    ((e : Disruptor ℕ) × (publish one_consumer 7 ≡ some e)) ↔ ((c : ℕ) → c < 1 → 1 < size)
publish-some_iff_example =
    publish-some_iff one_consumer 0 (λ c. 0) 7 one_consumer-Counts (omega arith)

abbrev fresh : Disruptor ℕ
fresh = init 0

at_start : fresh.producer_sequence ≡ last 0
unfolding init
at_start = refl

nobody : (c : ℕ) → c < fresh.consumer_count → fresh.consumer_active c ≡ false
unfolding init
nobody c lt = refl

publish-none_of_inactive_example : publish fresh 7 ≡ none
publish-none_of_inactive_example = publish-none_of_inactive fresh 0 7 at_start nobody

ring_open : blocked one_consumer (pos 0) ≡ false
unfolding init blocked find_minimum minimum_from lower ◌-ℤ◌
ring_open = refl

update_lost_example :
    (n : Machine ℕ) × Reach 2 (start one_consumer) n
    × (n.published ≡ 7 ∷ 8 ∷ [])
    × (n.disruptor.producer_sequence ≡ pos 0)
    × (n.disruptor.buffer (slot (pos 0)) ≡ 8)
unfolding ◌+ℤ◌ init
update_lost_example = update_lost (start one_consumer) 7 8 refl refl ring_open
