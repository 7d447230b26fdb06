-- ===== src/Disruptor/Invariant.antt =====
-- One producer thread: what holds of a machine between any two steps.
use trade_station.Common.{ℕ, ◌+◌, ◌%◌, ◌≤◌, ◌<◌, ◌≡◌, true, some, length, get_elem?, take}
use trade_station.Common.Int.{pos}
use trade_station.Disruptor.{size}
use trade_station.Disruptor.Sequence.{last}
use trade_station.Disruptor.Threads.{
  Producer, waiting, passed, written, Consumer, reading, copied, Machine,
}

module _ {A : Type 0} where
  -- What a producer's place in `publish` says, after `p` publications.
  abbrev pub PlaceP : Machine A → Producer A → Type 0
  PlaceP m Producer.idle = Unit {0}
  PlaceP m (waiting n a) = n ≡ pos (length m.published)
  PlaceP m (passed n a) =
      (n ≡ pos (length m.published))
      × ((c : ℕ)
          → c < m.disruptor.consumer_count
          → length m.published + 1 < length (m.received c) + size)
  PlaceP m (written n a) =
      (n ≡ pos (length m.published))
      × ((c : ℕ)
          → c < m.disruptor.consumer_count
          → length m.published + 1 < length (m.received c) + size)
      × (m.disruptor.buffer (length m.published % size) ≡ a)

  abbrev pub PlaceC : Machine A → ℕ → Consumer A → Type 0
  PlaceC m c Consumer.idle = Unit {0}
  PlaceC m c (reading n) =
      (c < m.disruptor.consumer_count)
      × (n ≡ pos (length (m.received c)))
      × (length (m.received c) < length m.published)
  PlaceC m c (copied n a) =
      (c < m.disruptor.consumer_count)
      × (n ≡ pos (length (m.received c)))
      × (length (m.received c) < length m.published)
      × (get_elem? m.published (length (m.received c)) ≡ some a)

  pub record Inv (m : Machine A) : Type 0 where
    pub at : m.disruptor.producer_sequence ≡ last (length m.published)
    pub active : (c : ℕ) → c < m.disruptor.consumer_count → m.disruptor.consumer_active c ≡ true
    pub taken :
        (c : ℕ)
        → c < m.disruptor.consumer_count
        → m.disruptor.consumer_sequences c ≡ last (length (m.received c))
    pub behind :
        (c : ℕ) → c < m.disruptor.consumer_count → length (m.received c) ≤ length m.published
    pub room :
        (c : ℕ)
        → c < m.disruptor.consumer_count
        → length m.published + 1 ≤ length (m.received c) + size
    pub prefix :
        (c : ℕ)
        → c < m.disruptor.consumer_count
        → m.received c ≡ take (length (m.received c)) m.published
    pub kept :
        (j : ℕ)
        → j < length m.published
        → length m.published + 1 ≤ j + size
        → get_elem? m.published j ≡ some (m.disruptor.buffer (j % size))
    pub producer : PlaceP m (m.producers 0)
    pub consumer : (c : ℕ) → PlaceC m c (m.consumers c)
