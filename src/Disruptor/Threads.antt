-- ===== src/Disruptor/Threads.antt =====
-- The threads of main.cpp around one Disruptor: any number of producers (each handler thread calls
-- `publish`) and of consumers (the aggregator calls `consume`), interleaved. A step is what one
-- thread does between two points where another may run: a load of a sequence, a passed test of
-- the waiting loop, a write or read of a slot, a store of a sequence. `find_minimum` is one step.
-- The log of stored publications and the lists of received ones are not part of the program:
-- they record what happened.
use trade_station.Common.{update, ℕ, ◌<◌, ◌≡◌, false, List, [], ◌∷◌, ◌++◌}
use trade_station.Common.Int.{ℤ, ltb_ℤ}
use trade_station.Disruptor.{Disruptor, slot, next_of, blocked, write}

-- Where a thread stands in `publish`.
pub data Producer (A : Type 0) : Type 0 where
  idle : Producer A
  waiting passed written : ℤ → A → Producer A

-- Where a thread stands in `consume`.
pub data Consumer (A : Type 0) : Type 0 where
  idle : Consumer A
  reading : ℤ → Consumer A
  copied : ℤ → A → Consumer A

pub record Machine (A : Type 0) : Type 0 where
  pub disruptor : Disruptor A
  pub producers : ℕ → Producer A
  pub consumers : ℕ → Consumer A
  pub published : List A
  pub received : ℕ → List A

module _ {A : Type 0} where
  abbrev pub with_producer : Machine A → ℕ → Producer A → Machine A
  with_producer m t s = record m { producers = update m.producers t s }

  abbrev pub with_consumer : Machine A → ℕ → Consumer A → Machine A
  with_consumer m c s = record m { consumers = update m.consumers c s }

  -- `producer_sequence.store(next)`
  abbrev pub commit : Machine A → ℤ → A → Machine A
  commit m next a = record m {
    disruptor = record m.disruptor { producer_sequence = next };
    published = m.published ++ (a ∷ []);
  }

  -- `consumer_sequences[c].store(next)`
  abbrev pub advance : Machine A → ℕ → ℤ → A → Machine A
  advance m c next a = record m {
    disruptor = record m.disruptor {
      consumer_sequences = update m.disruptor.consumer_sequences c next;
    };
    received = update m.received c (m.received c ++ (a ∷ []));
  }

-- A step, with the producers numbered below `threads`.
pub data Step {A : Type 0} (threads : ℕ) : Machine A → Machine A → Type 0 where
  load :
      (m : Machine A) (t : ℕ) (a : A)
      → t < threads
      → m.producers t ≡ idle
      → Step threads m (with_producer m t (waiting (next_of m.disruptor.producer_sequence) a))
  pass :
      (m : Machine A) (t : ℕ) (next : ℤ) (a : A)
      → t < threads
      → m.producers t ≡ waiting next a
      → blocked m.disruptor next ≡ false
      → Step threads m (with_producer m t (passed next a))
  fill :
      (m : Machine A) (t : ℕ) (next : ℤ) (a : A)
      → t < threads
      → m.producers t ≡ passed next a
      → Step threads m
          (with_producer (record m { disruptor = write m.disruptor next a }) t (written next a))
  store :
      (m : Machine A) (t : ℕ) (next : ℤ) (a : A)
      → t < threads
      → m.producers t ≡ written next a
      → Step threads m (with_producer (commit m next a) t idle)
  begin :
      (m : Machine A) (c : ℕ)
      → c < m.disruptor.consumer_count
      → m.consumers c ≡ idle
      → ltb_ℤ m.disruptor.producer_sequence (next_of (m.disruptor.consumer_sequences c)) ≡ false
      → Step threads m (with_consumer m c (reading (next_of (m.disruptor.consumer_sequences c))))
  copy :
      (m : Machine A) (c : ℕ) (next : ℤ)
      → m.consumers c ≡ reading next
      → Step threads m (with_consumer m c (copied next (m.disruptor.buffer (slot next))))
  finish :
      (m : Machine A) (c : ℕ) (next : ℤ) (a : A)
      → m.consumers c ≡ copied next a
      → Step threads m (with_consumer (advance m c next a) c idle)

pub data Reach {A : Type 0} (threads : ℕ) (m : Machine A) : Machine A → Type 0 where
  here : Reach threads m m
  next : {n o : Machine A} → Reach threads m n → Step threads n o → Reach threads m o

-- main.cpp before the threads start: `consumers` consumers are registered on a new Disruptor.
abbrev pub start : {A : Type 0} → Disruptor A → Machine A
start d = record {
  disruptor = d;
  producers = λ _. Producer.idle;
  consumers = λ _. Consumer.idle;
  published = [];
  received = λ _. [];
}
