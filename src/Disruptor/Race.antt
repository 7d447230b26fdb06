-- ===== src/Disruptor/Race.antt =====
-- Two producer threads. main.cpp runs four handlers, and each of them publishes.
use trade_station.Common.{update_self, ℕ, ◌≡◌, refl, false, [], ◌∷◌, ◌++◌, arith}
use trade_station.Common.Int.{ℤ}
use trade_station.Disruptor.{slot, next_of, blocked, write}
use trade_station.Disruptor.Threads.{
  Machine, Producer, waiting, passed, written, load, pass, fill, store, Reach, here, next,
  with_producer, commit,
}

module _ {A : Type 0} (m : Machine A) (a b : A) where
  abbrev due : ℤ
  due = next_of m.disruptor.producer_sequence

  -- Both threads have loaded the sequence and passed the test.
  abbrev both_passed : Machine A
  both_passed =
      with_producer
        (with_producer (with_producer (with_producer m 0 (waiting due a)) 1 (waiting due b)) 0
          (passed due a))
        1 (passed due b)

  abbrev filled : Machine A → ℕ → A → Machine A
  filled n t u = with_producer (record n { disruptor = write n.disruptor due u }) t (written due u)

  abbrev stored : Machine A → ℕ → A → Machine A
  stored n t u = with_producer (commit n due u) t Producer.idle

  abbrev after_race : Machine A
  after_race = stored (stored (filled (filled both_passed 0 a) 1 b) 0 a) 1 b

  race :
      m.producers 0 ≡ Producer.idle
      → m.producers 1 ≡ Producer.idle
      → blocked m.disruptor due ≡ false
      → Reach 2 m after_race
  race p q free =
      next
        (next
          (next
            (next
              (next
                (next (next (next here (load m 0 a (omega arith) p)) (load _ 1 b (omega arith) q))
                  (pass _ 0 due a (omega arith) refl free))
                (pass _ 1 due b (omega arith) refl free))
              (fill _ 0 due a (omega arith) refl))
            (fill _ 1 due b (omega arith) refl))
          (store _ 0 due a (omega arith) refl))
        (store _ 1 due b (omega arith) refl)

  -- When two idle producer threads publish at once and the ring has room, an interleaving lets
  -- both calls return while the sequence moves on by one and the slot holds the second update
  -- only: the first is lost.
  pub update_lost :
      m.producers 0 ≡ Producer.idle
      → m.producers 1 ≡ Producer.idle
      → blocked m.disruptor due ≡ false
      → (n : Machine A) × Reach 2 m n
        × (n.published ≡ (m.published ++ (a ∷ [])) ++ (b ∷ []))
        × (n.disruptor.producer_sequence ≡ due)
        × (n.disruptor.buffer (slot due) ≡ b)
  unfolding write
  update_lost p q free = (
    after_race,
    race p q free,
    refl,
    refl,
    update_self (filled both_passed 0 a).disruptor.buffer (slot due) b,
  )
