-- ===== src/Disruptor/Producing.antt =====
-- One producer thread: the steps of `publish` keep the invariant.
use native.Mathlib.Decide.{ℕ_discrete}
use trade_station.Common.{
  update_self, update_ne, ℕ, suc, ◌+◌, ◌%◌, ◌≤◌, ◌<◌, ◌≡◌, ◌≢◌, sym, ap, subst, ◌∙◌, false, [], ◌∷◌,
  ◌++◌, some, arith, length, get_elem?, length-append, get_elem?-append_left, get_elem?-length,
  take-append_left,
}
use trade_station.Common.Int.{ℤ, pos}
use trade_station.Disruptor.{size, slot, next_of, blocked, write}
use trade_station.Disruptor.Sequence.{last, next_of-last, slot-pos, room_of_pass}
use trade_station.Disruptor.Threads.{
  Producer, waiting, passed, written, Machine, Consumer, reading, copied, with_producer, commit,
}
use trade_station.Disruptor.Invariant.{PlaceP, PlaceC, Inv}

module _ {A : Type 0} (m : Machine A) (v : Inv m) where
  abbrev p : ℕ
  p = length m.published

  pub load-Inv :
      (a : A) → Inv (with_producer m 0 (waiting (next_of m.disruptor.producer_sequence) a))
  load-Inv a = record {
    at = v.at;
    active = v.active;
    taken = v.taken;
    behind = v.behind;
    room = v.room;
    prefix = v.prefix;
    kept = v.kept;
    producer = rw v.at (next_of-last (length m.published));
    consumer = v.consumer;
  }

  pub pass-Inv :
      (n : ℤ) (a : A)
      → m.producers 0 ≡ waiting n a
      → blocked m.disruptor n ≡ false
      → Inv (with_producer m 0 (passed n a))
  pass-Inv n a e free = record {
    at = v.at;
    active = v.active;
    taken = v.taken;
    behind = v.behind;
    room = v.room;
    prefix = v.prefix;
    kept = v.kept;
    producer = (
      own,
      λ c lt.
          room_of_pass m.disruptor (length m.published) v.at c (length (m.received c))
            (rw own at free) lt (v.active c lt) (v.taken c lt),
    );
    consumer = v.consumer;
  }
    where
      own : n ≡ pos (length m.published)
      own = subst (PlaceP m) e v.producer

  -- The slot written holds no publication that a consumer may still read.
  pub fill-Inv :
      (n : ℤ) (a : A)
      → m.producers 0 ≡ passed n a
      → Inv (with_producer (record m { disruptor = write m.disruptor n a }) 0 (written n a))
  unfolding write
  fill-Inv n a e = record {
    at = v.at;
    active = v.active;
    taken = v.taken;
    behind = v.behind;
    room = v.room;
    prefix = v.prefix;
    kept = λ j lt near.
        rw (update_ne m.disruptor.buffer {i = slot n} {j = j % size} a (apart j lt near))
          (v.kept j lt near);
    producer = (own.0, own.1, rw (← at_slot) (update_self m.disruptor.buffer (slot n) a));
    consumer = v.consumer;
  }
    where
      own : PlaceP m (passed n a)
      own = subst (PlaceP m) e v.producer

      at_slot : slot n ≡ length m.published % size
      at_slot = rw own.0 (slot-pos (length m.published))

      apart :
          (j : ℕ) → j < length m.published → length m.published + 1 ≤ j + size → slot n ≢ j % size
      apart j lt near = omega (arith, at_slot)

  longer : (a : A) → length (m.published ++ (a ∷ [])) ≡ length m.published + 1
  longer a = length-append m.published (a ∷ [])

  pub store-Inv :
      (n : ℤ) (a : A)
      → m.producers 0 ≡ written n a
      → Inv (with_producer (commit m n a) 0 Producer.idle)
  store-Inv n a e = record {
    at = own.0 ∙ sym (ap last one_more);
    active = v.active;
    taken = v.taken;
    behind = λ c lt. omega (arith, v.behind c lt, longer a);
    room = λ c lt. omega (arith, own.1 c lt, longer a);
    prefix = λ c lt.
        v.prefix c lt
        ∙ sym (take-append_left (length (m.received c)) m.published (a ∷ []) (v.behind c lt));
    kept = kept_after;
    producer = tt;
    consumer = λ c. place_after c (m.consumers c) (v.consumer c);
  }
    where
      own : PlaceP m (written n a)
      own = subst (PlaceP m) e v.producer

      one_more : length (m.published ++ (a ∷ [])) ≡ suc (length m.published)
      one_more = omega (arith, longer a)

      kept_after :
          (j : ℕ)
          → j < length (m.published ++ (a ∷ []))
          → length (m.published ++ (a ∷ [])) + 1 ≤ j + size
          → get_elem? (m.published ++ (a ∷ [])) j ≡ some (m.disruptor.buffer (j % size))
      kept_after j lt near = elim (ℕ_discrete j (length m.published)) [
        | yes new ↦ rw new (get_elem?-length m.published a ∙ sym (ap some own.2))
        | no old ↦
            let lt' : j < length m.published = omega (arith, longer a) in
            get_elem?-append_left m.published (a ∷ []) j lt'
            ∙ v.kept j lt' (omega (arith, longer a))
      ]

      place_after :
          (c : ℕ) (s : Consumer A)
          → PlaceC m c s
          → PlaceC (with_producer (commit m n a) 0 Producer.idle) c s
      place_after c Consumer.idle h = tt
      place_after c (reading k) h = (h.0, h.1, omega (arith, longer a))
      place_after c (copied k b) h = (
        h.0,
        h.1,
        omega (arith, longer a),
        get_elem?-append_left m.published (a ∷ []) _ h.2 ∙ h.3,
      )
