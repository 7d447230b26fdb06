-- ===== src/Disruptor/Fifo.antt =====
-- One producer thread: every consumer gets every publication, once and in order.
use mathlib.Core.Option
use mathlib.Core.Option.{some-injective}
use native.Mathlib.Decide.{ℕ_discrete}
use trade_station.Common.{
  update, update_self, update_ne, ℕ, zero, suc, ◌+◌, ◌≤◌, ◌<◌, ◌≡◌, refl, sym, ap, subst, ◌∙◌, true,
  inl, inr, ◌++◌, Option, none, some, Option-cases, arith, length, drop, take-append-drop,
}
use trade_station.Disruptor.{Disruptor, size, init, write, activate, add_consumer}
use trade_station.Disruptor.Sequence.{last}
use trade_station.Disruptor.Threads.{
  Machine, Producer, Step, load, pass, fill, store, begin, copy, finish, Reach, here, next, start,
}
use trade_station.Disruptor.Invariant.{Inv}
use trade_station.Disruptor.Producing.{load-Inv, pass-Inv, fill-Inv, store-Inv}
use trade_station.Disruptor.Consuming.{begin-Inv, copy-Inv, finish-Inv}

module _ {A : Type 0} where
  -- The only producer has the number 0.
  only : (m : Machine A) (t : ℕ) {s : Producer A} → t < 1 → m.producers t ≡ s → m.producers 0 ≡ s
  only m zero h e = e
  only m (suc t) h e = absurd (omega arith)

  Step-Inv : {m n : Machine A} → Step 1 m n → Inv m → Inv n
  Step-Inv (load m zero a h e) v = load-Inv m v a
  Step-Inv (pass m zero k a h e free) v = pass-Inv m v k a e free
  Step-Inv (fill m zero k a h e) v = fill-Inv m v k a e
  Step-Inv (store m zero k a h e) v = store-Inv m v k a e
  Step-Inv (load m (suc t) a h e) v = absurd (omega arith)
  Step-Inv (pass m (suc t) k a h e free) v = absurd (omega arith)
  Step-Inv (fill m (suc t) k a h e) v = absurd (omega arith)
  Step-Inv (store m (suc t) k a h e) v = absurd (omega arith)
  Step-Inv (begin m c lt e test) v = begin-Inv m v c lt test
  Step-Inv (copy m c k e) v = copy-Inv m v c k e
  Step-Inv (finish m c k a e) v = finish-Inv m v c k a e

  Step-count :
      {t : ℕ} {m n : Machine A}
      → Step t m n
      → n.disruptor.consumer_count ≡ m.disruptor.consumer_count
  unfolding write
  Step-count (load m t a h e) = refl
  Step-count (pass m t k a h e free) = refl
  Step-count (fill m t k a h e) = refl
  Step-count (store m t k a h e) = refl
  Step-count (begin m c lt e test) = refl
  Step-count (copy m c k e) = refl
  Step-count (finish m c k a e) = refl

  Reach-count :
      {t : ℕ} {m n : Machine A}
      → Reach t m n
      → n.disruptor.consumer_count ≡ m.disruptor.consumer_count
  Reach-count here = refl
  Reach-count (next r s) = Step-count s ∙ Reach-count r

  Reach-Inv : {m n : Machine A} → Inv m → Reach 1 m n → Inv n
  Reach-Inv v here = v
  Reach-Inv v (next r s) = Step-Inv s (Reach-Inv v r)

  -- `k` consumers registered on a new Disruptor.
  unfoldable pub register : ℕ → A → Option (Disruptor A)
  register zero blank = some (init blank)
  register (suc k) blank = elim (register k blank) [
    | none ↦ none
    | some d ↦ Option.map (λ r. r.1) (add_consumer d)
  ]

  record IsFresh (k : ℕ) (d : Disruptor A) : Type 0 where
    at : d.producer_sequence ≡ last 0
    count : d.consumer_count ≡ k
    active : (c : ℕ) → c < k → d.consumer_active c ≡ true
    taken : (c : ℕ) → c < k → d.consumer_sequences c ≡ last 0

  added :
      (d : Disruptor A) {e : Disruptor A}
      → Option.map (λ r. r.1) (add_consumer d) ≡ some e
      → activate d d.consumer_count ≡ e
  unfolding add_consumer
  added d h = ground arith

  add_consumer-IsFresh :
      (k : ℕ) (d : Disruptor A) {e : Disruptor A}
      → IsFresh k d
      → Option.map (λ r. r.1) (add_consumer d) ≡ some e
      → IsFresh (suc k) e
  add_consumer-IsFresh k d f h = subst (IsFresh (suc k)) (added d h) (record {
    at = f.at;
    count = omega (arith, f.count);
    active = λ c lt. active c (omega arith);
    taken = λ c lt. taken c (omega arith);
  })
    where
      active : (c : ℕ) → c ≤ k → update d.consumer_active d.consumer_count true c ≡ true
      active c le = elim (ℕ_discrete d.consumer_count c) [
        | yes e ↦ rw e (update_self d.consumer_active c true)
        | no ne ↦ update_ne d.consumer_active true ne ∙ f.active c (omega (arith, f.count))
      ]

      taken :
          (c : ℕ)
          → c ≤ k
          → update d.consumer_sequences d.consumer_count d.producer_sequence c ≡ last 0
      taken c le = elim (ℕ_discrete d.consumer_count c) [
        | yes e ↦ rw e (update_self d.consumer_sequences c d.producer_sequence ∙ f.at)
        | no ne ↦
            update_ne d.consumer_sequences d.producer_sequence ne
            ∙ f.taken c (omega (arith, f.count))
      ]

  none-absurd {ℓ} : {P : Type ℓ} {d : Disruptor A} → none ≡ some d → P
  none-absurd e = absurd (cc)

  register-IsFresh : (k : ℕ) (blank : A) {d : Disruptor A} → register k blank ≡ some d → IsFresh k d
  unfolding register init
  register-IsFresh zero blank h = subst (IsFresh 0) (some-injective _ _ h) (record {
    at = refl;
    count = refl;
    active = λ c lt. absurd (omega arith);
    taken = λ c lt. absurd (omega arith);
  })
  register-IsFresh (suc k) blank h = elim (Option-cases (register k blank)) [
    | inl e ↦ none-absurd (rw e at h)
    | inr (d, e) ↦ add_consumer-IsFresh k d (register-IsFresh k blank e) (rw e at h)
  ]

  start-Inv : (k : ℕ) (d : Disruptor A) → IsFresh k d → Inv (start d)
  start-Inv k d f = record {
    at = f.at;
    active = λ c lt. f.active c (omega (arith, f.count));
    taken = λ c lt. f.taken c (omega (arith, f.count));
    behind = λ c lt. omega arith;
    room = λ c lt. omega arith;
    prefix = λ c lt. refl;
    kept = λ j lt. absurd (omega arith);
    producer = tt;
    consumer = λ c. tt;
  }

  -- With one producer thread and `k` consumers registered at the start, under every interleaving,
  -- what a consumer has received is what was published, in order, from the first on, with nothing
  -- lost or repeated, and fewer than 1024 publications are still to come for it.
  pub published-received :
      (k : ℕ) (blank : A) {d : Disruptor A} {m : Machine A}
      → register k blank ≡ some d
      → Reach 1 (start d) m
      → (c : ℕ) → c < k
      → (m.published ≡ m.received c ++ drop (length (m.received c)) m.published)
        × (length m.published + 1 ≤ length (m.received c) + size)
  published-received k blank {d} {m} h r c lt = (
    sym (take-append-drop got m.published)
        ∙ ap (λ l. l ++ drop got m.published) (sym (v.prefix c lt')),
    v.room c lt',
  )
    where
      got : ℕ
      got = length (m.received c)

      fresh : IsFresh k d
      fresh = register-IsFresh k blank h

      v : Inv m
      v = Reach-Inv (start-Inv k d fresh) r

      lt' : c < m.disruptor.consumer_count
      lt' = omega (arith, Reach-count r, fresh.count)
