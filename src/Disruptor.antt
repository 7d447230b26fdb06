-- ===== src/Disruptor.antt =====
-- scr/disruptor.h, class Disruptor<SIZE>, at the SIZE 1024 with which the program uses it
-- everywhere. A sequence is a `long`, here an integer that does not overflow (2^63 publications).
-- The functions of this file are the bodies of the methods run without interruption;
-- Disruptor/Threads.antt takes them apart for interleavings.
pub mod Sequence
pub mod Threads
pub mod Invariant
pub mod Producing
pub mod Consuming
pub mod Waiting
pub mod Fifo
pub mod Race
mod Examples
use Prim.Native.Nat.{bit_and}
use trade_station.Common.{
  ℕ, zero, suc, ◌+◌, ◌-◌, ◌^◌, Bool, true, false, Option, none, some, ltb, update, if◌then◌else◌,
}
use trade_station.Common.Int.{ℤ, pos, negsuc, pos_part, ◌+ℤ◌, ◌-ℤ◌, ltb_ℤ, leb_ℤ, eqb_ℤ}

abbrev pub size : ℕ
size = 1024

abbrev pub mask : ℕ
mask = 1023

abbrev pub max_consumers : ℕ
max_consumers = 64

abbrev pub long_max : ℤ
long_max = pos (2 ^ 63 - 1)

pub record Disruptor (A : Type 0) : Type 0 where
  pub buffer : ℕ → A
  pub producer_sequence : ℤ
  pub consumer_sequences : ℕ → ℤ
  pub consumer_active : ℕ → Bool
  pub consumer_count : ℕ

-- The index `next & MASK`. The callers pass sequences from 0 on.
pub slot : ℤ → ℕ
slot next = bit_and (pos_part next) mask

-- The sequence that `publish` and `consume` work on.
abbrev pub next_of : ℤ → ℤ
next_of s = s +ℤ pos 1

module _ {A : Type 0} where
  -- The constructor; `blank` is the value with which the slots are initialised.
  pub init : A → Disruptor A
  init blank = record {
    buffer = λ _. blank;
    producer_sequence = negsuc 0;
    consumer_sequences = λ _. negsuc 0;
    consumer_active = λ _. false;
    consumer_count = 0;
  }

  -- One round of the loop of `find_minimum`.
  pub lower : Disruptor A → ℕ → ℤ → ℤ
  lower d i min =
      if d.consumer_active i
      then (if ltb_ℤ (d.consumer_sequences i) min then d.consumer_sequences i else min)
      else min

  -- The loop, over the `n` consumers from `i` on.
  pub minimum_from : Disruptor A → ℕ → ℕ → ℤ → ℤ
  minimum_from d zero i min = min
  minimum_from d (suc n) i min = minimum_from d n (i + 1) (lower d i min)

  pub find_minimum : Disruptor A → ℤ
  find_minimum d =
      let min = minimum_from d d.consumer_count 0 long_max in
      if eqb_ℤ min long_max then d.producer_sequence -ℤ pos size else min

  -- The stores of `add_consumer`.
  abbrev pub activate : Disruptor A → ℕ → Disruptor A
  activate d id = record d {
    consumer_count = id + 1;
    consumer_sequences = update d.consumer_sequences id d.producer_sequence;
    consumer_active = update d.consumer_active id true;
  }

  -- `none`: the arrays have no element at the new index, which the code does not check.
  pub add_consumer : Disruptor A → Option (ℕ × Disruptor A)
  add_consumer d =
      let id = d.consumer_count in if ltb id max_consumers then some (id, activate d id) else none

  -- The test of the waiting loop of `publish`.
  pub blocked : Disruptor A → ℤ → Bool
  blocked d next = leb_ℤ (pos size) (next -ℤ find_minimum d)

  -- `buffer[next & MASK] = update`
  pub write : Disruptor A → ℤ → A → Disruptor A
  write d next a = record d { buffer = update d.buffer (slot next) a }

  -- `none`: the loop waits, and goes on to do so until a consumer moves.
  pub publish : Disruptor A → A → Option (Disruptor A)
  publish d a =
      let next = next_of d.producer_sequence in
      if blocked d next then none else some (record (write d next a) { producer_sequence = next })

  -- `none` is `false`, with nothing changed.
  pub consume : Disruptor A → ℕ → Option (A × Disruptor A)
  consume d id =
      let next = next_of (d.consumer_sequences id) in
      if ltb_ℤ d.producer_sequence next
      then none
      else some (
        d.buffer (slot next),
        record d { consumer_sequences = update d.consumer_sequences id next },
      )
