-- ===== src/Trades.antt =====
-- scr/trades.h: the latest 20 trades of each exchange, written by the handler threads and read by
-- the render thread. Every method holds the lock throughout, so each is one step.
mod Search
mod Shift
pub mod Latest
pub mod Clear
mod Examples
use trade_station.Common.{
  ℕ, zero, suc, ◌+◌, Bool, Option, none, some, String, ltb, str_eq, update, first, List, [],
  if◌then◌else◌,
}
use trade_station.Common.Int.{ℤ}
use trade_station.Text.{take_chars}

pub record Trade (D : Type 0) : Type 0 where
  pub price : D
  pub qty : D
  pub is_buy : Bool
  pub time_ms : ℤ

abbrev pub max_trades : ℕ
max_trades = 20

abbrev pub max_ex : ℕ
max_ex = 4

pub record SharedTrades (D : Type 0) : Type 0 where
  pub trades : ℕ → ℕ → Trade D
  pub counts : ℕ → ℕ
  pub names : ℕ → String
  pub exchange_count : ℕ

-- The loop of `find_idx`, over the `n` rows from `i` on.
pub find_from : (ℕ → String) → String → ℕ → ℕ → Option ℕ
find_from names name i zero = none
find_from names name i (suc n) =
    let rest = find_from names name (suc i) n in if str_eq (names i) name then some i else rest

module _ {D : Type 0} where
  pub find_idx : SharedTrades D → String → Option ℕ
  find_idx s name = find_from s.names name 0 s.exchange_count

  pub find_or_create : SharedTrades D → String → Option ℕ × SharedTrades D
  find_or_create s name = elim (find_idx s name) [
    | some i ↦ (some i, s)
    | none ↦
        if ltb s.exchange_count max_ex
        then (
          some s.exchange_count,
          record s {
            exchange_count = s.exchange_count + 1;
            names = update s.names s.exchange_count (take_chars 15 name);
          },
        )
        else (none, s)
  ]

  -- The loop that moves `trades[idx][i - 1]` to `trades[idx][i]`, from `i` down to 1.
  pub shift : ℕ → (ℕ → Trade D) → ℕ → Trade D
  shift zero row = row
  shift (suc i) row = shift i (update row (suc i) (row i))

  pub prepend : SharedTrades D → ℕ → Trade D → SharedTrades D
  prepend s idx t = record s {
    trades = update s.trades idx (update (shift 19 (s.trades idx)) 0 t);
    counts =
        if ltb (s.counts idx) max_trades then update s.counts idx (s.counts idx + 1) else s.counts;
  }

  pub add : SharedTrades D → String → Trade D → SharedTrades D
  add s exchange t =
      let (idx, s') = find_or_create s exchange in elim idx [ none ↦ s' | some i ↦ prepend s' i t ]

  -- What `snapshot` copies out.
  pub snapshot : SharedTrades D → String → List (Trade D)
  snapshot s exchange = elim (find_idx s exchange) [
    | none ↦ []
    | some i ↦ first (s.counts i) (s.trades i)
  ]

  -- The loop of `clear_all`; `blank` is `Trade{}`.
  pub clear_from : Trade D → ℕ → ℕ → SharedTrades D → SharedTrades D
  clear_from blank i zero s = s
  clear_from blank i (suc n) s = clear_from blank (suc i) n (record s {
    counts = update s.counts i 0;
    trades = update s.trades i (λ j. if ltb j max_trades then blank else s.trades i j);
  })

  pub clear_all : Trade D → SharedTrades D → SharedTrades D
  clear_all blank s = clear_from blank 0 s.exchange_count s
