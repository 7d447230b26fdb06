-- ===== src/Bingx/Connection.antt =====
-- bingx/bingx_handler.cpp: the callbacks of the connection, and `decompress_gzip` over the rounds that zlib's
-- inflate goes through, which end as zlib does. The clock is read by each message.
use trade_station.Common.{ℕ, Bool, true, false, String, List, [], ◌∷◌, Option, none, some}
use trade_station.Text.{◌<>◌}
use trade_station.Feed.{number, Message, Exchange}
use trade_station.Feed.Connection.{Called, opened, timed_out}
use trade_station.Bingx.{request}

unfoldable fresh : Exchange
fresh = record { name = "BingX"; symbol = "BTC-USDT"; running = false }

unfoldable subscriptions : {J : Type 0} → (ℕ → String) → ℕ → ℕ → Exchange → List (Message J)
subscriptions print ts ts2 h =
    request (print ts) "sub" (h.symbol <> "@depth20")
    ∷ request (print ts2) "sub" (h.symbol <> "@trade")
    ∷ []

unfoldable on_open : {J : Type 0} → (Message J → Bool) → (ℕ → String) → ℕ → ℕ → Exchange → Called J
on_open accepts print ts ts2 h = opened accepts true (subscriptions print ts ts2 h) h

unfoldable ping : {J : Type 0} → ℕ → Message J
ping ts = ("ping", number ts) ∷ []

unfoldable on_timer : {J : Type 0} → (Message J → Bool) → ℕ → Bool → Exchange → Called J
on_timer accepts ts ec h = timed_out accepts ec (ping ts) h

-- A round of the loop of `decompress_gzip`: the bytes that inflate adds, and its code.
data Code : Type 0 where
  ok stream_end other : Code

record Round : Type 0 where
  output : String
  ret : Code

unfoldable inflate_rounds : List Round → String → Option String
inflate_rounds [] out = none
inflate_rounds (r ∷ rounds) out =
    let rest = inflate_rounds rounds (out <> r.output) in
    elim r.ret [ ok ↦ rest | stream_end ↦ some (out <> r.output) | other ↦ none ]

-- `none` for the rounds stands for an `inflateInit2` that fails; `none` as the result is an exception.
unfoldable decompress_gzip : (String → Option (List Round)) → String → Option String
decompress_gzip zlib compressed = elim (zlib compressed) [
  | none ↦ none
  | some rounds ↦ inflate_rounds rounds ""
]
