-- ===== src/Book/Examples.antt =====
-- A display with two exchanges.
use trade_station.Common.{ℕ, ◌≡◌, All, refl, none, String, List, [], ◌∷◌, map, arith}
use trade_station.Book.{PriceLevel, OrderBookUpdate, SharedDisplay, put, snapshot, clear_books}
use trade_station.Book.Slots.{upsert, IsEmpty, snapshot-put, snapshot-clear_books}
use trade_station.Book.Newest.{find_book, newest, put_all, find_book-put_all}

abbrev level : PriceLevel ℕ
level = record { price = 3; quantity = 5 }

abbrev book : String → ℕ → OrderBookUpdate ℕ
book exchange time = record {
  exchange = exchange;
  symbol = "BTC_USDT";
  bids = λ _. level;
  asks = λ _. level;
  timestamp_ms = time;
  bid_count = 1;
  ask_count = 1;
}

abbrev no_books : SharedDisplay ℕ
no_books = record { exchanges = λ _. book "" 0; exchange_count = 0 }

abbrev three : List (OrderBookUpdate ℕ)
three = book "Gate" 1 ∷ book "MEXC" 2 ∷ book "Gate" 3 ∷ []

find_book-put_all_example :
    find_book "Gate" (snapshot (put_all no_books three)) ≡ newest "Gate" none three
find_book-put_all_example =
    find_book-put_all ("MEXC" ∷ "Gate" ∷ []) three no_books "Gate" (omega arith) refl
      (refl, (refl, (refl, tt)))

snapshot-put_example :
    snapshot (put no_books (book "Gate" 1)) ≡ upsert (book "Gate" 1) (snapshot no_books)
snapshot-put_example = snapshot-put no_books (book "Gate" 1)

snapshot-clear_books_example :
    (map (λ u. u.exchange) (snapshot (clear_books 0 (put no_books (book "Gate" 1))))
      ≡ map (λ u. u.exchange) (snapshot (put no_books (book "Gate" 1))))
    × All (IsEmpty 0) (snapshot (clear_books 0 (put no_books (book "Gate" 1))))
snapshot-clear_books_example = snapshot-clear_books 0 (put no_books (book "Gate" 1))
