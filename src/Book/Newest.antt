-- ===== src/Book/Newest.antt =====
-- What the display shows after any run of updates: the newest one of each exchange.
use trade_station.Common.{
  ℕ, ◌+◌, ◌≤◌, ◌≡◌, refl, ap, ◌∙◌, inl, inr, Bool, true, false, Option, none, some, String, first,
  str_eq, eq_iff, List, [], ◌∷◌, ◌++◌, length, length-append, arith, All, if◌then◌else◌, Bool-cases,
  lt→ltb,
}
use trade_station.Book.{OrderBookUpdate, SharedDisplay, max_exchanges, put, snapshot}
use trade_station.Book.Slots.{replace, has, upsert, snapshot-put}

-- A list of names holds the name.
abbrev pub among : String → List String → Bool
among name [] = false
among name (n ∷ ns) = if str_eq name n then true else among name ns

module _ {D : Type 0} where
  -- The slot of an exchange.
  pub find_book : String → List (OrderBookUpdate D) → Option (OrderBookUpdate D)
  find_book name [] = none
  find_book name (s ∷ ss) = if str_eq s.exchange name then some s else find_book name ss

  -- The last of the updates with that exchange, or what there was before.
  pub newest :
      String → Option (OrderBookUpdate D) → List (OrderBookUpdate D) → Option (OrderBookUpdate D)
  newest name acc [] = acc
  newest name acc (u ∷ us) = newest name (if str_eq u.exchange name then some u else acc) us

  pub put_all : SharedDisplay D → List (OrderBookUpdate D) → SharedDisplay D
  put_all d [] = d
  put_all d (u ∷ us) = put_all (put d u) us

  -- How many of the names have no slot yet.
  missing : List String → List (OrderBookUpdate D) → ℕ
  missing [] ss = 0
  missing (n ∷ ns) ss = (if has n ss then 0 else 1) + missing ns ss

  has-replace :
      (name : String) (u : OrderBookUpdate D) (ss : List (OrderBookUpdate D))
      → has name (replace u ss) ≡ has name ss
  unfolding has replace
  has-replace name u [] = refl
  has-replace name u (s ∷ ss) = ground (
    arith,
    eq_iff s.exchange u.exchange,
    eq_iff u.exchange name,
    eq_iff s.exchange name,
    has-replace name u ss,
  )

  has-append :
      (name : String) (u : OrderBookUpdate D) (ss : List (OrderBookUpdate D))
      → has name (ss ++ (u ∷ [])) ≡ (if has name ss then true else str_eq u.exchange name)
  unfolding has
  has-append name u [] = ground arith
  has-append name u (s ∷ ss) = ground (arith, has-append name u ss)

  length-replace :
      (u : OrderBookUpdate D) (ss : List (OrderBookUpdate D)) → length (replace u ss) ≡ length ss
  unfolding replace
  length-replace u [] = refl
  length-replace u (s ∷ ss) = ground (arith, length-replace u ss)

  missing-replace :
      (ns : List String) (u : OrderBookUpdate D) (ss : List (OrderBookUpdate D))
      → missing ns (replace u ss) ≡ missing ns ss
  unfolding missing
  missing-replace [] u ss = refl
  missing-replace (n ∷ ns) u ss = rw (has-replace n u ss, missing-replace ns u ss)

  missing-append-le :
      (ns : List String) (u : OrderBookUpdate D) (ss : List (OrderBookUpdate D))
      → missing ns (ss ++ (u ∷ [])) ≤ missing ns ss
  unfolding missing
  missing-append-le [] u ss = omega arith
  missing-append-le (n ∷ ns) u ss = ground (arith, has-append n u ss, missing-append-le ns u ss)

  -- A new slot takes one of the missing names.
  missing-append :
      (ns : List String) (u : OrderBookUpdate D) (ss : List (OrderBookUpdate D))
      → among u.exchange ns ≡ true
      → has u.exchange ss ≡ false
      → missing ns (ss ++ (u ∷ [])) + 1 ≤ missing ns ss
  unfolding missing
  missing-append [] u ss a h = absurd (cc)
  missing-append (n ∷ ns) u ss a h = ground (
    arith,
    eq_iff u.exchange n,
    has-append n u ss,
    missing-append-le ns u ss,
    missing-append ns u ss,
  )

  find_book-replace :
      (name : String) (u : OrderBookUpdate D) (ss : List (OrderBookUpdate D))
      → has u.exchange ss ≡ true
      → find_book name (replace u ss)
        ≡ (if str_eq u.exchange name then some u else find_book name ss)
  unfolding find_book replace has
  find_book-replace name u [] h = cc
  find_book-replace name u (s ∷ ss) h = ground (
    arith,
    eq_iff s.exchange u.exchange,
    eq_iff u.exchange name,
    eq_iff s.exchange name,
    find_book-replace name u ss,
  )

  find_book-append :
      (name : String) (u : OrderBookUpdate D) (ss : List (OrderBookUpdate D))
      → has u.exchange ss ≡ false
      → find_book name (ss ++ (u ∷ []))
        ≡ (if str_eq u.exchange name then some u else find_book name ss)
  unfolding find_book has
  find_book-append name u [] h = refl
  find_book-append name u (s ∷ ss) h = ground (
    arith,
    eq_iff u.exchange name,
    eq_iff s.exchange name,
    eq_iff s.exchange u.exchange,
    find_book-append name u ss,
  )

  -- Every further update of a known exchange finds its slot or room for one.
  abbrev Roomy : List String → List (OrderBookUpdate D) → Type 0
  Roomy ns ss = length ss + missing ns ss ≤ max_exchanges

  upsert_step :
      (ns : List String) (u : OrderBookUpdate D) (ss : List (OrderBookUpdate D)) (name : String)
      → Roomy ns ss
      → among u.exchange ns ≡ true
      → Roomy ns (upsert u ss)
        × (find_book name (upsert u ss)
            ≡ (if str_eq u.exchange name then some u else find_book name ss))
  unfolding upsert
  upsert_step ns u ss name room a = elim (Bool-cases (has u.exchange ss)) [
    | inl old ↦ (
      rw old (omega (arith, length-replace u ss, missing-replace ns u ss)),
      rw old (find_book-replace name u ss old),
    )
    | inr new ↦
        let fits = lt→ltb (length ss) max_exchanges (omega (arith, missing-append ns u ss a new)) in
        (
          rw (new, fits) (omega (arith, length-append ss (u ∷ []), missing-append ns u ss a new)),
          rw (new, fits) (find_book-append name u ss new),
        )
  ]

  newest_shown :
      (ns : List String) (us : List (OrderBookUpdate D)) (d : SharedDisplay D) (name : String)
      → Roomy ns (snapshot d)
      → All (λ u. among u.exchange ns ≡ true) us
      → find_book name (snapshot (put_all d us)) ≡ newest name (find_book name (snapshot d)) us
  unfolding put_all newest
  newest_shown ns [] d name room known = refl
  newest_shown ns (u ∷ us) d name room known =
      newest_shown ns us (put d u) name (rw (snapshot-put d u) own.0) known.1
      ∙ ap (λ b. newest name b us) (ap (find_book name) (snapshot-put d u) ∙ own.1)
    where
      own :
          Roomy ns (upsert u (snapshot d))
          × (find_book name (upsert u (snapshot d))
              ≡ (if str_eq u.exchange name then some u else find_book name (snapshot d)))
      own = upsert_step ns u (snapshot d) name room known.0

  missing-le : (ns : List String) (ss : List (OrderBookUpdate D)) → missing ns ss ≤ length ns
  unfolding missing
  missing-le [] ss = omega arith
  missing-le (n ∷ ns) ss = ground (arith, missing-le ns ss)

  -- If the updates come from at most four exchanges, then after any run of them, from a display
  -- with no slot in use, the slot of each exchange holds the newest update of that exchange, and
  -- an exchange with no update has no slot.
  pub find_book-put_all :
      (ns : List String) (us : List (OrderBookUpdate D)) (d : SharedDisplay D) (name : String)
      → length ns ≤ 4
      → d.exchange_count ≡ 0
      → All (λ u. among u.exchange ns ≡ true) us
      → find_book name (snapshot (put_all d us)) ≡ newest name none us
  unfolding snapshot find_book
  find_book-put_all ns us d name four empty known =
      newest_shown ns us d name (rw nothing (omega (arith, missing-le ns [], four))) known
      ∙ ap (λ ss. newest name (find_book name ss) us) nothing
    where
      nothing : snapshot d ≡ []
      nothing = ap (λ n. first n d.exchanges) empty
