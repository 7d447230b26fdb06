-- ===== src/Rest/Outcomes.antt =====
-- What a trader's answer says of the request that it was made from.
use trade_station.Common.{
  ◌≡◌, refl, ap, ◌∙◌, sym, ◌↔◌, ◌⊎◌, Bool, true, false, Bool-cases, none, some, inl, inr, String,
  if◌then◌else◌,
}
use trade_station.Orders.{OrderResult}
use trade_station.Rest.{Result, ok, failed, ◌>>=◌, Returns, Returns->>=, Returns-if, Returns-ok}
use trade_station.Rest.Answers.{Client, caught, accepted, refused, refusal, parsed, get_text}

-- What a function that returned had from the call at its start.
of_chain :
    {A B : Type 0} (rest : A → Result B) (b : B) (call : Result A)
    → (call >>= rest) ≡ ok b
    → (a : A) × (call ≡ ok a) × (rest a ≡ ok b)
of_chain rest b (failed what) e = cc
of_chain rest b (ok a) e = (a, refl, e)

pub ok-injective : {A : Type 0} (a b : A) → ok a ≡ ok b → a ≡ b
ok-injective a b e = cc

true_false : {A : Type 0} → true ≡ false → A
true_false e = cc

-- The branch that was taken.
of_true : {A : Type 0} (b : Bool) (x y : A) {r : A} → b ≡ true → (if b then x else y) ≡ r → x ≡ r
of_true true x y h e = e
of_true false x y h e = true_false (sym h)

of_false : {A : Type 0} (b : Bool) (x y : A) {r : A} → b ≡ false → (if b then x else y) ≡ r → y ≡ r
of_false true x y h e = true_false h
of_false false x y h e = e

of_accepted :
    (m : Result String) (message id : String)
    → (m >>= (λ i. ok (accepted i message))) ≡ ok (accepted id message)
    → m ≡ ok id
unfolding accepted
of_accepted (ok i) message id e = ap (λ r. ok r.order_id) (ok-injective _ _ e)
of_accepted (failed what) message id e = cc

-- A success has been returned; no exception becomes one.
pub caught-accepted :
    (m : Result OrderResult) (r : OrderResult) → r.success ≡ true → caught m ≡ r → m ≡ ok r
unfolding caught
caught-accepted (ok s) r h e = ap ok e
caught-accepted (failed what) r h e = true_false (sym h ∙ sym (ap (λ s. s.success) e))

-- A failure comes without an id.
abbrev pub IsSafe : OrderResult → Type 0
IsSafe r = (r.success ≡ true) ⊎ (r.order_id ≡ "")

pub caught-IsSafe : (m : Result OrderResult) → Returns IsSafe m → IsSafe (caught m)
unfolding caught
caught-IsSafe (ok r) h = h
caught-IsSafe (failed what) h = inr refl

-- A refusal: no success, and no id.
abbrev pub IsRefusal : OrderResult → Type 0
IsRefusal r = (r.success ≡ false) × (r.order_id ≡ "")

pub refused-IsRefusal : (message : String) → IsRefusal (refused message)
unfolding refused
refused-IsRefusal message = (refl, refl)

refusal-IsSafe : (m : Result OrderResult) → Returns IsRefusal m → Returns IsSafe m
refusal-IsSafe (ok r) h = inr h.1
refusal-IsSafe (failed what) h = tt

module _ {D : Type 0} (c : Client D) where
  pub refusal-IsRefusal :
      (j : c.json.J) (key body : String) → Returns IsRefusal (refusal c j key body)
  unfolding refusal
  refusal-IsRefusal j key body =
      Returns-if IsRefusal (c.json.contains j key) _ _
        (λ _. Returns->>= IsRefusal (get_text c (c.json.field j key)) _ refused-IsRefusal)
        (λ _. refused-IsRefusal body)

  pub parsed-some : (raw : String) (j : c.json.J) → parsed c raw ≡ ok j → c.json.parse raw ≡ some j
  unfolding parsed
  parsed-some raw j =
      elim (c.json.parse raw)
        as (λ r.
          elim r as (λ _. Result c.json.J) [ none ↦ failed (c.parse_error raw) | some d ↦ ok d ]
            ≡ ok j
          → r ≡ some j) [ none ↦ λ e. cc | some d ↦ λ e. ap some (ok-injective d j e) ]

  pub parsed-ok : (raw : String) (j : c.json.J) → c.json.parse raw ≡ some j → parsed c raw ≡ ok j
  unfolding parsed
  parsed-ok raw j e =
      ap
        (λ r. elim r as (λ _. Result c.json.J) [
          | none ↦ failed (c.parse_error raw)
          | some d ↦ ok d
        ])
        e

  -- A trader tells by a test of the document whether the request was carried out, reads the id of the
  -- order, and otherwise refuses.
  module _ (has : c.json.J → Bool) (read : c.json.J → Result String)
      (refuse : String → c.json.J → Result OrderResult) (message : String) where
    -- A body that is a document of an order that was carried out, with its id.
    pub record IsNamed (raw id : String) : Type 0 where
      pub document : c.json.J
      pub parses : c.json.parse raw ≡ some document
      pub carried_out : has document ≡ true
      pub reads : read document ≡ ok id

    abbrev pub branch : String → c.json.J → Result OrderResult
    branch raw j = if has j then read j >>= (λ id. ok (accepted id message)) else refuse raw j

    abbrev pub answer : String → Result OrderResult
    answer raw = parsed c raw >>= branch raw

    answer-IsNamed :
        ((raw : String) (j : c.json.J) → Returns IsRefusal (refuse raw j))
        → (raw id : String) → answer raw ≡ ok (accepted id message)
        → IsNamed raw id
    unfolding accepted
    answer-IsNamed fails raw id e =
        let (j, p, e') = of_chain (branch raw) _ (parsed c raw) e in
        elim (Bool-cases (has j)) [
          | inl done ↦ record {
            document = j;
            parses = parsed-some raw j p;
            carried_out = done;
            reads = of_accepted (read j) message id (of_true _ _ _ done e');
          }
          | inr refused ↦
              let r =
                Returns-ok IsRefusal (refuse raw j) (fails raw j) (of_false _ _ _ refused e') in
              true_false r.0
        ]

    IsNamed-answer : (raw id : String) → IsNamed raw id → answer raw ≡ ok (accepted id message)
    IsNamed-answer raw id named =
        rw (parsed-ok raw named.document named.parses, named.carried_out, named.reads)

    -- The result is a success exactly when the request was answered and the answer names the order.
    pub caught-answer :
        ((raw : String) (j : c.json.J) → Returns IsRefusal (refuse raw j))
        → (sent : Result String) (id : String)
        → (caught (sent >>= answer) ≡ accepted id message)
          ↔ ((raw : String) × (sent ≡ ok raw) × IsNamed raw id)
    unfolding accepted caught
    caught-answer fails sent id = (
      λ e.
          let (raw, q, e') =
            of_chain answer _ sent
              (caught-accepted (sent >>= answer) (accepted id message) refl e) in
          (raw, q, answer-IsNamed fails raw id e'),
      λ h. rw (h.1, IsNamed-answer h.0 id h.2),
    )

    -- What is no success is the refusal of an answer or the text of an exception, without an id.
    pub caught-answer-IsSafe :
        ((raw : String) (j : c.json.J) → Returns IsRefusal (refuse raw j))
        → (sent : Result String) → IsSafe (caught (sent >>= answer))
    unfolding accepted
    caught-answer-IsSafe fails sent = caught-IsSafe (sent >>= answer) (
        Returns->>= IsSafe sent answer λ raw. Returns->>= IsSafe (parsed c raw) (branch raw) λ j.
          Returns-if IsSafe (has j) _ _ (λ _. Returns->>= IsSafe (read j) _ λ id. inl refl)
            (λ _. refusal-IsSafe (refuse raw j) (fails raw j)))
