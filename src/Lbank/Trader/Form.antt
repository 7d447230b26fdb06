-- ===== src/Lbank/Trader/Form.antt =====
-- The form that LBank is sent, as the receiver of a form reads it.
use Prim.Native.Char.{Char}
use trade_station.Common.{
  ℕ, ◌≡◌, refl, Option, none, some, ◌>>=◌, String, List, [], ◌∷◌, arith, Bool-cases, inl, inr,
  str_eq,
}
use trade_station.Text.{◌<>◌}
use trade_station.Text.Joining.{append-empty}
use trade_station.Text.Dictionary.{Dictionary, assign, less}
use trade_station.Rest.{url_encode, Digests, hmac_sha256_hex}
use trade_station.Rest.Encoding.{
  codes, IsBytes, outside, url_decode, to_hex-IsBytes, decode-url_encode,
}
use trade_station.Rest.Splitting.{
  splits, splits-append, prefixed, onto_first, lacks-url_encode, ampersand-IsSeparator,
  equals-IsSeparator,
}
use trade_station.Lbank.Trader.{
  pop_back, form_fields, lbank_signed_body, with_key, with_sign, sign_fields,
}

-- The bytes of a name and of its value.
abbrev pub Pair : Type 0
Pair = List ℕ × List ℕ

-- A field of a form, split at its `=`.
unfoldable pub read_parts : List String → Option Pair
read_parts (k ∷ v ∷ []) =
    url_decode outside k >>= (λ a. url_decode outside v >>= (λ b. some (a, b)))
read_parts parts = none

unfoldable pub read_fields : List String → Option (List Pair)
read_fields [] = some []
read_fields (f ∷ fs) =
    let rest = read_fields fs in
    read_parts (splits b'=' f) >>= (λ p. rest >>= (λ ps. some (p ∷ ps)))

-- A form of the type application/x-www-form-urlencoded, read without `+` for a space.
unfoldable pub read_form : String → Option (List Pair)
read_form s = read_fields (splits b'&' s)

abbrev pub pair_bytes : Dictionary → List Pair
pair_bytes [] = []
pair_bytes ((k, v) ∷ m) = (codes k, codes v) ∷ pair_bytes m

abbrev pub AreBytes : Dictionary → Type 0
AreBytes [] = Unit
AreBytes ((k, v) ∷ m) = (IsBytes k × IsBytes v) × AreBytes m

abbrev field_text : String → String → String
field_text k v = url_encode k <> (String.◌∷◌ "=" (url_encode v <> ""))

read_parts-splits :
    (k v : String)
    → IsBytes k
    → IsBytes v
    → read_parts (splits b'=' (field_text k v)) ≡ some (codes k, codes v)
unfolding read_parts splits prefixed onto_first
read_parts-splits k v hk hv = rw (
  splits-append b'=' (url_encode k) (String.◌∷◌ "=" (url_encode v <> ""))
      (lacks-url_encode b'=' equals-IsSeparator k),
  splits-append b'=' (url_encode v) "" (lacks-url_encode b'=' equals-IsSeparator v),
  append-empty (url_encode k),
  append-empty (url_encode v),
  decode-url_encode k hk,
  decode-url_encode v hv,
)

splits-field_last : (k v : String) → splits b'&' (field_text k v) ≡ field_text k v ∷ []
unfolding splits prefixed onto_first
splits-field_last k v = simp (
  splits-append b'&' (url_encode k) (String.◌∷◌ "=" (url_encode v <> ""))
      (lacks-url_encode b'&' ampersand-IsSeparator k),
  splits-append b'&' (url_encode v) "" (lacks-url_encode b'&' ampersand-IsSeparator v),
)

splits-field :
    (k v rest : String)
    → splits b'&' (url_encode k <> (String.◌∷◌ "=" (url_encode v <> (String.◌∷◌ "&" rest))))
      ≡ field_text k v ∷ splits b'&' rest
unfolding splits prefixed onto_first
splits-field k v rest = simp (
  splits-append b'&' (url_encode k) (String.◌∷◌ "=" (url_encode v <> (String.◌∷◌ "&" rest)))
      (lacks-url_encode b'&' ampersand-IsSeparator k),
  splits-append b'&' (url_encode v) (String.◌∷◌ "&" rest)
      (lacks-url_encode b'&' ampersand-IsSeparator v),
)

-- The text of a form, without the separator at its end.
form_text : String → String → Dictionary → String
form_text k v [] = field_text k v
form_text k v ((j, w) ∷ m) =
    url_encode k <> (String.◌∷◌ "=" (url_encode v <> (String.◌∷◌ "&" (form_text j w m))))

pop_back-append :
    (t : String) (c : Char) (s : String)
    → pop_back (t <> (String.◌∷◌ c s)) ≡ t <> pop_back (String.◌∷◌ c s)
unfolding pop_back
pop_back-append String.[] c s = refl
pop_back-append (String.◌∷◌ d String.[]) c s = refl
pop_back-append (String.◌∷◌ d (String.◌∷◌ e t)) c s = cc (pop_back-append (String.◌∷◌ e t) c s)

-- The last character goes from the last of three parts.
pop_back-field :
    (t u : String) (b c : Char) (s : String)
    → pop_back (t <> (String.◌∷◌ b (u <> (String.◌∷◌ c s))))
      ≡ t <> (String.◌∷◌ b (u <> pop_back (String.◌∷◌ c s)))
pop_back-field t u b c s =
    rw (pop_back-append t b (u <> (String.◌∷◌ c s)), pop_back-append (String.◌∷◌ b u) c s)

pop_back-form_fields :
    (k v : String) (m : Dictionary) → pop_back (form_fields ((k, v) ∷ m)) ≡ form_text k v m
unfolding form_fields form_text pop_back
pop_back-form_fields k v [] = pop_back-field (url_encode k) (url_encode v) "=" "&" ""
pop_back-form_fields k v ((j, w) ∷ m) = rw (
  pop_back-field (url_encode k) (url_encode v) "=" "&" (form_fields ((j, w) ∷ m)),
  pop_back-append (String.◌∷◌ "&" (url_encode j)) "="
      (url_encode w <> (String.◌∷◌ "&" (form_fields m))),
  ← pop_back-append (url_encode j) "=" (url_encode w <> (String.◌∷◌ "&" (form_fields m))),
  pop_back-form_fields j w m,
)

read_form-form_text :
    (k v : String) (m : Dictionary)
    → AreBytes ((k, v) ∷ m)
    → read_form (form_text k v m) ≡ some (pair_bytes ((k, v) ∷ m))
unfolding form_text read_form read_fields
read_form-form_text k v [] ((hk, hv), h) = rw (splits-field_last k v, read_parts-splits k v hk hv)
read_form-form_text k v ((j, w) ∷ m) ((hk, hv), h) =
    rw
      (splits-field k v (form_text j w m), read_parts-splits k v hk hv, read_form-form_text j w m h)

assign-AreBytes :
    (k v : String) (m : Dictionary) → IsBytes k → IsBytes v → AreBytes m → AreBytes (assign k v m)
unfolding assign
assign-AreBytes k v [] hk hv h = ((hk, hv), tt)
assign-AreBytes k v ((j, w) ∷ m) hk hv (hj, h) = elim (Bool-cases (str_eq k j)) [
  | inl e ↦ simp e ((hk, hv), h)
  | inr e ↦ elim (Bool-cases (less k j)) [
    | inl l ↦ simp (e, l) ((hk, hv), (hj, h))
    | inr l ↦ simp (e, l) (hj, assign-AreBytes k v m hk hv h)
  ]
]

assign-has_first :
    (k v : String) (m : Dictionary)
    → (p : String × String) × (n : Dictionary) × (assign k v m ≡ p ∷ n)
unfolding assign
assign-has_first k v [] = ((k, v), [], refl)
assign-has_first k v ((j, w) ∷ m) = elim (Bool-cases (str_eq k j)) [
  | inl e ↦ simp e ((k, v), m, refl)
  | inr e ↦ elim (Bool-cases (less k j)) [
    | inl l ↦ simp (e, l) ((k, v), (j, w) ∷ m, refl)
    | inr l ↦ simp (e, l) ((j, w), assign k v m, refl)
  ]
]

-- Any dictionary that is not empty is read back from its form.
read_form-pop_back :
    (m : Dictionary) (p : String × String) (n : Dictionary)
    → m ≡ p ∷ n
    → AreBytes m
    → read_form (pop_back (form_fields m)) ≡ some (pair_bytes m)
read_form-pop_back [] p n e h = cc
read_form-pop_back ((k, v) ∷ m) p n e h =
    rw (pop_back-form_fields k v m, read_form-form_text k v m h)

-- The form that is sent reads as the parameters of the request, the key, the method and the
-- signature, each under its name, whatever bytes stand in them: no value ends early or adds a field.
pub read_form-lbank_signed_body :
    (digests : Digests) (api_key api_secret : String) (params : Dictionary)
    → IsBytes api_key
    → AreBytes params
    → read_form (lbank_signed_body digests api_key api_secret params)
      ≡ some (pair_bytes (with_sign digests api_secret (with_key api_key params)))
unfolding lbank_signed_body with_sign with_key hmac_sha256_hex
read_form-lbank_signed_body digests api_key api_secret params hk h =
    let named = with_key api_key params in
    let sign = hmac_sha256_hex digests api_secret (pop_back (sign_fields named)) in
    let (p, n, e) = assign-has_first "sign" sign named in
    read_form-pop_back (assign "sign" sign named) p n e (
      assign-AreBytes "sign" sign named (ground arith) (to_hex-IsBytes _) (
        assign-AreBytes "signature_method" "HmacSHA256" _ (ground arith) (ground arith)
          (assign-AreBytes "api_key" api_key params (ground arith) hk h)))
