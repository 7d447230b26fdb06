-- ===== src/Rest.antt =====
-- trading/rest_client.h: requests over HTTPS, digests in hexadecimal and percent-encoding. OpenSSL and
-- Boost are parameters: what they do is a value of `Network` and of `Digests`.
pub mod Hex
pub mod Encoding
pub mod Splitting
pub mod Answers
pub mod Outcomes
pub mod Listing
pub mod Sample
use Prim.Native.Char.{Char, code, nul}
use Prim.Native.String
use trade_station.Common.{
  ℕ, zero, suc, ◌/◌, ◌%◌, Bool, true, false, ◌&&◌, ◌||◌, String, List, [], ◌∷◌, leb, ◌==◌,
  if◌then◌else◌, ◌≡◌, refl, subst,
}
use trade_station.Text.{◌<>◌}

-- What a function returns, or what() of the exception that it throws.
pub data Result {ℓ} (A : Type ℓ) : Type ℓ where
  failed : String → Result A
  ok : A → Result A

-- The rest of a function behind a call, which an exception passes over.
infixl 5 ◌>>=◌
abbrev pub ◌>>=◌ {ℓ} : {A B : Type ℓ} → Result A → (A → Result B) → Result B
failed what >>= rest = failed what
ok a >>= rest = rest a

-- What holds of everything that a function returns, and how it is shown of a chain and of a branch.
abbrev pub Returns {ℓ κ} : {A : Type ℓ} → (A → Type κ) → Result A → Type κ
Returns P (ok a) = P a
Returns P (failed e) = Unit

pub Returns->>= {ℓ κ} :
    {A : Type ℓ} {B : Type ℓ} (P : B → Type κ) (m : Result A) (f : A → Result B)
    → ((a : A) → Returns P (f a))
    → Returns P (m >>= f)
Returns->>= P (ok a) f h = h a
Returns->>= P (failed e) f h = tt

pub Returns-chain {ℓ κ μ} :
    {A : Type ℓ} {B : Type ℓ} (Q : A → Type μ) (P : B → Type κ) (m : Result A) (f : A → Result B)
    → Returns Q m
    → ((a : A) → Q a → Returns P (f a))
    → Returns P (m >>= f)
Returns-chain Q P (ok a) f q h = h a q
Returns-chain Q P (failed e) f q h = tt

pub Returns-if {ℓ κ} :
    {A : Type ℓ} (P : A → Type κ) (b : Bool) (x y : Result A)
    → (b ≡ true → Returns P x)
    → (b ≡ false → Returns P y)
    → Returns P (if b then x else y)
Returns-if P true x y hx hy = hx refl
Returns-if P false x y hx hy = hy refl

pub Returns-ok {ℓ κ} :
    {A : Type ℓ} (P : A → Type κ) (m : Result A) {a : A} → Returns P m → m ≡ ok a → P a
Returns-ok P m h e = subst (Returns P) e h

pub data Verb : Type 0 where
  verb_get verb_post verb_delete verb_put : Verb

abbrev pub Headers : Type 0
Headers = List (String × String)

-- The steps of a connection. `set` is the request's `set` for a field of its header; `exchange`
-- writes a request and reads the body of the answer.
pub record Network : Type 1 where
  pub Endpoints : Type 0
  pub Stream : Type 0
  pub Fields : Type 0
  pub no_fields : Fields
  pub set : Fields → String → String → Fields
  pub set_host_name : String → Bool
  pub resolve : String → String → Result Endpoints
  pub connect : Endpoints → Result Stream
  pub handshake : Stream → Result Stream
  pub exchange : Stream → Verb → String → Fields → String → Result String

-- The loop over `headers`.
unfoldable pub set_all : (net : Network) → net.Fields → Headers → net.Fields
set_all net fields [] = fields
set_all net fields ((k, v) ∷ headers) = set_all net (net.set fields k v) headers

unfoldable pub first_fields : (net : Network) → String → net.Fields
first_fields net host = net.set (net.set net.no_fields "Host" host) "User-Agent" "TradeStation/1.0"

unfoldable pub https_request : Network → Verb → String → String → String → Headers → Result String
https_request net method host target body headers =
    if net.set_host_name host
    then net.resolve host "443" >>= (λ results. net.connect results >>= (λ stream.
      net.handshake stream >>= (λ secure.
        net.exchange secure method target (set_all net (first_fields net host) headers) body)))
    else failed "SNI failed"

unfoldable pub https_get : Network → String → String → Headers → Result String
https_get net host target headers = https_request net verb_get host target "" headers

unfoldable pub https_post : Network → String → String → String → Headers → Result String
https_post net host target body headers = https_request net verb_post host target body headers

unfoldable pub https_delete : Network → String → String → Headers → String → Result String
https_delete net host target headers body = https_request net verb_delete host target body headers

unfoldable pub https_put : Network → String → String → String → Headers → Result String
https_put net host target body headers = https_request net verb_put host target body headers

-- The character of a table of digits.
unfoldable pub char_at : String → ℕ → Char
char_at String.[] n = nul
char_at (String.◌∷◌ c s) zero = c
char_at (String.◌∷◌ c s) (suc n) = char_at s n

-- A byte under `std::hex << std::setw(2) << std::setfill('0')`.
unfoldable pub two_digits : String → ℕ → String
two_digits table n = String.◌∷◌ (char_at table (n / 16)) (String.◌∷◌ (char_at table (n % 16)) "")

abbrev pub lower_digits : String
lower_digits = "0123456789abcdef"

abbrev pub upper_digits : String
upper_digits = "0123456789ABCDEF"

unfoldable pub to_hex : List ℕ → String
to_hex [] = ""
to_hex (b ∷ bytes) = two_digits lower_digits b <> to_hex bytes

-- The digests of OpenSSL, as bytes.
pub record Digests : Type 0 where
  pub hmac_sha256 : String → String → List ℕ
  pub hmac_sha512 : String → String → List ℕ
  pub sha512 : String → List ℕ

unfoldable pub hmac_sha256_hex : Digests → String → String → String
hmac_sha256_hex digests key text = to_hex (digests.hmac_sha256 key text)

unfoldable pub hmac_sha512_hex : Digests → String → String → String
hmac_sha512_hex digests key text = to_hex (digests.hmac_sha512 key text)

unfoldable pub sha512_hex : Digests → String → String
sha512_hex digests text = to_hex (digests.sha512 text)

abbrev between : ℕ → ℕ → ℕ → Bool
between a b n = leb a n && leb n b

-- `std::isalnum(c) || c == '-' || c == '_' || c == '.' || c == '~'`
unfoldable pub is_plain : ℕ → Bool
is_plain n =
    between b'0' b'9' n
    || between b'A' b'Z' n
    || between b'a' b'z' n
    || (n == b'-')
    || (n == b'_')
    || (n == b'.')
    || (n == b'~')

-- A text is its bytes.
unfoldable pub url_encode : String → String
url_encode String.[] = ""
url_encode (String.◌∷◌ c s) =
    if is_plain (code c)
    then String.◌∷◌ c (url_encode s)
    else String.◌∷◌ "%" (two_digits upper_digits (code c) <> url_encode s)
