-- ===== src/Rest/Sample.antt =====
-- A client for concrete runs: natural numbers for doubles, a connection that gives one answer to every
-- request, and a document for every answer.
use trade_station.Common.{ℕ, zero, suc, true, false, none, String, [], ◌∷◌, ◌++◌}
use trade_station.Common.Int.{pos, negsuc}
use trade_station.Feed.Sample.{Value, reading, end_entries, entry}
use trade_station.Rest.{Network, Digests, Headers, ok}
use trade_station.Rest.Answers.{Client}

abbrev pub answering : String → Network
answering body = record {
  Endpoints = Unit;
  Stream = Unit;
  Fields = Headers;
  no_fields = [];
  set = λ fields k v. fields ++ ((k, v) ∷ []);
  set_host_name = λ host. true;
  resolve = λ host port. ok tt;
  connect = λ results. ok tt;
  handshake = λ stream. ok stream;
  exchange = λ stream method target fields sent. ok body;
}

abbrev pub digests : Digests
digests = record {
  hmac_sha256 = λ key text. 1 ∷ 254 ∷ [];
  hmac_sha512 = λ key text. 1 ∷ 254 ∷ [];
  sha512 = λ text. 171 ∷ [];
}

-- A number in strokes.
abbrev pub strokes : ℕ → String
strokes zero = ""
strokes (suc n) = String.◌∷◌ "1" (strokes n)

abbrev pub client : Value → Client ℕ
client document = record {
  json = reading document;
  is_object = λ j. elim j [ entry k v rest ↦ true | end_entries ↦ true | _ ↦ false ];
  is_null = λ j. elim j [ Value.null ↦ true | _ ↦ false ];
  dump = λ j. "null";
  to_long = λ j. none;
  to_int = λ j. none;
  parse_error = λ raw. "parse error";
  text_error = λ j. "type must be string";
  long_error = λ j. "type must be number";
  value_error = λ j. "cannot use value()";
  print = λ e. "{}";
  invalid = λ e. none;
  print_long = λ n. elim n [ pos k ↦ strokes k | negsuc k ↦ String.◌∷◌ "-" (strokes k) ];
  print_double = λ n. strokes n;
  print_fixed = λ n. strokes n;
  digests = digests;
  net = answering "{}";
}
