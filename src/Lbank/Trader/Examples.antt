-- ===== src/Lbank/Trader/Examples.antt =====
-- A request to LBank whose values have the separators of a form.
use trade_station.Common.{◌≡◌, some, [], ◌∷◌, arith}
use trade_station.Text.Dictionary.{Dictionary}
use trade_station.Rest.Sample.{digests}
use trade_station.Lbank.Trader.{lbank_signed_body, with_key, with_sign}
use trade_station.Lbank.Trader.Form.{read_form, pair_bytes, read_form-lbank_signed_body}

abbrev params : Dictionary
params = ("orderId", "7&symbol=eth_btc") ∷ ("symbol", "btc_usdt") ∷ []

read_form-lbank_signed_body_example :
    read_form (lbank_signed_body digests "k=1" "s" params)
    ≡ some (pair_bytes (with_sign digests "s" (with_key "k=1" params)))
read_form-lbank_signed_body_example =
    read_form-lbank_signed_body digests "k=1" "s" params (ground arith) (ground arith)
