-- ===== src/Examples/Coins.antt =====
-- Transparent inputs and outputs of two assets.
use masp.Base.{◌^◌, ◌≡◌, refl, none, some, [], ◌∷◌, ◌++◌, map, arith}
use masp.Base.{replicate}
use masp.Base.Int.{pos, ◌-ℤ◌}
use masp.Base.Bytes.{Bytes}
use masp.Base.Result.{ok, err}
use masp.Words.{i128}
use masp.AssetType.Bits.{bytes_ord}
use masp.Amount.{ValueSum, get}
use masp.Amount.Valid.{IsValid}
use masp.Transparent.{
  TxOut, Bundle, TransparentBuilder, invalid_amount, empty, add_input, add_output, value_balance,
  builder_balance, to_input, build, write_out, read_out,
}
use masp.Transparent.Balance.{
  held, coin_of_in, coin_of_out, value_balance_lem, build-builder_balance,
}
use masp.Transparent.RoundTrip.{read_out-write_out}
use masp.Examples.Conversions.{two, gold, wood, gold_point}

abbrev payee : Bytes
payee = replicate 20 7

abbrev coin : TxOut
coin = record { asset_type = gold; value = 5; address = payee }

abbrev change : TxOut
change = record { asset_type = gold; value = 2; address = payee }

abbrev ready : TransparentBuilder
ready = record { inputs = coin ∷ []; vout = change ∷ [] }

abbrev bundle : Bundle
bundle = record {
  vin = record { asset_type = gold; value = 5; address = payee } ∷ [];
  vout = change ∷ [];
}

input_added : add_input empty coin ≡ ok (record { inputs = coin ∷ []; vout = [] })
unfolding add_input empty
input_added = refl

output_added : add_output (record { inputs = coin ∷ []; vout = [] }) payee gold 2 ≡ ok ready
unfolding add_output
output_added = refl

output_refused : add_output empty payee wood (2 ^ 64) ≡ err invalid_amount
unfolding add_output
output_refused = refl

nothing_built : build empty ≡ none
unfolding build empty
nothing_built = refl

ready_builds : build ready ≡ some bundle
unfolding build to_input
ready_builds = refl

build-builder_balance_example : value_balance bundle ≡ builder_balance ready
build-builder_balance_example = build-builder_balance ready bundle ready_builds

value_balance_lem_example :
    (s : ValueSum Bytes) × (value_balance bundle ≡ some s)
    × IsValid i128 s
    × ((k : Bytes)
        → get s k
          ≡ pos (held (map coin_of_in bundle.vin) k) -ℤ pos (held (map coin_of_out bundle.vout) k))
value_balance_lem_example =
    value_balance_lem bundle (omega arith, tt) (omega arith, tt) (omega arith) (omega arith)

read_out-write_out_example : read_out two (write_out coin ++ 9 ∷ []) ≡ ok (coin, 9 ∷ [])
read_out-write_out_example =
    read_out-write_out two coin (9 ∷ []) (refl, λ n. cc (n, gold_point)) (omega arith) refl
