-- ===== src/Transparent.antt =====
-- masp_primitives/src/transaction/components/transparent.rs and its builder: inputs and outputs of
-- the transparent pool, with the feature `transparent-inputs`. An asset type is its identifier.
pub mod Balance
pub mod RoundTrip
use masp.Base.{ℕ, ◌-◌, ◌^◌, Bool, Option, none, some, List, [], ◌∷◌, ◌++◌, map}
use masp.Base.{if◌then◌else◌, leb, ltb}
use masp.Base.Int.{pos}
use masp.Base.Bytes.{Bytes, to_le_bytes, from_le_bytes, read_exact}
use masp.Base.Result.{Result, Io, ok, err, ◌>>=◌, ◌>>◌, guard, invalid_data}
use masp.Words.{i128}
use masp.AssetType
use masp.AssetType.{AssetCrypto}
use masp.AssetType.Bits.{bytes_ord}
use masp.Amount
use masp.Amount.{ValueSum, from_pair}

abbrev pub max_money : ℕ
max_money = 2 ^ 64 - 1

pub record TxOut : Type 0 where
  pub asset_type : Bytes
  pub value : ℕ
  pub address : Bytes

-- An input whose signature is the unit.
pub record TxIn : Type 0 where
  pub asset_type : Bytes
  pub value : ℕ
  pub address : Bytes

unfoldable pub write_out : TxOut → Bytes
write_out out = out.asset_type ++ (to_le_bytes 8 out.value ++ out.address)

unfoldable pub read_out : AssetCrypto → Bytes → Io (TxOut × Bytes)
read_out c src = do
  (asset_type, rest) ← AssetType.read c src
  (tmp, rest') ← read_exact 8 rest
  let value = from_le_bytes tmp
  guard (leb value max_money) invalid_data
  (address, rest'') ← read_exact 20 rest'
  ok (record { asset_type = asset_type.identifier; value = value; address = address }, rest'')

unfoldable pub write_in : TxIn → Bytes
write_in input = input.asset_type ++ (to_le_bytes 8 input.value ++ input.address)

unfoldable pub read_in : AssetCrypto → Bytes → Io (TxIn × Bytes)
read_in c src = do
  (asset_type, rest) ← AssetType.read c src
  (tmp, rest') ← read_exact 8 rest
  let value = from_le_bytes tmp
  guard (leb value max_money) invalid_data
  (address, rest'') ← read_exact 20 rest'
  ok (record { asset_type = asset_type.identifier; value = value; address = address }, rest'')

-- `authorization` is left out.
pub record Bundle : Type 0 where
  pub vin : List TxIn
  pub vout : List TxOut

-- The difference of two sums of single amounts; `none` is the panic of an overflow.
unfoldable pub balance : List (ValueSum Bytes) → List (ValueSum Bytes) → Option (ValueSum Bytes)
balance inputs outputs = elim (Amount.sum i128 inputs) [
  | none ↦ none
  | some input_sum ↦ elim (Amount.sum i128 outputs) [
    | none ↦ none
    | some output_sum ↦ Amount.sub i128 input_sum output_sum
  ]
]

unfoldable pub value_balance : Bundle → Option (ValueSum Bytes)
unfolding balance
value_balance b =
    balance (map (λ p. from_pair p.asset_type (pos p.value)) b.vin)
      (map (λ p. from_pair p.asset_type (pos p.value)) b.vout)

pub record TransparentBuilder : Type 0 where
  pub inputs : List TxOut
  pub vout : List TxOut

pub data Error : Type 0 where
  invalid_address invalid_amount invalid_asset : Error

unfoldable pub empty : TransparentBuilder
empty = record { inputs = []; vout = [] }

unfoldable pub add_input : TransparentBuilder → TxOut → Result Error TransparentBuilder
add_input b coin = ok (record b { inputs = b.inputs ++ coin ∷ [] })

unfoldable pub add_output : TransparentBuilder → Bytes → Bytes → ℕ → Result Error TransparentBuilder
add_output b to asset_type value =
    if ltb max_money value
    then err invalid_amount
    else ok (record b {
      vout = b.vout ++ record { asset_type = asset_type; value = value; address = to } ∷ [];
    })

unfoldable pub builder_balance : TransparentBuilder → Option (ValueSum Bytes)
unfolding balance
builder_balance b =
    balance (map (λ c. from_pair c.asset_type (pos c.value)) b.inputs)
      (map (λ c. from_pair c.asset_type (pos c.value)) b.vout)

unfoldable pub to_input : TxOut → TxIn
to_input coin = record { asset_type = coin.asset_type; value = coin.value; address = coin.address }

unfoldable pub build : TransparentBuilder → Option Bundle
build b = elim b.inputs [
  | _ ∷ _ ↦ some (record { vin = map to_input b.inputs; vout = b.vout })
  | [] ↦ elim b.vout [
    | _ ∷ _ ↦ some (record { vin = map to_input b.inputs; vout = b.vout })
    | [] ↦ none
  ]
]
