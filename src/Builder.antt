-- ===== src/Builder.antt =====
-- masp_primitives/src/transaction/builder.rs and fees/fixed.rs: the builder of a transaction out of
-- the transparent and the shielded one, and the check that it balances. `none` is a panic. The
-- channel for progress reports is not modelled.
pub mod Balance
use masp.Base.{ℕ, ◌-◌, ◌^◌, true, false, Option, none, some, List, [], ◌∷◌, if◌then◌else◌, ltb}
use masp.Base.Int.{ℤ, pos}
use masp.Base.Bytes.{Bytes}
use masp.Base.Maybe.{◌>>=◌}
use masp.Base.Result.{Result, ok, err}
use masp.Words.{i128}
use masp.AssetType.Bits.{bytes_ord}
use masp.Amount
use masp.Amount.{ValueSum, from_sum, is_zero}
use masp.Consensus.{BlockHeight}
use masp.Consensus
use masp.Convert.{AllowedConversion}
use masp.Memo.{MemoBytes}
use masp.Merkle.Hash.{Hashable}
use masp.Merkle.Path.{MerklePath}
use masp.Sapling.{SaplingCrypto, PaymentAddress, Note}
use masp.SaplingBuilder
use masp.SaplingBuilder.{ScalarField, SaplingBuilder, Outcome}
use masp.Transparent
use masp.Transparent.{max_money, TxOut, TransparentBuilder, builder_balance}

abbrev pub default_tx_expiry_delta : ℕ
default_tx_expiry_delta = 20

pub data Error (FeeError : Type 0) : Type 0 where
  insufficient_funds : ValueSum Bytes → Error FeeError
  change_required : ValueSum Bytes → Error FeeError
  fee : FeeError → Error FeeError
  balance : Error FeeError
  transparent_build : Transparent.Error → Error FeeError
  sapling_build : SaplingBuilder.Error → Error FeeError

pub record Builder (c : SaplingCrypto) (P Key : Type 0) : Type 0 where
  pub params : P
  pub target_height : BlockHeight
  pub expiry_height : BlockHeight
  pub transparent_builder : TransparentBuilder
  pub sapling_builder : SaplingBuilder c P Key

-- `fixed::FeeRule`
pub record FeeRule : Type 0 where
  pub fixed_fee : ValueSum Bytes

unfoldable pub fee_required : FeeRule → ValueSum Bytes
fee_required rule = rule.fixed_fee

module _ (c : SaplingCrypto) {P Key : Type 0} where
  -- `none` where the expiry height does not fit in 32 bits.
  unfoldable pub new : P → BlockHeight → Option (Builder c P Key)
  unfolding SaplingBuilder.new Transparent.empty
  new params target_height = do
    expiry_height ← Consensus.add target_height default_tx_expiry_delta
    some (record {
      params = params;
      target_height = target_height;
      expiry_height = expiry_height;
      transparent_builder = Transparent.empty;
      sapling_builder = SaplingBuilder.new c params target_height;
    })

  -- Puts the shielded builder that a method leaves in its place.
  unfoldable pub delegate :
      Builder c P Key
      → Outcome c P Key
      → Option (Result SaplingBuilder.Error (Unit {0}) × Builder c P Key)
  delegate b none = none
  delegate b (some (r, sapling_builder)) = some (r, record b { sapling_builder = sapling_builder })

  unfoldable pub add_sapling_output :
      Builder c P Key
      → Option Bytes
      → PaymentAddress c
      → Bytes
      → ℕ
      → MemoBytes
      → Option (Result SaplingBuilder.Error (Unit {0}) × Builder c P Key)
  unfolding delegate
  add_sapling_output b ovk to asset_type value memo =
      if ltb max_money value
      then some (err SaplingBuilder.invalid_amount, b)
      else delegate b (SaplingBuilder.add_output c b.sapling_builder ovk to asset_type value memo)

  unfoldable pub add_transparent_input :
      Builder c P Key → TxOut → Result Transparent.Error (Builder c P Key)
  unfolding Transparent.add_input
  add_transparent_input b coin = elim (Transparent.add_input b.transparent_builder coin) [
    | err e ↦ err e
    | ok t ↦ ok (record b { transparent_builder = t })
  ]

  unfoldable pub add_transparent_output :
      Builder c P Key → Bytes → Bytes → ℕ → Result Transparent.Error (Builder c P Key)
  unfolding Transparent.add_output
  add_transparent_output b to asset_type value =
      if ltb max_money value
      then err Transparent.invalid_amount
      else (elim (Transparent.add_output b.transparent_builder to asset_type value) [
        | err e ↦ err e
        | ok t ↦ ok (record b { transparent_builder = t })
      ])

  unfoldable pub value_balance : Builder c P Key → Option (ValueSum Bytes)
  value_balance b = do
    transparent ← builder_balance b.transparent_builder
    Amount.sum i128 (transparent ∷ b.sapling_builder.value_balance ∷ [])

  -- The consistency check of `build_internal`.
  unfoldable pub check_balance :
      {FeeError : Type 0}
      → Builder c P Key
      → ValueSum Bytes
      → Option (Result (Error FeeError) (Unit {0}))
  unfolding value_balance is_zero
  check_balance b required = do
    total ← value_balance b
    subtracted ← from_sum required
    balance_after_fees ← Amount.sub i128 total subtracted
    elim (is_zero balance_after_fees) [
      | true ↦ some (ok tt)
      | false ↦ do
        shortfall ← Amount.neg i128 balance_after_fees
        some (err (insufficient_funds shortfall))
    ]

module _ (c : SaplingCrypto) (F : ScalarField c) (H : Hashable Bytes) {P Key : Type 0} where
  unfoldable pub add_sapling_spend :
      Builder c P Key
      → Key
      → Bytes
      → Note c
      → MerklePath Bytes
      → Option (Result SaplingBuilder.Error (Unit {0}) × Builder c P Key)
  unfolding delegate
  add_sapling_spend b extsk diversifier note merkle_path =
      delegate c b
        (SaplingBuilder.add_spend c F H b.sapling_builder extsk diversifier note merkle_path)

  unfoldable pub add_sapling_convert :
      Builder c P Key
      → AllowedConversion c.assets
      → ℕ
      → MerklePath Bytes
      → Option (Result SaplingBuilder.Error (Unit {0}) × Builder c P Key)
  unfolding delegate
  add_sapling_convert b allowed value merkle_path =
      delegate c b (SaplingBuilder.add_convert c F H b.sapling_builder allowed value merkle_path)
