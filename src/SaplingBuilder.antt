-- ===== src/SaplingBuilder.antt =====
-- masp_primitives/src/transaction/components/sapling/builder.rs: what `SaplingBuilder` collects
-- before a transaction is built. `none` is a panic. A method on `&mut self` returns the builder
-- that it leaves. A node is its bytes, and its hash is a parameter.
pub mod Totals
pub mod Cases
pub mod Invariant
pub mod Consistent
pub mod Accepts
pub mod Params
pub mod Build
use masp.Base.{
  ℕ, ◌-◌, ◌^◌, ◌≡◌, ◌↔◌, Bool, true, Option, none, some, List, [], ◌∷◌, ◌++◌, if◌then◌else◌, ltb,
}
use masp.Base.Int.{ℤ, pos}
use masp.Base.Bytes.{Bytes}
use masp.Base.Maybe.{◌>>=◌}
use masp.Base.Result.{Result, ok, err}
use masp.Words.{i128}
use masp.AssetType.{bits_of}
use masp.AssetType.Bits.{bytes_ord}
use masp.Amount
use masp.Amount.{ValueSum, from_pair, from_sum, zero_sum}
use masp.Consensus.{BlockHeight}
use masp.Convert.{AllowedConversion}
use masp.Memo.{MemoBytes}
use masp.Merkle.Hash.{Hashable}
use masp.Merkle.Path
use masp.Merkle.Path.{MerklePath}
use masp.Transparent.{max_money}
use masp.Sapling.{SaplingCrypto, PaymentAddress, Note, g_d, cmu}

pub data Error : Type 0 where
  anchor_mismatch binding_sig invalid_address invalid_amount spend_proof convert_proof : Error

-- The parsing and the equality of `bls12_381::Scalar`.
pub record ScalarField (c : SaplingCrypto) : Type 0 where
  pub from_repr : Bytes → Option c.Coordinate
  pub is_same : c.Coordinate → c.Coordinate → Bool
  pub is_same_iff : (a b : c.Coordinate) → (is_same a b ≡ true) ↔ (a ≡ b)

pub record SpendDescriptionInfo (c : SaplingCrypto) (Key : Type 0) : Type 0 where
  pub extsk : Key
  pub diversifier : Bytes
  pub note : Note c
  pub merkle_path : MerklePath Bytes

pub record ConvertDescriptionInfo (c : SaplingCrypto) : Type 0 where
  pub allowed : AllowedConversion c.assets
  pub value : ℕ
  pub merkle_path : MerklePath Bytes

-- `Note<()>`: a note that has no seed yet.
pub record SeedlessNote (c : SaplingCrypto) : Type 0 where
  pub asset_type : Bytes
  pub value : ℕ
  pub g_d : c.Point
  pub pk_d : c.Point

pub record SaplingOutputInfo (c : SaplingCrypto) : Type 0 where
  pub ovk : Option Bytes
  pub to : PaymentAddress c
  pub note : SeedlessNote c
  pub memo : MemoBytes

pub record SaplingBuilder (c : SaplingCrypto) (P Key : Type 0) : Type 0 where
  pub params : P
  pub spend_anchor : Option c.Coordinate
  pub target_height : BlockHeight
  pub value_balance : ValueSum Bytes
  pub convert_anchor : Option c.Coordinate
  pub spends : List (SpendDescriptionInfo c Key)
  pub converts : List (ConvertDescriptionInfo c)
  pub outputs : List (SaplingOutputInfo c)

module _ (c : SaplingCrypto) where
  -- `AllowedConversion::cmu`
  unfoldable pub convert_cmu : AllowedConversion c.assets → c.Coordinate
  convert_cmu allowed =
      c.u_coordinate (c.extend (c.pedersen_hash (bits_of (c.extended_bytes allowed.generator))))

  -- `SaplingOutputInfo::new_internal`
  unfoldable pub new_internal :
      Option Bytes → PaymentAddress c → Bytes → ℕ → MemoBytes → Result Error (SaplingOutputInfo c)
  unfolding g_d
  new_internal ovk to asset_type value memo = elim (g_d c to.diversifier) [
    | none ↦ err invalid_address
    | some g ↦
        if ltb max_money value
        then err invalid_amount
        else ok (record {
          ovk = ovk;
          to = to;
          note = record { asset_type = asset_type; value = value; g_d = g; pk_d = to.pk_d };
          memo = memo;
        })
  ]

module _ (c : SaplingCrypto) (F : ScalarField c) (H : Hashable Bytes) where
  -- `merkle_path.root(node).into()`, for a node made of a commitment; `none` where the root is not
  -- in the field.
  unfoldable pub root_of : MerklePath Bytes → c.Coordinate → Option c.Coordinate
  unfolding Path.root
  root_of path commitment = F.from_repr (Path.root H path (c.coordinate_bytes commitment))

module _ (c : SaplingCrypto) (F : ScalarField c) where
  -- The consistency check of `add_spend` and `add_convert`: the anchor from now on.
  unfoldable pub agree : Option c.Coordinate → c.Coordinate → Result Error c.Coordinate
  agree none path_root = ok path_root
  agree (some anchor) path_root =
      if F.is_same path_root anchor then ok anchor else err anchor_mismatch

-- What a method returns, and the builder after it.
abbrev pub Outcome : SaplingCrypto → Type 0 → Type 0 → Type 0
Outcome c P Key = Option (Result Error (Unit {0}) × SaplingBuilder c P Key)

module _ (c : SaplingCrypto) {P Key : Type 0} where
  unfoldable pub new : P → BlockHeight → SaplingBuilder c P Key
  unfolding zero_sum
  new params target_height = record {
    params = params;
    spend_anchor = none;
    target_height = target_height;
    value_balance = zero_sum;
    convert_anchor = none;
    spends = [];
    converts = [];
    outputs = [];
  }

  unfoldable pub add_output :
      SaplingBuilder c P Key
      → Option Bytes
      → PaymentAddress c
      → Bytes
      → ℕ
      → MemoBytes
      → Outcome c P Key
  unfolding new_internal
  add_output b ovk to asset_type value memo = elim (new_internal c ovk to asset_type value memo) [
    | err e ↦ some (err e, b)
    | ok output ↦ do
      value_balance ← Amount.sub i128 b.value_balance (from_pair asset_type (pos value))
      some (ok tt, record b { value_balance = value_balance; outputs = b.outputs ++ output ∷ [] })
  ]

module _ (c : SaplingCrypto) (F : ScalarField c) (H : Hashable Bytes) {P Key : Type 0} where
  unfoldable pub add_spend :
      SaplingBuilder c P Key → Key → Bytes → Note c → MerklePath Bytes → Outcome c P Key
  unfolding cmu root_of agree
  add_spend b extsk diversifier note merkle_path = do
    node ← cmu c note
    path_root ← root_of c F H merkle_path node
    elim (agree c F b.spend_anchor path_root) [
      | err e ↦ some (err e, b)
      | ok anchor ↦ do
        value_balance ← Amount.add i128 b.value_balance (from_pair note.asset_type (pos note.value))
        let spend : SpendDescriptionInfo c Key = record {
          extsk = extsk;
          diversifier = diversifier;
          note = note;
          merkle_path = merkle_path;
        }
        some (
          ok tt,
          record b {
            spend_anchor = some anchor;
            value_balance = value_balance;
            spends = b.spends ++ spend ∷ [];
          },
        )
    ]

  unfoldable pub add_convert :
      SaplingBuilder c P Key → AllowedConversion c.assets → ℕ → MerklePath Bytes → Outcome c P Key
  unfolding convert_cmu root_of agree
  add_convert b allowed value merkle_path = do
    path_root ← root_of c F H merkle_path (convert_cmu c allowed)
    elim (agree c F b.convert_anchor path_root) [
      | err e ↦ some (err e, b)
      | ok anchor ↦ do
        allowed_amt ← from_sum allowed.assets
        product ← Amount.mul i128 allowed_amt (pos value)
        value_balance ← Amount.add i128 b.value_balance product
        let convert : ConvertDescriptionInfo c = record {
          allowed = allowed;
          value = value;
          merkle_path = merkle_path;
        }
        some (
          ok tt,
          record b {
            convert_anchor = some anchor;
            value_balance = value_balance;
            converts = b.converts ++ convert ∷ [];
          },
        )
    ]
