-- ===== src/Sapling.antt =====
-- masp_primitives/src/sapling.rs and sapling/group_hash.rs: addresses, notes and viewing keys. The
-- curve, the field and the hashes are other crates, and `SaplingCrypto` is what the code takes of
-- them. The Pedersen hash of sapling/pedersen_hash.rs is a field of it. An asset type of a note is
-- its identifier. `none` stands for a panic where the Rust function returns a plain value.
pub mod Codec
pub mod Domain
use masp.Base.{
  ℕ, zero, suc, ◌+◌, ◌%◌, ◌/◌, ◌^◌, ◌≡◌, ◌↔◌, Bool, true, false, Option, none, some, List, [], ◌∷◌,
  ◌++◌,
}
use masp.Base.{if◌then◌else◌, length, take, drop, ◌==◌}
use masp.Base.Bytes.{Bytes, to_le_bytes}
use masp.Base.Maybe.{◌>>=◌}
use masp.AssetType.{AssetCrypto, gh_first_block, hash_to_point, bits_of}

-- `constants::KEY_DIVERSIFICATION_PERSONALIZATION`
abbrev pub key_diversification_personalization : Bytes
key_diversification_personalization = b'M' ∷ b'A' ∷ b'S' ∷ b'P' ∷ b'_' ∷ b'_' ∷ b'g' ∷ b'd' ∷ []

-- `constants::CRH_IVK_PERSONALIZATION`
abbrev pub crh_ivk_personalization : Bytes
crh_ivk_personalization = b'M' ∷ b'A' ∷ b'S' ∷ b'P' ∷ b'_' ∷ b'i' ∷ b'v' ∷ b'k' ∷ []

-- `keys::PRF_EXPAND_PERSONALIZATION`
abbrev pub prf_expand_personalization : Bytes
prf_expand_personalization =
    b'M' ∷ b'A' ∷ b'S' ∷ b'P' ∷ b'_' ∷ b'_' ∷ b'E' ∷ b'x' ∷ b'p' ∷ b'a' ∷ b'n' ∷ b'd' ∷ b'S' ∷ b'e'
    ∷ b'e' ∷ b'd' ∷ []

-- `jubjub::SubgroupPoint` is `Point`, `jubjub::ExtendedPoint` the points of the asset types,
-- `jubjub::Fr` is `Scalar` and `bls12_381::Scalar` is `Coordinate`.
pub record SaplingCrypto : Type 1 where
  pub assets : AssetCrypto
  pub Point : Type 0
  pub Scalar : Type 0
  pub Coordinate : Type 0
  -- The length, the personalization and what is hashed.
  pub blake2b : ℕ → Bytes → Bytes → Bytes
  pub extend : Point → assets.Point
  pub clear_cofactor : assets.Point → Point
  pub plus : Point → Point → Point
  pub mul : Point → Scalar → Point
  pub mul_extended : assets.Point → Scalar → assets.Point
  pub is_identity : Point → Bool
  pub to_bytes : Point → Bytes
  pub from_bytes : Bytes → Option Point
  pub extended_bytes : assets.Point → Bytes
  pub to_repr : Scalar → Bytes
  pub from_repr : Bytes → Option Scalar
  pub from_bytes_wide : Bytes → Scalar
  pub scalar_eq : Scalar → Scalar → Bool
  pub u_coordinate : assets.Point → Coordinate
  pub coordinate_bytes : Coordinate → Bytes
  -- The hash with the personalization of a note commitment.
  pub pedersen_hash : List Bool → Point
  pub commitment_randomness_generator : Point
  pub length-to_bytes : (p : Point) → length (to_bytes p) ≡ 32
  pub from_bytes-to_bytes : (p : Point) → from_bytes (to_bytes p) ≡ some p
  pub length-extended_bytes : (p : assets.Point) → length (extended_bytes p) ≡ 32
  pub from_extended_bytes : (p : assets.Point) → assets.from_bytes (extended_bytes p) ≡ some p
  pub extended_bytes-extend : (p : Point) → extended_bytes (extend p) ≡ to_bytes p
  pub length-to_repr : (s : Scalar) → length (to_repr s) ≡ 32
  pub from_repr-to_repr : (s : Scalar) → from_repr (to_repr s) ≡ some s
  pub scalar_eq_iff : (a b : Scalar) → (scalar_eq a b ≡ true) ↔ (a ≡ b)
  pub mul_extended-extend : (p : Point) (s : Scalar) → mul_extended (extend p) s ≡ extend (mul p s)
  pub mul_comm : (p : Point) (a b : Scalar) → mul (mul p a) b ≡ mul (mul p b) a

module _ (c : SaplingCrypto) where
  unfoldable pub group_hash : Bytes → Bytes → Option c.Point
  group_hash tag personalization =
      elim (c.assets.from_bytes (c.assets.blake2s personalization (gh_first_block ++ tag))) [
        | none ↦ none
        | some q ↦ let p = c.clear_cofactor q in if c.is_identity p then none else some p
      ]

  -- `Diversifier::g_d`
  unfoldable pub g_d : Bytes → Option c.Point
  unfolding group_hash
  g_d diversifier = group_hash diversifier key_diversification_personalization

  -- `keys::prf_expand`
  unfoldable pub prf_expand : Bytes → Bytes → Bytes
  prf_expand sk t = c.blake2b 64 prf_expand_personalization (sk ++ t)

pub record PaymentAddress (c : SaplingCrypto) : Type 0 where
  pub pk_d : c.Point
  pub diversifier : Bytes

pub data Rseed (c : SaplingCrypto) : Type 0 where
  before_zip212 : c.Scalar → Rseed c
  after_zip212 : Bytes → Rseed c

pub record Note (c : SaplingCrypto) : Type 0 where
  pub asset_type : Bytes
  pub value : ℕ
  pub g_d : c.Point
  pub pk_d : c.Point
  pub rseed : Rseed c

module _ (c : SaplingCrypto) where
  unfoldable pub from_parts : Bytes → c.Point → Option (PaymentAddress c)
  from_parts diversifier pk_d =
      if c.is_identity pk_d then none else some (record { pk_d = pk_d; diversifier = diversifier })

  unfoldable pub create_note : PaymentAddress c → Bytes → ℕ → Rseed c → Option (Note c)
  unfolding g_d
  create_note to asset_type value rseed = do
    g ← g_d c to.diversifier
    some (record { asset_type = asset_type; value = value; g_d = g; pk_d = to.pk_d; rseed = rseed })

  -- `SaplingIvk::to_payment_address`
  unfoldable pub to_payment_address : c.Scalar → Bytes → Option (PaymentAddress c)
  unfolding g_d from_parts
  to_payment_address ivk diversifier = do
    g ← g_d c diversifier
    from_parts diversifier (c.mul g ivk)

  -- The scalar of an `Rseed`, for the note commitment.
  unfoldable pub rseed_rcm : Rseed c → c.Scalar
  unfolding prf_expand
  rseed_rcm (before_zip212 rcm) = rcm
  rseed_rcm (after_zip212 rseed) = c.from_bytes_wide (prf_expand c rseed (4 ∷ []))

  unfoldable pub rcm : Note c → c.Scalar
  unfolding rseed_rcm
  rcm note = rseed_rcm note.rseed

  unfoldable pub rseed_esk : Rseed c → Option c.Scalar
  unfolding prf_expand
  rseed_esk (before_zip212 rcm) = none
  rseed_esk (after_zip212 rseed) = some (c.from_bytes_wide (prf_expand c rseed (5 ∷ [])))

  unfoldable pub derive_esk : Note c → Option c.Scalar
  unfolding rseed_esk
  derive_esk note = rseed_esk note.rseed

  -- `none` is the panic of `asset_generator`, on an identifier that is no asset type.
  unfoldable pub cm_full_point : Note c → Option c.Point
  unfolding rcm
  cm_full_point note = do
    generator ← hash_to_point c.assets note.asset_type
    let note_contents =
        c.extended_bytes generator
        ++ (to_le_bytes 8 note.value ++ (c.to_bytes note.g_d ++ c.to_bytes note.pk_d))
    let hash_of_contents = c.pedersen_hash (bits_of note_contents)
    some (c.plus (c.mul c.commitment_randomness_generator (rcm note)) hash_of_contents)

  unfoldable pub cmu : Note c → Option c.Coordinate
  unfolding cm_full_point
  cmu note = do p ← cm_full_point note; some (c.u_coordinate (c.extend p))
