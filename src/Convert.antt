-- ===== src/Convert.antt =====
-- masp_primitives/src/convert.rs: allowed conversions, a sum with the generator that it stands for.
-- `none` is a panic. The note commitment stands in SaplingBuilder; the value commitment is not
-- modelled.
pub mod Codec
pub mod Additive
pub mod Truncated
pub mod Multiples
pub mod Worth
use masp.Base.{
  ℕ, suc, ◌+◌, ◌<◌, ◌%◌, ◌^◌, ◌≡◌, Bool, true, false, Option, none, some, List, [], ◌∷◌, ◌++◌,
}
use masp.Base.{if◌then◌else◌, length}
use masp.Base.Int.{ℤ, pos, negsuc}
use masp.Base.Bytes.{Bytes, read_array}
use masp.Base.Result.{Io, ok, err, ◌>>=◌, invalid_data}
use masp.Base.Encoding.{Encoding}
use masp.Words.{i128, checked}
use masp.AssetType.{AssetCrypto, hash_to_point}
use masp.AssetType.Bits.{bytes_ord}
use masp.Amount
use masp.Amount.{ValueSum, components, zero_sum}
use masp.Amount.Codec.{sixteen, write, read}

-- The group of `jubjub::ExtendedPoint`: an abelian group. `scale n p` is `p * Fr::from(n)`, the
-- n-fold sum; the code takes it of an `u64` only.
pub record Group (c : AssetCrypto) : Type 0 where
  pub identity : c.Point
  pub plus : c.Point → c.Point → c.Point
  pub negate : c.Point → c.Point
  pub scale : ℕ → c.Point → c.Point
  pub is_same : c.Point → c.Point → Bool
  pub to_bytes : c.Point → Bytes
  pub plus_comm : (p q : c.Point) → plus p q ≡ plus q p
  pub plus_assoc : (p q r : c.Point) → plus (plus p q) r ≡ plus p (plus q r)
  pub plus_identity : (p : c.Point) → plus p identity ≡ p
  pub plus_negate : (p : c.Point) → plus p (negate p) ≡ identity
  pub scale_zero : (p : c.Point) → scale 0 p ≡ identity
  pub scale_suc : (n : ℕ) (p : c.Point) → scale (suc n) p ≡ plus p (scale n p)
  pub same_refl : (p : c.Point) → is_same p p ≡ true
  pub eq_of_same : (p q : c.Point) → is_same p q ≡ true → p ≡ q
  pub length-to_bytes : (p : c.Point) → length (to_bytes p) ≡ 32
  pub from_bytes-to_bytes : (p : c.Point) → c.from_bytes (to_bytes p) ≡ some p

-- `struct AllowedConversion`
pub record AllowedConversion (c : AssetCrypto) : Type 0 where
  pub assets : ValueSum Bytes
  pub generator : c.Point

-- The absolute value, in the wider type.
abbrev pub magnitude : ℤ → ℕ
magnitude (pos n) = n
magnitude (negsuc n) = suc n

abbrev pub is_negative : ℤ → Bool
is_negative (pos n) = false
is_negative (negsuc n) = true

module _ (c : AssetCrypto) (g : Group c) where
  -- `asset.asset_generator() * jubjub::Fr::from(abs)`, negated for a negative value.
  unfoldable pub value_balance : Bytes → ℤ → Option c.Point
  unfolding checked hash_to_point
  value_balance asset value = elim (checked i128 (pos (magnitude value))) [
    | none ↦ none
    | some _ ↦
        let abs = magnitude value % 2 ^ 64 in
        elim (hash_to_point c asset) [
          | none ↦ none
          | some p ↦ some (if is_negative value then g.negate (g.scale abs p) else g.scale abs p)
        ]
  ]

  unfoldable pub generator_loop : c.Point → List (Bytes × ℤ) → Option c.Point
  generator_loop asset_generator [] = some asset_generator
  generator_loop asset_generator ((asset, value) ∷ rest) = elim (value_balance asset value) [
    | none ↦ none
    | some balance ↦ generator_loop (g.plus asset_generator balance) rest
  ]

  -- `AllowedConversion::from(I128Sum)`
  unfoldable pub from : ValueSum Bytes → Option (AllowedConversion c)
  unfolding components
  from assets = elim (generator_loop g.identity (components assets)) [
    | none ↦ none
    | some generator ↦ some (record { assets = assets; generator = generator })
  ]

  unfoldable pub add : AllowedConversion c → AllowedConversion c → Option (AllowedConversion c)
  add a b = elim (Amount.add i128 a.assets b.assets) [
    | none ↦ none
    | some assets ↦ some (record { assets = assets; generator = g.plus a.generator b.generator })
  ]

  unfoldable pub sub : AllowedConversion c → AllowedConversion c → Option (AllowedConversion c)
  sub a b = elim (Amount.sub i128 a.assets b.assets) [
    | none ↦ none
    | some assets ↦
        some (record { assets = assets; generator = g.plus a.generator (g.negate b.generator) })
  ]

  unfoldable pub sum_from :
      AllowedConversion c → List (AllowedConversion c) → Option (AllowedConversion c)
  sum_from acc [] = some acc
  sum_from acc (x ∷ xs) = elim (add acc x) [ none ↦ none | some acc' ↦ sum_from acc' xs ]

  unfoldable pub sum : List (AllowedConversion c) → Option (AllowedConversion c)
  sum xs = elim (from zero_sum) [ none ↦ none | some zero ↦ sum_from zero xs ]

  unfoldable pub serialize : Encoding → AllowedConversion c → Bytes
  serialize enc a = write enc sixteen a.assets ++ g.to_bytes a.generator

  -- The part of `deserialize_reader` behind the assets.
  unfoldable pub check_generator :
      ValueSum Bytes → Bytes → Option (Io (AllowedConversion c × Bytes))
  check_generator assets src = elim (read_array 32 src) [
    | err e ↦ some (err e)
    | ok (gen_bytes, rest) ↦ elim (c.from_bytes gen_bytes) [
      | none ↦ some (err invalid_data)
      | some generator ↦ elim (from assets) [
        | none ↦ none
        | some allowed_conversion ↦ some (
            if g.is_same allowed_conversion.generator generator
            then ok (record { assets = assets; generator = generator }, rest)
            else err invalid_data)
      ]
    ]
  ]

  unfoldable pub deserialize : Encoding → Bytes → Option (Io (AllowedConversion c × Bytes))
  deserialize enc src = elim (read enc c sixteen src) [
    | none ↦ none
    | some (err e) ↦ some (err e)
    | some (ok (assets, rest)) ↦ check_generator assets rest
  ]
