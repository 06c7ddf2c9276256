-- ===== src/AssetType.antt =====
-- masp_primitives/src/asset_type.rs: asset types, their identifiers and their generators.
-- BLAKE2s and the Jubjub curve are other crates: `AssetCrypto` is what the code takes of them.
pub mod Derive
pub mod Bits
use Prim.Native.Nat.{compare, Ordering}
use Prim.Native.Nat.Ordering.{lt, eq, gt}
use masp.Base.{ℕ, zero, suc, ◌+◌, ◌/◌, ◌%◌, ◌^◌, ◌<◌, ◌≡◌, Bool, true, false, Option, none, some}
use masp.Base.{List, [], ◌∷◌, ◌++◌, if◌then◌else◌, length, ltb, ◌==◌}
use masp.Base.Bytes.{Bytes, read_exact}
use masp.Base.Result.{Result, ok, err, Io, ◌>>=◌, invalid_data}

-- `constants::ASSET_IDENTIFIER_LENGTH`
abbrev pub identifier_length : ℕ
identifier_length = 32

-- `constants::GH_FIRST_BLOCK`
abbrev pub gh_first_block : Bytes
gh_first_block =
    b'0' ∷ b'9' ∷ b'6' ∷ b'b' ∷ b'3' ∷ b'6' ∷ b'a' ∷ b'5' ∷ b'8' ∷ b'0' ∷ b'4' ∷ b'b' ∷ b'f' ∷ b'a'
    ∷ b'c' ∷ b'e' ∷ b'f' ∷ b'1' ∷ b'6' ∷ b'9' ∷ b'1' ∷ b'e' ∷ b'1' ∷ b'7' ∷ b'3' ∷ b'c' ∷ b'3'
    ∷ b'6' ∷ b'6' ∷ b'a' ∷ b'4' ∷ b'7' ∷ b'f' ∷ b'f' ∷ b'5' ∷ b'b' ∷ b'a' ∷ b'8' ∷ b'4' ∷ b'a'
    ∷ b'4' ∷ b'4' ∷ b'f' ∷ b'2' ∷ b'6' ∷ b'd' ∷ b'd' ∷ b'd' ∷ b'7' ∷ b'e' ∷ b'8' ∷ b'd' ∷ b'9'
    ∷ b'f' ∷ b'7' ∷ b'9' ∷ b'd' ∷ b'5' ∷ b'b' ∷ b'4' ∷ b'2' ∷ b'd' ∷ b'f' ∷ b'0' ∷ []

-- `constants::ASSET_IDENTIFIER_PERSONALIZATION`
abbrev pub asset_identifier_personalization : Bytes
asset_identifier_personalization = b'M' ∷ b'A' ∷ b'S' ∷ b'P' ∷ b'_' ∷ b'_' ∷ b't' ∷ b'_' ∷ []

-- `constants::VALUE_COMMITMENT_GENERATOR_PERSONALIZATION`
abbrev pub value_commitment_generator_personalization : Bytes
value_commitment_generator_personalization =
    b'M' ∷ b'A' ∷ b'S' ∷ b'P' ∷ b'_' ∷ b'_' ∷ b'v' ∷ b'_' ∷ []

-- `blake2s_simd` with a hash length of 32, and `jubjub::ExtendedPoint`.
pub record AssetCrypto : Type 1 where
  pub Point : Type 0
  -- The personalization, then the concatenation of what `update` was given.
  pub blake2s : Bytes → Bytes → Bytes
  pub from_bytes : Bytes → Option Point
  pub clear_cofactor : Point → Point
  pub is_identity : Point → Bool
  -- A hash is as long as was asked.
  pub length-blake2s : (p m : Bytes) → length (blake2s p m) ≡ 32

-- `struct AssetType`
pub record AssetType : Type 0 where
  pub identifier : Bytes
  pub nonce : Option ℕ

-- `[u8]::cmp`: lexicographic.
unfoldable pub cmp_bytes : Bytes → Bytes → Ordering
cmp_bytes [] [] = eq
cmp_bytes [] (y ∷ ys) = lt
cmp_bytes (x ∷ xs) [] = gt
cmp_bytes (x ∷ xs) (y ∷ ys) = elim (compare x y) [ lt ↦ lt | gt ↦ gt | eq ↦ cmp_bytes xs ys ]

-- `Ord` and `PartialEq` look at the identifier only.
unfoldable pub cmp : AssetType → AssetType → Ordering
unfolding cmp_bytes
cmp a b = cmp_bytes a.identifier b.identifier

-- `(0..8).map(|i| (v >> i) & 1 == 1)`
unfoldable pub byte_bits : ℕ → ℕ → List Bool
byte_bits zero v = []
byte_bits (suc n) v = (v % 2 == 1) ∷ byte_bits n (v / 2)

unfoldable pub bits_of : Bytes → List Bool
bits_of [] = []
bits_of (v ∷ vs) = byte_bits 8 v ++ bits_of vs

unfoldable pub identifier_bits : AssetType → List Bool
identifier_bits a = bits_of a.identifier

module _ (c : AssetCrypto) where
  unfoldable pub hash_to_point : Bytes → Option c.Point
  hash_to_point identifier =
      elim (c.from_bytes (c.blake2s value_commitment_generator_personalization identifier)) [
        | none ↦ none
        | some p ↦ if c.is_identity (c.clear_cofactor p) then none else some p
      ]

  unfoldable pub new_with_nonce : Bytes → ℕ → Option AssetType
  unfolding hash_to_point
  new_with_nonce name nonce =
      let h = c.blake2s asset_identifier_personalization (gh_first_block ++ name ++ nonce ∷ []) in
      elim (hash_to_point h) [
        | none ↦ none
        | some p ↦ some (record { identifier = h; nonce = some nonce })
      ]

  -- The rejection loop of `new`. `none` means that the fuel ran out; `err` is the loop's own
  -- failure, where the `u8` nonce would overflow.
  unfoldable pub new_loop : ℕ → Bytes → ℕ → Option (Result (Unit {0}) AssetType)
  new_loop zero name nonce = none
  new_loop (suc fuel) name nonce =
      let next = new_loop fuel name (nonce + 1) in
      elim (new_with_nonce name nonce) [
        | some asset_type ↦ some (ok asset_type)
        | none ↦ if ltb (nonce + 1) 256 then next else some (err tt)
      ]

  unfoldable pub new : Bytes → Option (Result (Unit {0}) AssetType)
  unfolding new_loop
  new name = new_loop 256 name 0

  unfoldable pub from_identifier : Bytes → Option AssetType
  unfolding hash_to_point
  from_identifier identifier = elim (hash_to_point identifier) [
    | none ↦ none
    | some p ↦ some (record { identifier = identifier; nonce = none })
  ]

  -- `none` is the panic of the `expect`.
  unfoldable pub asset_generator : AssetType → Option c.Point
  unfolding hash_to_point
  asset_generator a = hash_to_point a.identifier

  unfoldable pub value_commitment_generator : AssetType → Option c.Point
  unfolding asset_generator
  value_commitment_generator a = elim (asset_generator a) [
    | none ↦ none
    | some p ↦ some (c.clear_cofactor p)
  ]

  unfoldable pub read : Bytes → Io (AssetType × Bytes)
  read src = do
    (atype, rest) ← read_exact identifier_length src
    elim (from_identifier atype) [ none ↦ err invalid_data | some a ↦ ok (a, rest) ]
