-- ===== src/Examples/Assets.antt =====
-- Asset types with a toy hash and a toy group, and sums over them.
use masp.Base.{ℕ, ◌+◌, ◌*◌, ◌%◌, ◌≤◌, ◌≡◌, ◌⊎◌, refl, none, some, [], ◌∷◌, ◌++◌, All, arith}
use masp.Base.{length, if◌then◌else◌, ◌==◌}
use masp.Base.Int.{negsuc}
use masp.Base.Bytes.{Bytes, to_le_bytes, from_le_bytes, length-to_le_bytes}
use masp.Base.Encoding.{small}
use masp.Base.Result.{ok, err}
use masp.BTreeMap
use masp.Words.{i128, in_range}
use masp.AssetType.{AssetCrypto, AssetType, new, new_with_nonce, hash_to_point}
use masp.AssetType.Derive.{IsDerived, NoneDerived, new_lem}
use masp.AssetType.Bits.{bytes_ord}
use masp.Amount.{ValueSum}
use masp.Amount.Valid.{IsValid}
use masp.Amount.Codec as Codec
use masp.Amount.Codec.{sixteen, write}
use masp.Amount.Codec.RoundTrip.{IsAsset, read-write}

-- The checksum of a message stands for its hash, and an even number for a point.
abbrev checksum : Bytes → ℕ
checksum [] = 0
checksum (b ∷ bs) = b + checksum bs

abbrev toy : AssetCrypto
toy = record {
  Point = ℕ;
  blake2s = λ p m. to_le_bytes 32 (checksum p + checksum m);
  from_bytes = λ bs. if from_le_bytes bs % 2 == 0 then some (from_le_bytes bs) else none;
  clear_cofactor = λ p. 8 * p;
  is_identity = λ p. p == 0;
  length-blake2s = λ p m. length-to_le_bytes 32 _;
}

abbrev name : Bytes
name = b'Z' ∷ b'E' ∷ b'D' ∷ []

abbrev zed : AssetType
zed = record {
  identifier =
      205 ∷ 21 ∷ 0 ∷ 0 ∷ 0 ∷ 0 ∷ 0 ∷ 0 ∷ 0 ∷ 0 ∷ 0 ∷ 0 ∷ 0 ∷ 0 ∷ 0 ∷ 0 ∷ 0 ∷ 0 ∷ 0 ∷ 0 ∷ 0 ∷ 0 ∷ 0
      ∷ 0 ∷ 0 ∷ 0 ∷ 0 ∷ 0 ∷ 0 ∷ 0 ∷ 0 ∷ 0 ∷ [];
  nonce = some 1;
}

new_runs : new toy name ≡ some (ok zed)
unfolding new new_with_nonce hash_to_point to_le_bytes from_le_bytes
new_runs = refl

held : ValueSum Bytes
held = (zed.identifier, negsuc 6) ∷ []

held-IsValid : IsValid i128 held
unfolding held
held-IsValid = record {
  sorted = ground arith;
  nonzero = λ k. unfold BTreeMap.get in ground arith;
  ranged = λ k v e. unfold BTreeMap.get in_range in ground arith;
}

zed_point : hash_to_point toy zed.identifier ≡ some 934
unfolding hash_to_point to_le_bytes from_le_bytes
zed_point = refl

held_assets : All (λ p. IsAsset toy p.0) held
unfolding held
held_assets = ((refl, λ n. cc (n, zed_point)), tt)

short : length held ≤ small.max_size
unfolding held small
short = ground arith

read-write_example :
    Codec.read small toy sixteen (write small sixteen held ++ 9 ∷ []) ≡ some (ok (held, 9 ∷ []))
read-write_example = read-write small toy sixteen held (9 ∷ []) held-IsValid held_assets short

new_lem_example :
    ((a : AssetType) × (new toy name ≡ some (ok a)) × IsDerived toy name 0 a)
    ⊎ ((new toy name ≡ some (err tt)) × NoneDerived toy name 0)
new_lem_example = new_lem toy name
