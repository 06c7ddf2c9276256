-- ===== src/Amount/Codec.antt =====
-- The encodings of `ValueSum` over asset types. An asset type is a key by its identifier, which is
-- all that its `Ord`, `Eq` and `Hash` look at.
pub mod RoundTrip
use masp.Base.{ℕ, Option, none, some, List, [], ◌∷◌, ◌++◌, length}
use masp.Base.Int.{ℤ}
use masp.Base.Bytes.{Bytes, read_exact, read_array}
use masp.Base.Result.{Io, ok, err, ◌>>=◌}
use masp.Base.Encoding.{Encoding}
use masp.Words.{IntType, i32, i64, i128, int_to_le_bytes, int_from_le_bytes}
use masp.BTreeMap
use masp.AssetType.{AssetCrypto, identifier_length}
use masp.AssetType
use masp.AssetType.Bits.{bytes_ord}
use masp.Amount.{ValueSum, components, zero_sum, from_pair, add}

-- The three types whose sums have `read` and `write`.
pub data Width : Type 0 where
  four eight sixteen : Width

abbrev pub int_type : Width → IntType
int_type four = i32
int_type eight = i64
int_type sixteen = i128

abbrev pub byte_count : Width → ℕ
byte_count four = 4
byte_count eight = 8
byte_count sixteen = 16

unfoldable pub write_element : Width → Bytes × ℤ → Bytes
write_element w (atype, amount) = atype ++ int_to_le_bytes (byte_count w) amount

unfoldable pub write : Encoding → Width → ValueSum Bytes → Bytes
unfolding components
write enc w m = enc.write_vector (write_element w) (components m)

unfoldable pub read_element : AssetCrypto → Width → Bytes → Io ((Bytes × ℤ) × Bytes)
read_element c w src = do
  (atype, rest) ← AssetType.read c src
  (value, rest') ← read_exact (byte_count w) rest
  ok ((atype.identifier, int_from_le_bytes (byte_count w) value), rest')

-- `for (atype, amt) in vec { ret += Self::from_pair(atype, amt) }`; `none` is the panic of `+=`.
unfoldable pub accumulate : IntType → ValueSum Bytes → List (Bytes × ℤ) → Option (ValueSum Bytes)
accumulate t ret [] = some ret
accumulate t ret ((atype, amt) ∷ vec) = elim (add t ret (from_pair atype amt)) [
  | none ↦ none
  | some ret' ↦ accumulate t ret' vec
]

-- `none` is a panic.
unfoldable pub read : Encoding → AssetCrypto → Width → Bytes → Option (Io (ValueSum Bytes × Bytes))
read enc c w src = elim (enc.read_vector (read_element c w) src) [
  | err e ↦ some (err e)
  | ok (vec, rest) ↦ elim (accumulate (int_type w) zero_sum vec) [
    | none ↦ none
    | some ret ↦ some (ok (ret, rest))
  ]
]

-- `BorshSerialize` and `BorshDeserialize`, for identifiers as the unit: 32 bytes, unchecked. The
-- entries are collected into the map, a later one for a key over an earlier one.
unfoldable pub borsh_serialize : Encoding → Width → ValueSum Bytes → Bytes
unfolding write
borsh_serialize enc w m = write enc w m

unfoldable pub borsh_read_element : Width → Bytes → Io ((Bytes × ℤ) × Bytes)
borsh_read_element w src = do
  (atype, rest) ← read_array identifier_length src
  (value, rest') ← read_array (byte_count w) rest
  ok ((atype, int_from_le_bytes (byte_count w) value), rest')

unfoldable pub collect : List (Bytes × ℤ) → ValueSum Bytes → ValueSum Bytes
collect [] m = m
collect ((k, v) ∷ vec) m = collect vec (BTreeMap.insert m k v)

unfoldable pub borsh_deserialize : Encoding → Width → Bytes → Io (ValueSum Bytes × Bytes)
borsh_deserialize enc w src = do
  (vec, rest) ← enc.read_vector (borsh_read_element w) src
  ok (collect vec [], rest)
