-- ===== src/Transparent/RoundTrip.antt =====
-- Reading back a written input or output.
use masp.Base.{◌^◌, ◌<◌, ◌≡◌, arith, ◌++◌, length, append_assoc}
use masp.Base.Bytes.{
  Bytes, to_le_bytes, length-to_le_bytes, from_le_bytes-to_le_bytes, read_exact-append,
}
use masp.Base.Result.{ok}
use masp.AssetType.{AssetCrypto}
use masp.AssetType.Derive.{read-append}
use masp.Amount.Codec.RoundTrip.{IsAsset}
use masp.Transparent.{TxIn, TxOut, write_out, read_out, write_in, read_in}

module _ (c : AssetCrypto) where
  -- An output whose asset type has a generator, whose value is below 2 ^ 64 and whose address has
  -- 20 bytes is read back from what write makes of it, and what follows is left.
  pub read_out-write_out :
      (out : TxOut) (rest : Bytes)
      → IsAsset c out.asset_type
      → out.value < 2 ^ 64
      → length out.address ≡ 20
      → read_out c (write_out out ++ rest) ≡ ok (out, rest)
  read_out-write_out out rest (size, known) small len =
      let value = to_le_bytes 8 out.value in
      let asset = read-append c out.asset_type (value ++ (out.address ++ rest)) size known in
      let taken =
        read_exact-append value (out.address ++ rest) 8 (length-to_le_bytes 8 out.value) in
      let number = from_le_bytes-to_le_bytes 8 out.value (omega arith) in
      let last = read_exact-append out.address rest 20 len in
      unfold read_out write_out in
      rw
        (
          append_assoc out.asset_type (value ++ out.address) rest,
          append_assoc value out.address rest,
        )
        (ground (arith, asset, taken, number, last))

  pub read_in-write_in :
      (input : TxIn) (rest : Bytes)
      → IsAsset c input.asset_type
      → input.value < 2 ^ 64
      → length input.address ≡ 20
      → read_in c (write_in input ++ rest) ≡ ok (input, rest)
  read_in-write_in input rest (size, known) small len =
      let value = to_le_bytes 8 input.value in
      let asset = read-append c input.asset_type (value ++ (input.address ++ rest)) size known in
      let taken =
        read_exact-append value (input.address ++ rest) 8 (length-to_le_bytes 8 input.value) in
      let number = from_le_bytes-to_le_bytes 8 input.value (omega arith) in
      let last = read_exact-append input.address rest 20 len in
      unfold read_in write_in in
      rw
        (
          append_assoc input.asset_type (value ++ input.address) rest,
          append_assoc value input.address rest,
        )
        (ground (arith, asset, taken, number, last))
