-- ===== src/Sapling/Codec.antt =====
-- The encodings of masp_primitives/src/sapling.rs: addresses, seeds, notes, and viewing keys.
pub mod RoundTrip
use masp.Base.{ℕ, ◌+◌, ◌≡◌, Bool, true, false, Option, none, some, List, [], ◌∷◌, ◌++◌, ◌%◌, ◌*◌}
use masp.Base.{if◌then◌else◌, length, take, drop, ◌==◌, get_or}
use masp.Base.Bytes.{Bytes, to_le_bytes, from_le_bytes, read_exact, read_array}
use masp.Base.Result.{Result, Io, ok, err, ◌>>=◌, ◌>>◌, guard, invalid_data, invalid_input}
use masp.Base.{not}
use masp.Sapling.{
  SaplingCrypto, PaymentAddress, Rseed, Note, before_zip212, after_zip212, g_d, from_parts,
  crh_ivk_personalization,
}

-- An optional value, or an error.
abbrev pub ok_or : {A : Type 0} → Option A → Io A → Io A
ok_or none e = e
ok_or (some a) e = ok a

-- `struct ViewingKey`, with the point of its `NullifierDerivingKey`.
pub record ViewingKey (c : SaplingCrypto) : Type 0 where
  pub ak : c.Point
  pub nk : c.Point

pub record ProofGenerationKey (c : SaplingCrypto) : Type 0 where
  pub ak : c.Point
  pub nsk : c.Scalar

module _ (c : SaplingCrypto) where
  unfoldable pub address_to_bytes : PaymentAddress c → Bytes
  address_to_bytes a = a.diversifier ++ c.to_bytes a.pk_d

  unfoldable pub address_from_bytes : Bytes → Option (PaymentAddress c)
  unfolding g_d from_parts
  address_from_bytes bytes =
      let diversifier = take 11 bytes in
      elim (g_d c diversifier) [
        | none ↦ none
        | some g ↦ elim (c.from_bytes (take 32 (drop 11 bytes))) [
          | none ↦ none
          | some pk_d ↦ from_parts c diversifier pk_d
        ]
      ]

  unfoldable pub deserialize_address : Bytes → Io (PaymentAddress c × Bytes)
  unfolding address_from_bytes
  deserialize_address src = do
    (bytes, rest) ← read_exact 43 src
    address ← ok_or (address_from_bytes bytes) (err invalid_data)
    ok (address, rest)

  unfoldable pub serialize_rseed : Rseed c → Bytes
  serialize_rseed (before_zip212 rcm) = 1 ∷ c.to_repr rcm
  serialize_rseed (after_zip212 rseed) = 2 ∷ rseed

  unfoldable pub rseed_of : ℕ → Bytes → Io (Rseed c)
  rseed_of lead bytes =
      if lead == 0x01
      then elim (c.from_repr bytes) [ none ↦ err invalid_data | some rcm ↦ ok (before_zip212 rcm) ]
      else ok (after_zip212 bytes)

  unfoldable pub deserialize_rseed : Bytes → Io (Rseed c × Bytes)
  unfolding rseed_of
  deserialize_rseed src = do
    (lead, rest) ← read_exact 1 src
    (bytes, rest') ← read_array 32 rest
    rseed ← rseed_of (get_or lead 0 0) bytes
    ok (rseed, rest')

  unfoldable pub serialize_note : Note c → Bytes
  unfolding serialize_rseed
  serialize_note note =
      note.asset_type
      ++ (to_le_bytes 8 note.value
          ++ (c.to_bytes note.g_d ++ (c.to_bytes note.pk_d ++ serialize_rseed note.rseed)))

  -- The derived reader of an asset type takes any 32 bytes.
  unfoldable pub deserialize_note : Bytes → Io (Note c × Bytes)
  unfolding deserialize_rseed
  deserialize_note src = do
    (asset_type, rest₁) ← read_array 32 src
    (value, rest₂) ← read_exact 8 rest₁
    (g_d_bytes, rest₃) ← read_array 32 rest₂
    g ← ok_or (c.from_bytes g_d_bytes) (err invalid_data)
    (pk_d_bytes, rest₄) ← read_array 32 rest₃
    pk_d ← ok_or (c.from_bytes pk_d_bytes) (err invalid_data)
    (rseed, rest₅) ← deserialize_rseed rest₄
    ok (
      record {
        asset_type = asset_type;
        value = from_le_bytes value;
        g_d = g;
        pk_d = pk_d;
        rseed = rseed;
      },
      rest₅,
    )

  unfoldable pub write_viewing_key : ViewingKey c → Bytes
  write_viewing_key key = c.to_bytes key.ak ++ c.to_bytes key.nk

  -- Both points are read before either is tested.
  unfoldable pub read_viewing_key : Bytes → Io (ViewingKey c × Bytes)
  read_viewing_key src = do
    (ak_bytes, rest) ← read_exact 32 src
    (nk_bytes, rest') ← read_exact 32 rest
    ak ← ok_or (c.from_bytes ak_bytes) (err invalid_input)
    guard (not (c.is_identity ak)) invalid_input
    nk ← ok_or (c.from_bytes nk_bytes) (err invalid_input)
    ok (record { ak = ak; nk = nk }, rest')

  unfoldable pub serialize_proof_generation_key : ProofGenerationKey c → Bytes
  serialize_proof_generation_key key = c.to_bytes key.ak ++ c.to_repr key.nsk

  unfoldable pub deserialize_proof_generation_key : Bytes → Io (ProofGenerationKey c × Bytes)
  deserialize_proof_generation_key src = do
    (ak_bytes, rest) ← read_exact 32 src
    ak ← ok_or (c.from_bytes ak_bytes) (err invalid_input)
    (nsk_bytes, rest') ← read_array 32 rest
    nsk ← ok_or (c.from_repr nsk_bytes) (err invalid_data)
    ok (record { ak = ak; nsk = nsk }, rest')

  -- The hash of a viewing key, without its five highest bits. `none` is the panic of `unwrap`.
  unfoldable pub ivk : ViewingKey c → Option c.Scalar
  ivk key =
      let h = c.assets.blake2s crh_ivk_personalization (c.to_bytes key.ak ++ c.to_bytes key.nk) in
      c.from_repr (take 31 h ++ (get_or h 31 0 % 8) ∷ [])
