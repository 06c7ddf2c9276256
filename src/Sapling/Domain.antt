-- ===== src/Sapling/Domain.antt =====
-- masp_primitives/src/sapling/note_encryption.rs: `SaplingDomain`, the domain of Sapling notes. A
-- prepared key is the key itself. The batched methods, which normalize points of the curve in
-- groups, are not modelled.
pub mod Plaintext
pub mod Receives
pub mod Payment
use masp.Base.{
  ℕ, zero, suc, ◌+◌, ◌≡◌, ◌↔◌, Bool, true, false, Option, none, some, List, [], ◌∷◌, ◌++◌,
}
use masp.Base.{if◌then◌else◌, length, take, drop, ◌==◌, leb, get_or, replicate, ==_iff}
use masp.Base.Bytes.{Bytes, to_le_bytes, from_le_bytes}
use masp.Base.Maybe.{◌>>=◌, ◌>>◌, ensure}
use masp.Base.Result.{ok, err}
use masp.AssetType
use masp.Consensus.{Parameters, BlockHeight, masp_upgrade, is_nu_active}
use masp.Memo
use masp.Memo.{MemoBytes, empty_bytes}
use masp.NoteEncryption
use masp.NoteEncryption.{
  Cipher, Domain, ShieldedOutput, NoteEncryption, compact_note_size, note_plaintext_size, bytes_eq,
}
use masp.NoteEncryption.Opens.{bytes_eq_iff}
use masp.Sapling.{
  SaplingCrypto, PaymentAddress, Rseed, Note, before_zip212, after_zip212, g_d, from_parts,
  create_note, derive_esk, cmu,
}

-- `KDF_SAPLING_PERSONALIZATION`
abbrev pub kdf_sapling_personalization : Bytes
kdf_sapling_personalization =
    b'M' ∷ b'A' ∷ b'S' ∷ b'P' ∷ b'_' ∷ b'_' ∷ b'S' ∷ b'a' ∷ b'p' ∷ b'l' ∷ b'i' ∷ b'n' ∷ b'g' ∷ b'K'
    ∷ b'D' ∷ b'F' ∷ []

-- `PRF_OCK_PERSONALIZATION`
abbrev pub prf_ock_personalization : Bytes
prf_ock_personalization =
    b'M' ∷ b'A' ∷ b'S' ∷ b'P' ∷ b'_' ∷ b'_' ∷ b'D' ∷ b'e' ∷ b'r' ∷ b'i' ∷ b'v' ∷ b'e' ∷ b'_' ∷ b'o'
    ∷ b'c' ∷ b'k' ∷ []

-- `bytes[start .. start + n]`
abbrev pub slice : ℕ → ℕ → Bytes → Bytes
slice start n bytes = take n (drop start bytes)

unfoldable pub plaintext_version_is_valid : Parameters → BlockHeight → ℕ → Bool
plaintext_version_is_valid params height leadbyte =
    if is_nu_active params masp_upgrade height then leadbyte == 0x02 else leadbyte == 0x01

-- `struct SaplingDomain`
pub record SaplingDomain : Type 0 where
  pub params : Parameters
  pub height : BlockHeight

module _ (c : SaplingCrypto) where
  unfoldable pub sapling_ka_agree : c.Scalar → c.assets.Point → c.Point
  sapling_ka_agree esk pk_d = c.clear_cofactor (c.mul_extended pk_d esk)

  unfoldable pub kdf_sapling : c.Point → Bytes → Bytes
  kdf_sapling dhsecret ephemeral_key =
      c.blake2b 32 kdf_sapling_personalization (c.to_bytes dhsecret ++ ephemeral_key)

  unfoldable pub prf_ock : Bytes → c.assets.Point → Bytes → Bytes → Bytes
  prf_ock ovk cv cmu_bytes ephemeral_key =
      c.blake2b 32 prf_ock_personalization
        (ovk ++ (c.extended_bytes cv ++ (cmu_bytes ++ ephemeral_key)))

  unfoldable pub ka_derive_public : Note c → c.Scalar → c.assets.Point
  ka_derive_public note esk = c.extend (c.mul note.g_d esk)

  -- The first byte and the bytes of an `Rseed`.
  unfoldable pub rseed_lead : Rseed c → ℕ
  rseed_lead (before_zip212 rcm) = 1
  rseed_lead (after_zip212 rseed) = 2

  unfoldable pub rseed_bytes : Rseed c → Bytes
  rseed_bytes (before_zip212 rcm) = c.to_repr rcm
  rseed_bytes (after_zip212 rseed) = rseed

  unfoldable pub note_plaintext_bytes : Note c → PaymentAddress c → MemoBytes → Bytes
  unfolding rseed_lead rseed_bytes
  note_plaintext_bytes note to memo =
      rseed_lead note.rseed
      ∷ (to.diversifier
          ++ (to_le_bytes 8 note.value
              ++ (note.asset_type ++ (rseed_bytes note.rseed ++ memo.bytes))))

  unfoldable pub outgoing_plaintext_bytes : Note c → c.Scalar → Bytes
  outgoing_plaintext_bytes note esk = c.to_bytes note.pk_d ++ c.to_repr esk

  unfoldable pub parse_rseed : ℕ → Bytes → Option (Rseed c)
  parse_rseed lead r =
      if lead == 0x01
      then elim (c.from_repr r) [ none ↦ none | some rcm ↦ some (before_zip212 rcm) ]
      else some (after_zip212 r)

  -- The first guard is the assertion on the length, a panic of the source.
  unfoldable pub sapling_parse_note_plaintext_without_memo :
      SaplingDomain → Bytes → (Bytes → Option c.Point) → Option (Note c × PaymentAddress c)
  unfolding plaintext_version_is_valid parse_rseed from_parts create_note
  sapling_parse_note_plaintext_without_memo domain plaintext get_validated_pk_d = do
    ensure (leb compact_note_size (length plaintext))
    let lead = get_or plaintext 0 0
    ensure (plaintext_version_is_valid domain.params domain.height lead)
    let diversifier = slice 1 11 plaintext
    let value = from_le_bytes (slice 12 8 plaintext)
    asset_type ← AssetType.from_identifier c.assets (slice 20 32 plaintext)
    rseed ← parse_rseed lead (slice 52 32 plaintext)
    pk_d ← get_validated_pk_d diversifier
    to ← from_parts c diversifier pk_d
    note ← create_note c to asset_type.identifier value rseed
    some (note, to)

  unfoldable pub parse_note_plaintext_without_memo_ivk :
      SaplingDomain → c.Scalar → Bytes → Option (Note c × PaymentAddress c)
  unfolding sapling_parse_note_plaintext_without_memo
  parse_note_plaintext_without_memo_ivk domain ivk plaintext =
      sapling_parse_note_plaintext_without_memo domain plaintext
        λ diversifier. do g ← g_d c diversifier; some (c.mul g ivk)

  unfoldable pub parse_note_plaintext_without_memo_ovk :
      SaplingDomain → c.Point → c.Scalar → Bytes → Bytes → Option (Note c × PaymentAddress c)
  unfolding sapling_parse_note_plaintext_without_memo
  parse_note_plaintext_without_memo_ovk domain pk_d esk ephemeral_key plaintext =
      sapling_parse_note_plaintext_without_memo domain plaintext λ diversifier. do
        g ← g_d c diversifier
        if bytes_eq (c.to_bytes (c.mul g esk)) ephemeral_key then some pk_d else none

  -- `MemoBytes::from_bytes` of 512 bytes does not fail. A shorter slice panics in the source.
  unfoldable pub extract_memo : SaplingDomain → Bytes → MemoBytes
  extract_memo domain plaintext = elim (Memo.from_bytes (slice compact_note_size 512 plaintext)) [
    | ok memo ↦ memo
    | err _ ↦ empty_bytes
  ]

  -- The bytes of a commitment. One that panics in the source has none; the parser makes no note with
  -- such a commitment.
  unfoldable pub commitment_bytes : Option c.Coordinate → Bytes
  commitment_bytes none = []
  commitment_bytes (some u) = c.coordinate_bytes u

  -- `impl Domain for SaplingDomain`
  abbrev pub sapling_domain : Domain
  sapling_domain = record {
    State = SaplingDomain;
    EphemeralSecretKey = c.Scalar;
    EphemeralPublicKey = c.assets.Point;
    PreparedEphemeralPublicKey = c.assets.Point;
    SharedSecret = c.Point;
    SymmetricKey = Bytes;
    Note = Note c;
    Recipient = PaymentAddress c;
    DiversifiedTransmissionKey = c.Point;
    IncomingViewingKey = c.Scalar;
    OutgoingViewingKey = Bytes;
    ValueCommitment = c.assets.Point;
    ExtractedCommitment = Option c.Coordinate;
    ExtractedCommitmentBytes = Bytes;
    Memo = MemoBytes;
    esk_eq = c.scalar_eq;
    esk_eq_iff = c.scalar_eq_iff;
    key_bytes = λ key. key;
    cmstar_eq = bytes_eq;
    cmstar_eq_iff = bytes_eq_iff;
    cmstar_bytes = commitment_bytes;
    derive_esk = λ note. derive_esk c note;
    get_pk_d = λ note. note.pk_d;
    prepare_epk = λ epk. epk;
    ka_derive_public = ka_derive_public;
    ka_agree_enc = λ esk pk_d. sapling_ka_agree esk (c.extend pk_d);
    ka_agree_dec = λ ivk epk. sapling_ka_agree ivk epk;
    kdf = kdf_sapling;
    note_plaintext_bytes = note_plaintext_bytes;
    derive_ock = prf_ock;
    outgoing_plaintext_bytes = outgoing_plaintext_bytes;
    epk_bytes = c.extended_bytes;
    epk = c.assets.from_bytes;
    cmstar = λ note. cmu c note;
    parse_note_plaintext_without_memo_ivk = parse_note_plaintext_without_memo_ivk;
    parse_note_plaintext_without_memo_ovk = parse_note_plaintext_without_memo_ovk;
    extract_memo = extract_memo;
    extract_pk_d = λ op. c.from_bytes (slice 0 32 op);
    extract_esk = λ op. c.from_repr (slice 32 32 op);
  }

  module _ (C : Cipher) where
    unfoldable pub try_sapling_note_decryption :
        Parameters
        → BlockHeight
        → c.Scalar
        → ShieldedOutput sapling_domain
        → Option (Note c × PaymentAddress c × MemoBytes)
    try_sapling_note_decryption params height ivk output =
        NoteEncryption.try_note_decryption C sapling_domain
          (record { params = params; height = height }) ivk output

    unfoldable pub try_sapling_compact_note_decryption :
        Parameters
        → BlockHeight
        → c.Scalar
        → ShieldedOutput sapling_domain
        → Option (Note c × PaymentAddress c)
    try_sapling_compact_note_decryption params height ivk output =
        NoteEncryption.try_compact_note_decryption C sapling_domain
          (record { params = params; height = height }) ivk output

    -- `OutputDescription` is its three fields that the functions read.
    unfoldable pub try_sapling_output_recovery_with_ock :
        Parameters
        → BlockHeight
        → Bytes
        → ShieldedOutput sapling_domain
        → Bytes
        → Option (Note c × PaymentAddress c × MemoBytes)
    try_sapling_output_recovery_with_ock params height ock output out_ciphertext =
        NoteEncryption.try_output_recovery_with_ock C sapling_domain
          (record { params = params; height = height }) ock output out_ciphertext

    unfoldable pub try_sapling_output_recovery :
        Parameters
        → BlockHeight
        → Bytes
        → ShieldedOutput sapling_domain
        → c.assets.Point
        → Bytes
        → Option (Note c × PaymentAddress c × MemoBytes)
    try_sapling_output_recovery params height ovk output cv out_ciphertext =
        NoteEncryption.try_output_recovery_with_ovk C sapling_domain
          (record { params = params; height = height }) ovk output cv out_ciphertext

  unfoldable pub sapling_note_encryption :
      Option Bytes → Note c → PaymentAddress c → MemoBytes → Option (NoteEncryption sapling_domain)
  sapling_note_encryption ovk note to memo = NoteEncryption.new sapling_domain ovk note to memo
