-- ===== src/NoteEncryption.antt =====
-- masp_note_encryption/src/lib.rs: encryption of notes and trial decryption over a `Domain`. The
-- ciphers ChaCha20Poly1305 and ChaCha20, under the nonce of twelve zero bytes, are a parameter.
pub mod Opens
pub mod Compact
pub mod Recovery
pub mod Checked
pub mod Batch
use masp.Base.{
  ℕ, ◌+◌, ◌≡◌, ◌↔◌, Bool, true, false, ◌&&◌, Option, none, some, List, [], ◌∷◌, ◌++◌, not,
}
use masp.Base.{if◌then◌else◌, length, take, drop, replicate, ◌==◌}
use masp.Base.Bytes.{Bytes}

abbrev pub compact_note_size : ℕ
compact_note_size = 1 + 11 + 8 + 32 + 32

abbrev pub note_plaintext_size : ℕ
note_plaintext_size = compact_note_size + 512

abbrev pub out_plaintext_size : ℕ
out_plaintext_size = 32 + 32

abbrev pub aead_tag_size : ℕ
aead_tag_size = 16

abbrev pub enc_ciphertext_size : ℕ
enc_ciphertext_size = note_plaintext_size + aead_tag_size

abbrev pub out_ciphertext_size : ℕ
out_ciphertext_size = out_plaintext_size + aead_tag_size

-- Equality of byte arrays.
abbrev pub bytes_eq : Bytes → Bytes → Bool
bytes_eq [] [] = true
bytes_eq [] (b ∷ bs) = false
bytes_eq (a ∷ as') [] = false
bytes_eq (a ∷ as') (b ∷ bs) = a == b && bytes_eq as' bs

-- The ciphers. `seal` gives a ciphertext and a tag; `open` takes both. `apply_keystream` is ChaCha20
-- after the seek to block 1, which is where the plaintext of ChaCha20Poly1305 starts.
pub record Cipher : Type 0 where
  pub seal : Bytes → Bytes → Bytes × Bytes
  pub open_sealed : Bytes → Bytes → Bytes → Option Bytes
  pub apply_keystream : Bytes → Bytes → Bytes
  pub open-seal :
      (key text : Bytes) → open_sealed key (seal key text).0 (seal key text).1 ≡ some text
  pub length-tag : (key text : Bytes) → length (seal key text).1 ≡ aead_tag_size
  pub seal_keystream : (key text : Bytes) → (seal key text).0 ≡ apply_keystream key text
  pub length-apply_keystream : (key text : Bytes) → length (apply_keystream key text) ≡ length text
  pub apply_keystream-take :
      (key text : Bytes) (n : ℕ)
      → apply_keystream key (take n text) ≡ take n (apply_keystream key text)
  pub apply_keystream_twice :
      (key text : Bytes) → apply_keystream key (apply_keystream key text) ≡ text

-- The trait `Domain`, with `Self` as the first type. Keys and commitments are compared by
-- tests that decide equality.
pub record Domain : Type 1 where
  pub State : Type 0
  pub EphemeralSecretKey : Type 0
  pub EphemeralPublicKey : Type 0
  pub PreparedEphemeralPublicKey : Type 0
  pub SharedSecret : Type 0
  pub SymmetricKey : Type 0
  pub Note : Type 0
  pub Recipient : Type 0
  pub DiversifiedTransmissionKey : Type 0
  pub IncomingViewingKey : Type 0
  pub OutgoingViewingKey : Type 0
  pub ValueCommitment : Type 0
  pub ExtractedCommitment : Type 0
  pub ExtractedCommitmentBytes : Type 0
  pub Memo : Type 0
  pub esk_eq : EphemeralSecretKey → EphemeralSecretKey → Bool
  pub esk_eq_iff : (a b : EphemeralSecretKey) → (esk_eq a b ≡ true) ↔ (a ≡ b)
  pub key_bytes : SymmetricKey → Bytes
  pub cmstar_eq : ExtractedCommitmentBytes → ExtractedCommitmentBytes → Bool
  pub cmstar_eq_iff : (a b : ExtractedCommitmentBytes) → (cmstar_eq a b ≡ true) ↔ (a ≡ b)
  pub cmstar_bytes : ExtractedCommitment → ExtractedCommitmentBytes
  pub derive_esk : Note → Option EphemeralSecretKey
  pub get_pk_d : Note → DiversifiedTransmissionKey
  pub prepare_epk : EphemeralPublicKey → PreparedEphemeralPublicKey
  pub ka_derive_public : Note → EphemeralSecretKey → EphemeralPublicKey
  pub ka_agree_enc : EphemeralSecretKey → DiversifiedTransmissionKey → SharedSecret
  pub ka_agree_dec : IncomingViewingKey → PreparedEphemeralPublicKey → SharedSecret
  pub kdf : SharedSecret → Bytes → SymmetricKey
  pub note_plaintext_bytes : Note → Recipient → Memo → Bytes
  pub derive_ock : OutgoingViewingKey → ValueCommitment → ExtractedCommitmentBytes → Bytes → Bytes
  pub outgoing_plaintext_bytes : Note → EphemeralSecretKey → Bytes
  pub epk_bytes : EphemeralPublicKey → Bytes
  pub epk : Bytes → Option EphemeralPublicKey
  pub cmstar : Note → ExtractedCommitment
  pub parse_note_plaintext_without_memo_ivk :
      State → IncomingViewingKey → Bytes → Option (Note × Recipient)
  pub parse_note_plaintext_without_memo_ovk :
      State
      → DiversifiedTransmissionKey
      → EphemeralSecretKey
      → Bytes
      → Bytes
      → Option (Note × Recipient)
  pub extract_memo : State → Bytes → Memo
  pub extract_pk_d : Bytes → Option DiversifiedTransmissionKey
  pub extract_esk : Bytes → Option EphemeralSecretKey

-- The trait `ShieldedOutput`, by what its methods return.
pub record ShieldedOutput (D : Domain) : Type 0 where
  pub ephemeral_key : Bytes
  pub cmstar_bytes : D.ExtractedCommitmentBytes
  pub enc_ciphertext : Bytes

pub data NoteValidity : Type 0 where
  valid invalid : NoteValidity

pub record NoteEncryption (D : Domain) : Type 0 where
  pub epk : D.EphemeralPublicKey
  pub esk : D.EphemeralSecretKey
  pub note : D.Note
  pub to : D.Recipient
  pub memo : D.Memo
  pub ovk : Option D.OutgoingViewingKey

module _ (D : Domain) where
  unfoldable pub new_with_esk :
      D.EphemeralSecretKey
      → Option D.OutgoingViewingKey
      → D.Note
      → D.Recipient
      → D.Memo
      → NoteEncryption D
  new_with_esk esk ovk note to memo = record {
    epk = D.ka_derive_public note esk;
    esk = esk;
    note = note;
    to = to;
    memo = memo;
    ovk = ovk;
  }

  -- `none` is the panic of `expect`, on a note from before ZIP 212.
  unfoldable pub new :
      Option D.OutgoingViewingKey → D.Note → D.Recipient → D.Memo → Option (NoteEncryption D)
  unfolding new_with_esk
  new ovk note to memo = elim (D.derive_esk note) [
    | none ↦ none
    | some esk ↦ some (new_with_esk esk ovk note to memo)
  ]

  unfoldable pub check_note_validity : D.Note → Bytes → D.ExtractedCommitmentBytes → NoteValidity
  check_note_validity note ephemeral_key cmstar_bytes =
      if D.cmstar_eq (D.cmstar_bytes (D.cmstar note)) cmstar_bytes
      then elim (D.derive_esk note) [
        | some derived_esk ↦
            if bytes_eq (D.epk_bytes (D.ka_derive_public note derived_esk)) ephemeral_key
            then valid
            else invalid
        | none ↦ valid
      ]
      else invalid

  -- The function of this name beside the trait, which checks the note.
  unfoldable pub parse_checked :
      D.State
      → D.IncomingViewingKey
      → Bytes
      → D.ExtractedCommitmentBytes
      → Bytes
      → Option (D.Note × D.Recipient)
  unfolding check_note_validity
  parse_checked domain ivk ephemeral_key cmstar_bytes plaintext =
      elim (D.parse_note_plaintext_without_memo_ivk domain ivk plaintext) [
        | none ↦ none
        | some (note, to) ↦ elim (check_note_validity note ephemeral_key cmstar_bytes) [
          | valid ↦ some (note, to)
          | invalid ↦ none
        ]
      ]

module _ (C : Cipher) (D : Domain) where
  unfoldable pub encrypt_note_plaintext : NoteEncryption D → Bytes
  encrypt_note_plaintext e =
      let pk_d = D.get_pk_d e.note in
      let shared_secret = D.ka_agree_enc e.esk pk_d in
      let key = D.kdf shared_secret (D.epk_bytes e.epk) in
      let input = D.note_plaintext_bytes e.note e.to e.memo in
      let (output, tag) = C.seal (D.key_bytes key) input in output ++ tag

  -- The last two arguments are what the random number generator fills in, without an `ovk`.
  unfoldable pub encrypt_outgoing_plaintext :
      NoteEncryption D → D.ValueCommitment → D.ExtractedCommitment → Bytes → Bytes → Bytes
  encrypt_outgoing_plaintext e cv cmstar random_ock random_input =
      let (ock, input) : Bytes × Bytes = elim e.ovk [
        | some ovk ↦ (
          D.derive_ock ovk cv (D.cmstar_bytes cmstar) (D.epk_bytes e.epk),
          D.outgoing_plaintext_bytes e.note e.esk,
        )
        | none ↦ (random_ock, random_input)
      ] in
      let (output, tag) = C.seal ock input in output ++ tag

  unfoldable pub try_note_decryption_inner :
      D.State
      → D.IncomingViewingKey
      → Bytes
      → ShieldedOutput D
      → D.SymmetricKey
      → Option (D.Note × D.Recipient × D.Memo)
  unfolding parse_checked
  try_note_decryption_inner domain ivk ephemeral_key output key =
      let text = take note_plaintext_size output.enc_ciphertext in
      let tag = drop note_plaintext_size output.enc_ciphertext in
      elim (C.open_sealed (D.key_bytes key) text tag) [
        | none ↦ none
        | some plaintext ↦
            elim (parse_checked D domain ivk ephemeral_key output.cmstar_bytes plaintext) [
              | none ↦ none
              | some (note, to) ↦ some (note, to, D.extract_memo domain plaintext)
            ]
      ]

  unfoldable pub try_note_decryption :
      D.State → D.IncomingViewingKey → ShieldedOutput D → Option (D.Note × D.Recipient × D.Memo)
  unfolding try_note_decryption_inner
  try_note_decryption domain ivk output = elim (D.epk output.ephemeral_key) [
    | none ↦ none
    | some epk ↦
        let shared_secret = D.ka_agree_dec ivk (D.prepare_epk epk) in
        let key = D.kdf shared_secret output.ephemeral_key in
        try_note_decryption_inner domain ivk output.ephemeral_key output key
  ]

  unfoldable pub try_compact_note_decryption_inner :
      D.State
      → D.IncomingViewingKey
      → Bytes
      → ShieldedOutput D
      → D.SymmetricKey
      → Option (D.Note × D.Recipient)
  unfolding parse_checked
  try_compact_note_decryption_inner domain ivk ephemeral_key output key =
      let plaintext = C.apply_keystream (D.key_bytes key) output.enc_ciphertext in
      parse_checked D domain ivk ephemeral_key output.cmstar_bytes plaintext

  unfoldable pub try_compact_note_decryption :
      D.State → D.IncomingViewingKey → ShieldedOutput D → Option (D.Note × D.Recipient)
  unfolding try_compact_note_decryption_inner
  try_compact_note_decryption domain ivk output = elim (D.epk output.ephemeral_key) [
    | none ↦ none
    | some epk ↦
        let shared_secret = D.ka_agree_dec ivk (D.prepare_epk epk) in
        let key = D.kdf shared_secret output.ephemeral_key in
        try_compact_note_decryption_inner domain ivk output.ephemeral_key output key
  ]

  -- The end of `try_output_recovery_with_ock`: the note of a plaintext, checked.
  unfoldable pub recover_note :
      D.State
      → D.DiversifiedTransmissionKey
      → D.EphemeralSecretKey
      → ShieldedOutput D
      → Bytes
      → Option (D.Note × D.Recipient × D.Memo)
  unfolding check_note_validity
  recover_note domain pk_d esk output plaintext =
      elim (D.parse_note_plaintext_without_memo_ovk domain pk_d esk output.ephemeral_key
        plaintext) [
          | none ↦ none
          | some (note, to) ↦
              let memo = D.extract_memo domain plaintext in
              let consistent : Bool = elim (D.derive_esk note) [
                | some derived_esk ↦ D.esk_eq derived_esk esk
                | none ↦ true
              ] in
              if consistent
              then elim (check_note_validity D note output.ephemeral_key output.cmstar_bytes) [
                | valid ↦ some (note, to, memo)
                | invalid ↦ none
              ]
              else none
        ]

  -- Its middle: the plaintext of the note, by the keys of the outgoing plaintext.
  unfoldable pub recover_plaintext :
      D.State
      → D.DiversifiedTransmissionKey
      → D.EphemeralSecretKey
      → ShieldedOutput D
      → Option (D.Note × D.Recipient × D.Memo)
  unfolding recover_note
  recover_plaintext domain pk_d esk output =
      let shared_secret = D.ka_agree_enc esk pk_d in
      let key = D.kdf shared_secret output.ephemeral_key in
      let text = take note_plaintext_size output.enc_ciphertext in
      let tag = drop note_plaintext_size output.enc_ciphertext in
      elim (C.open_sealed (D.key_bytes key) text tag) [
        | none ↦ none
        | some plaintext ↦ recover_note domain pk_d esk output plaintext
      ]

  unfoldable pub try_output_recovery_with_ock :
      D.State → Bytes → ShieldedOutput D → Bytes → Option (D.Note × D.Recipient × D.Memo)
  unfolding recover_plaintext
  try_output_recovery_with_ock domain ock output out_ciphertext =
      let text = take out_plaintext_size out_ciphertext in
      let tag = drop out_plaintext_size out_ciphertext in
      elim (C.open_sealed ock text tag) [
        | none ↦ none
        | some op ↦ elim (D.extract_pk_d op) [
          | none ↦ none
          | some pk_d ↦ elim (D.extract_esk op) [
            | none ↦ none
            | some esk ↦ recover_plaintext domain pk_d esk output
          ]
        ]
      ]

  unfoldable pub try_output_recovery_with_ovk :
      D.State
      → D.OutgoingViewingKey
      → ShieldedOutput D
      → D.ValueCommitment
      → Bytes
      → Option (D.Note × D.Recipient × D.Memo)
  unfolding try_output_recovery_with_ock
  try_output_recovery_with_ovk domain ovk output cv out_ciphertext =
      let ock = D.derive_ock ovk cv output.cmstar_bytes output.ephemeral_key in
      try_output_recovery_with_ock domain ock output out_ciphertext
