-- ===== src/NoteEncryption/Checked.antt =====
-- Every note that decryption or recovery gives is the one that the output commits to.
use masp.Base.{◌≡◌, arith, true, some}
use masp.Base.{take, drop, Option-cases, inl, inr}
use masp.Base.Bytes.{Bytes}
use masp.NoteEncryption.{
  Cipher, Domain, ShieldedOutput, check_note_validity, parse_checked, valid, bytes_eq,
  try_note_decryption, try_note_decryption_inner, try_compact_note_decryption,
  try_compact_note_decryption_inner, try_output_recovery_with_ock, try_output_recovery_with_ovk,
  recover_note, recover_plaintext, note_plaintext_size, out_plaintext_size,
}
use masp.NoteEncryption.Opens.{bytes_eq_iff}

module _ (D : Domain) where
  -- The commitment is the note's, and so is the ephemeral key if the note has its own secret.
  abbrev pub IsChecked : ShieldedOutput D → D.Note → Type 0
  IsChecked output note =
      (D.cmstar_bytes (D.cmstar note) ≡ output.cmstar_bytes)
      × ((esk : D.EphemeralSecretKey)
          → D.derive_esk note ≡ some esk
          → D.epk_bytes (D.ka_derive_public note esk) ≡ output.ephemeral_key)

  check_IsChecked :
      (output : ShieldedOutput D) (note : D.Note)
      → check_note_validity D note output.ephemeral_key output.cmstar_bytes ≡ valid
      → IsChecked output note
  unfolding check_note_validity
  check_IsChecked output note e =
      let cm = (D.cmstar_eq_iff (D.cmstar_bytes (D.cmstar note)) output.cmstar_bytes).0 in
      let same : D.cmstar_eq (D.cmstar_bytes (D.cmstar note)) output.cmstar_bytes ≡ true =
        ground (arith, e) in
      (
        cm same,
        λ esk derived.
            let key = D.epk_bytes (D.ka_derive_public note esk) in
            let same_key : bytes_eq key output.ephemeral_key ≡ true = ground (arith, e, derived) in
            (bytes_eq_iff key output.ephemeral_key).0 same_key,
      )

  parse_IsChecked :
      (domain : D.State) (ivk : D.IncomingViewingKey) (output : ShieldedOutput D) (text : Bytes)
      {note : D.Note} {to : D.Recipient}
      → parse_checked D domain ivk output.ephemeral_key output.cmstar_bytes text ≡ some (note, to)
      → IsChecked output note
  parse_IsChecked domain ivk output text {note} {to} e =
      check_IsChecked output note (unfold parse_checked in ground (arith, e))

module _ (C : Cipher) (D : Domain) where
  -- A note that one of the functions finds in an output.
  pub data Finds (domain : D.State) (output : ShieldedOutput D) (note : D.Note) : Type 0 where
    by_ivk :
        (ivk : D.IncomingViewingKey) (to : D.Recipient) (memo : D.Memo)
        → try_note_decryption C D domain ivk output ≡ some (note, to, memo)
        → Finds domain output note
    by_compact :
        (ivk : D.IncomingViewingKey) (to : D.Recipient)
        → try_compact_note_decryption C D domain ivk output ≡ some (note, to)
        → Finds domain output note
    by_ock :
        (ock out_ciphertext : Bytes) (to : D.Recipient) (memo : D.Memo)
        → try_output_recovery_with_ock C D domain ock output out_ciphertext ≡ some (note, to, memo)
        → Finds domain output note
    by_ovk :
        (ovk : D.OutgoingViewingKey) (cv : D.ValueCommitment) (out_ciphertext : Bytes)
        (to : D.Recipient) (memo : D.Memo)
        → try_output_recovery_with_ovk C D domain ovk output cv out_ciphertext
          ≡ some (note, to, memo)
        → Finds domain output note

  module _ (domain : D.State) (output : ShieldedOutput D) {note : D.Note} {to : D.Recipient} where
    inner_IsChecked :
        (ivk : D.IncomingViewingKey) (key : D.SymmetricKey) (memo : D.Memo)
        → try_note_decryption_inner C D domain ivk output.ephemeral_key output key
          ≡ some (note, to, memo)
        → IsChecked D output note
    unfolding try_note_decryption_inner
    inner_IsChecked ivk key memo e =
        let text = take note_plaintext_size output.enc_ciphertext in
        let tag = drop note_plaintext_size output.enc_ciphertext in
        elim (Option-cases (C.open_sealed (D.key_bytes key) text tag)) [
          | inl n ↦ absurd (ground (arith, n, e))
          | inr (plain, p) ↦
              let parsed : parse_checked D domain ivk output.ephemeral_key output.cmstar_bytes plain
                  ≡ some (note, to) =
                ground (arith, p, e) in
              parse_IsChecked D domain ivk output plain parsed
        ]

    ivk_IsChecked :
        (ivk : D.IncomingViewingKey) (memo : D.Memo)
        → try_note_decryption C D domain ivk output ≡ some (note, to, memo)
        → IsChecked D output note
    unfolding try_note_decryption
    ivk_IsChecked ivk memo e = elim (Option-cases (D.epk output.ephemeral_key)) [
      | inl n ↦ absurd (ground (arith, n, e))
      | inr (epk, p) ↦
          let key = D.kdf (D.ka_agree_dec ivk (D.prepare_epk epk)) output.ephemeral_key in
          inner_IsChecked ivk key memo (ground (arith, p, e))
    ]

    compact_IsChecked :
        (ivk : D.IncomingViewingKey)
        → try_compact_note_decryption C D domain ivk output ≡ some (note, to)
        → IsChecked D output note
    unfolding try_compact_note_decryption try_compact_note_decryption_inner
    compact_IsChecked ivk e = elim (Option-cases (D.epk output.ephemeral_key)) [
      | inl n ↦ absurd (ground (arith, n, e))
      | inr (epk, p) ↦
          let key = D.kdf (D.ka_agree_dec ivk (D.prepare_epk epk)) output.ephemeral_key in
          let plain = C.apply_keystream (D.key_bytes key) output.enc_ciphertext in
          parse_IsChecked D domain ivk output plain {to = to} (ground (arith, p, e))
    ]

    recover_note-IsChecked :
        (pk_d : D.DiversifiedTransmissionKey) (esk : D.EphemeralSecretKey) (text : Bytes)
        (memo : D.Memo)
        → recover_note C D domain pk_d esk output text ≡ some (note, to, memo)
        → IsChecked D output note
    unfolding recover_note
    recover_note-IsChecked pk_d esk text memo e = check_IsChecked D output note (ground (arith, e))

    recover_plaintext-IsChecked :
        (pk_d : D.DiversifiedTransmissionKey) (esk : D.EphemeralSecretKey) (memo : D.Memo)
        → recover_plaintext C D domain pk_d esk output ≡ some (note, to, memo)
        → IsChecked D output note
    unfolding recover_plaintext
    recover_plaintext-IsChecked pk_d esk memo e =
        let key = D.key_bytes (D.kdf (D.ka_agree_enc esk pk_d) output.ephemeral_key) in
        let text = take note_plaintext_size output.enc_ciphertext in
        let tag = drop note_plaintext_size output.enc_ciphertext in
        elim (Option-cases (C.open_sealed key text tag)) [
          | inl n ↦ absurd (ground (arith, n, e))
          | inr (plain, p) ↦ recover_note-IsChecked pk_d esk plain memo (ground (arith, p, e))
        ]

    ock_IsChecked :
        (ock out_ciphertext : Bytes) (memo : D.Memo)
        → try_output_recovery_with_ock C D domain ock output out_ciphertext ≡ some (note, to, memo)
        → IsChecked D output note
    unfolding try_output_recovery_with_ock
    ock_IsChecked ock out_ciphertext memo e =
        let text = take out_plaintext_size out_ciphertext in
        let tag = drop out_plaintext_size out_ciphertext in
        elim (Option-cases (C.open_sealed ock text tag)) [
          | inl n ↦ absurd (ground (arith, n, e))
          | inr (op, p) ↦ elim (Option-cases (D.extract_pk_d op)) [
            | inl n ↦ absurd (ground (arith, p, n, e))
            | inr (pk_d, q) ↦ elim (Option-cases (D.extract_esk op)) [
              | inl n ↦ absurd (ground (arith, p, q, n, e))
              | inr (esk, r) ↦
                  recover_plaintext-IsChecked pk_d esk memo (ground (arith, p, q, r, e))
            ]
          ]
        ]

    ovk_IsChecked :
        (ovk : D.OutgoingViewingKey) (cv : D.ValueCommitment) (out_ciphertext : Bytes)
        (memo : D.Memo)
        → try_output_recovery_with_ovk C D domain ovk output cv out_ciphertext
          ≡ some (note, to, memo)
        → IsChecked D output note
    unfolding try_output_recovery_with_ovk
    ovk_IsChecked ovk cv out_ciphertext memo e =
        ock_IsChecked (D.derive_ock ovk cv output.cmstar_bytes output.ephemeral_key) out_ciphertext
          memo e

  -- Whatever note trial decryption, compact or not, or recovery by either key finds in an output
  -- has the commitment of the output and, if it derives its own ephemeral secret, the ephemeral
  -- key of the output.
  pub Finds-IsChecked :
      {domain : D.State} {output : ShieldedOutput D} {note : D.Note}
      → Finds domain output note
      → IsChecked D output note
  Finds-IsChecked (by_ivk ivk to memo e) = ivk_IsChecked _ _ ivk memo e
  Finds-IsChecked (by_compact ivk to e) = compact_IsChecked _ _ ivk e
  Finds-IsChecked (by_ock ock out_ciphertext to memo e) =
      ock_IsChecked _ _ ock out_ciphertext memo e
  Finds-IsChecked (by_ovk ovk cv out_ciphertext to memo e) =
      ovk_IsChecked _ _ ovk cv out_ciphertext memo e
