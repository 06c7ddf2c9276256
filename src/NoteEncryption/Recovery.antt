-- ===== src/NoteEncryption/Recovery.antt =====
-- The sender recovers a note by the outgoing viewing key.
use masp.Base.{◌≡◌, refl, ap, ap₂, sym, ◌∙◌, arith, some}
use masp.Base.{length, take, drop}
use masp.Base.Bytes.{Bytes}
use masp.NoteEncryption.{
  Cipher, Domain, ShieldedOutput, NoteEncryption, new, new_with_esk, check_note_validity, valid,
  encrypt_outgoing_plaintext, try_output_recovery_with_ovk, try_output_recovery_with_ock,
  recover_note, recover_plaintext, note_plaintext_size, out_plaintext_size,
}
use masp.NoteEncryption.Opens.{check_valid, output_of, split_ciphertext, opens_sealed, new_lem}

module _ (D : Domain) where
  -- What the sender relies on: the encodings are read back.
  pub record IsSent (domain : D.State) (note : D.Note) (to : D.Recipient) (memo : D.Memo)
      (esk : D.EphemeralSecretKey) : Type 0 where
    pub derived : D.derive_esk note ≡ some esk
    pub size : length (D.note_plaintext_bytes note to memo) ≡ note_plaintext_size
    pub out_size : length (D.outgoing_plaintext_bytes note esk) ≡ out_plaintext_size
    pub pk_d_back : D.extract_pk_d (D.outgoing_plaintext_bytes note esk) ≡ some (D.get_pk_d note)
    pub esk_back : D.extract_esk (D.outgoing_plaintext_bytes note esk) ≡ some esk
    pub parses :
        D.parse_note_plaintext_without_memo_ovk domain
          (D.get_pk_d note)
          esk
          (D.epk_bytes (D.ka_derive_public note esk))
          (D.note_plaintext_bytes note to memo)
        ≡ some (note, to)
    pub memo_back : D.extract_memo domain (D.note_plaintext_bytes note to memo) ≡ memo

module _ (C : Cipher) (D : Domain) where
  recover_note_lem :
      (domain : D.State) (note : D.Note) (to : D.Recipient) (esk : D.EphemeralSecretKey)
      (pk_d : D.DiversifiedTransmissionKey) (output : ShieldedOutput D) (text : Bytes)
      → D.parse_note_plaintext_without_memo_ovk domain pk_d esk output.ephemeral_key text
        ≡ some (note, to)
      → D.derive_esk note ≡ some esk
      → check_note_validity D note output.ephemeral_key output.cmstar_bytes ≡ valid
      → recover_note C D domain pk_d esk output text ≡ some (note, to, D.extract_memo domain text)
  unfolding recover_note
  recover_note_lem domain note to esk pk_d output text parsed derived checked =
      let same = (D.esk_eq_iff esk esk).1 refl in ground (arith, parsed, derived, checked, same)

  recover_plaintext-opened :
      (domain : D.State) (pk_d : D.DiversifiedTransmissionKey) (esk : D.EphemeralSecretKey)
      (output : ShieldedOutput D) (text : Bytes)
      → C.open_sealed
          (D.key_bytes (D.kdf (D.ka_agree_enc esk pk_d) output.ephemeral_key))
          (take note_plaintext_size output.enc_ciphertext)
          (drop note_plaintext_size output.enc_ciphertext)
        ≡ some text
      → recover_plaintext C D domain pk_d esk output ≡ recover_note C D domain pk_d esk output text
  unfolding recover_plaintext
  recover_plaintext-opened domain pk_d esk output text opened = ground (arith, opened)

  with_ock :
      (domain : D.State) (ock : Bytes) (output : ShieldedOutput D) (out_ciphertext op : Bytes)
      (pk_d : D.DiversifiedTransmissionKey) (esk : D.EphemeralSecretKey)
      → C.open_sealed ock
          (take out_plaintext_size out_ciphertext)
          (drop out_plaintext_size out_ciphertext)
        ≡ some op
      → D.extract_pk_d op ≡ some pk_d
      → D.extract_esk op ≡ some esk
      → try_output_recovery_with_ock C D domain ock output out_ciphertext
        ≡ recover_plaintext C D domain pk_d esk output
  unfolding try_output_recovery_with_ock
  with_ock domain ock output out_ciphertext op pk_d esk opened e f = ground (arith, opened, e, f)

  module _ {domain : D.State} {note : D.Note} {to : D.Recipient} {memo : D.Memo}
      {esk : D.EphemeralSecretKey} (ovk : D.OutgoingViewingKey) (cv : D.ValueCommitment)
      (random_ock random_input : Bytes) (s : IsSent D domain note to memo esk) where
    abbrev sent : NoteEncryption D
    sent = new_with_esk D esk (some ovk) note to memo

    abbrev outgoing : Bytes
    outgoing = encrypt_outgoing_plaintext C D sent cv (D.cmstar note) random_ock random_input

    outgoing_opens :
        C.open_sealed
          (D.derive_ock ovk cv
            (D.cmstar_bytes (D.cmstar note))
            (D.epk_bytes (D.ka_derive_public note esk)))
          (take out_plaintext_size outgoing)
          (drop out_plaintext_size outgoing)
        ≡ some (D.outgoing_plaintext_bytes note esk)
    unfolding encrypt_outgoing_plaintext new_with_esk
    outgoing_opens =
        let ock =
          D.derive_ock ovk cv (D.cmstar_bytes (D.cmstar note))
            (D.epk_bytes (D.ka_derive_public note esk)) in
        let op = D.outgoing_plaintext_bytes note esk in
        let (front, back) = split_ciphertext C D ock op out_plaintext_size s.out_size in
        ap₂ (C.open_sealed ock) front back ∙ C.open-seal ock op

    recovers :
        try_output_recovery_with_ovk C D domain ovk (output_of C D sent) cv outgoing
        ≡ some (note, to, memo)
    unfolding try_output_recovery_with_ovk new_with_esk
    recovers =
        let output = output_of C D sent in
        let ock = D.derive_ock ovk cv output.cmstar_bytes output.ephemeral_key in
        let text = D.note_plaintext_bytes note to memo in
        with_ock domain ock output outgoing (D.outgoing_plaintext_bytes note esk) (D.get_pk_d note)
          esk outgoing_opens s.pk_d_back s.esk_back
        ∙ recover_plaintext-opened domain (D.get_pk_d note) esk output text
            (opens_sealed C D note to memo esk (some ovk) s.size)
        ∙ recover_note_lem domain note to esk (D.get_pk_d note) output text s.parses s.derived
            (check_valid D note esk s.derived)
        ∙ ap (λ m. some (note, to, m)) s.memo_back

    pub try_output_recovery_with_ovk-new :
        (e : NoteEncryption D)
        → new D (some ovk) note to memo ≡ some e
        → try_output_recovery_with_ovk C D domain ovk
            (output_of C D e)
            cv
            (encrypt_outgoing_plaintext C D e cv (D.cmstar note) random_ock random_input)
          ≡ some (note, to, memo)
    try_output_recovery_with_ovk-new e made =
        ap
          (λ x.
            try_output_recovery_with_ovk C D domain ovk (output_of C D x) cv
              (encrypt_outgoing_plaintext C D x cv (D.cmstar note) random_ock random_input))
          (sym (new_lem C D (some ovk) note to memo esk e s.derived made))
        ∙ recovers
