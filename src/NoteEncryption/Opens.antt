-- ===== src/NoteEncryption/Opens.antt =====
-- A note is decrypted by the incoming viewing key of its recipient.
use masp.Base.{ℕ, ◌≡◌, ◌↔◌, refl, ap, ap₂, sym, ◌∙◌, arith, true, Option, some, [], ◌∷◌, ◌++◌}
use masp.Base.{length, take, drop, take-append, drop-append}
use masp.Base.Bytes.{Bytes}
use masp.NoteEncryption.{
  Cipher, Domain, ShieldedOutput, NoteEncryption, new, new_with_esk, check_note_validity,
  parse_checked, bytes_eq, valid, encrypt_note_plaintext, try_note_decryption,
  try_note_decryption_inner, note_plaintext_size, compact_note_size,
}

pub bytes_eq_iff : (as' bs : Bytes) → (bytes_eq as' bs ≡ true) ↔ (as' ≡ bs)
bytes_eq_iff [] [] = (λ e. refl, λ e. refl)
bytes_eq_iff [] (b ∷ bs) = (λ e. cc, λ e. cc)
bytes_eq_iff (a ∷ as') [] = (λ e. cc, λ e. cc)
bytes_eq_iff (a ∷ as') (b ∷ bs) =
    let (to, from) = bytes_eq_iff as' bs in (λ e. ground (arith, to), λ e. ground (arith, from))

module _ (D : Domain) where
  -- What the note's recipient relies on: the two sides of the key agreement meet, and the
  -- encodings are read back.
  pub record IsReceived (domain : D.State) (ivk : D.IncomingViewingKey) (note : D.Note)
      (to : D.Recipient) (memo : D.Memo) (esk : D.EphemeralSecretKey) : Type 0 where
    pub derived : D.derive_esk note ≡ some esk
    pub agrees :
        D.ka_agree_dec ivk (D.prepare_epk (D.ka_derive_public note esk))
        ≡ D.ka_agree_enc esk (D.get_pk_d note)
    pub epk_back :
        D.epk (D.epk_bytes (D.ka_derive_public note esk)) ≡ some (D.ka_derive_public note esk)
    pub size : length (D.note_plaintext_bytes note to memo) ≡ note_plaintext_size
    pub parses :
        D.parse_note_plaintext_without_memo_ivk domain ivk (D.note_plaintext_bytes note to memo)
        ≡ some (note, to)
    pub parses_compact :
        D.parse_note_plaintext_without_memo_ivk domain ivk
          (take compact_note_size (D.note_plaintext_bytes note to memo))
        ≡ some (note, to)
    pub memo_back : D.extract_memo domain (D.note_plaintext_bytes note to memo) ≡ memo

  pub check_valid :
      (note : D.Note) (esk : D.EphemeralSecretKey)
      → D.derive_esk note ≡ some esk
      → check_note_validity D note
          (D.epk_bytes (D.ka_derive_public note esk))
          (D.cmstar_bytes (D.cmstar note))
        ≡ valid
  unfolding check_note_validity
  check_valid note esk e =
      let same_cm =
        (D.cmstar_eq_iff (D.cmstar_bytes (D.cmstar note)) (D.cmstar_bytes (D.cmstar note))).1
          refl in
      let key = D.epk_bytes (D.ka_derive_public note esk) in
      let same_key = (bytes_eq_iff key key).1 refl in ground (arith, same_cm, same_key, e)

  pub parse_checked_lem :
      (domain : D.State) (ivk : D.IncomingViewingKey) (note : D.Note) (to : D.Recipient)
      (esk : D.EphemeralSecretKey) (text : Bytes)
      → D.derive_esk note ≡ some esk
      → D.parse_note_plaintext_without_memo_ivk domain ivk text ≡ some (note, to)
      → parse_checked D domain ivk
          (D.epk_bytes (D.ka_derive_public note esk))
          (D.cmstar_bytes (D.cmstar note))
          text
        ≡ some (note, to)
  unfolding parse_checked
  parse_checked_lem domain ivk note to esk text derived e =
      let ok = check_valid note esk derived in ground (arith, e, ok)

module _ (C : Cipher) (D : Domain) where
  -- The output that carries a note.
  abbrev pub output_of : NoteEncryption D → ShieldedOutput D
  output_of e = record {
    ephemeral_key = D.epk_bytes e.epk;
    cmstar_bytes = D.cmstar_bytes (D.cmstar e.note);
    enc_ciphertext = encrypt_note_plaintext C D e;
  }

  -- The symmetric key of a note.
  abbrev pub note_key : D.Note → D.EphemeralSecretKey → D.SymmetricKey
  note_key note esk =
      D.kdf (D.ka_agree_enc esk (D.get_pk_d note)) (D.epk_bytes (D.ka_derive_public note esk))

  -- The key that a recipient derives is the sender's.
  pub key_agrees :
      {domain : D.State} {ivk : D.IncomingViewingKey} {note : D.Note} {to : D.Recipient}
      {memo : D.Memo} {esk : D.EphemeralSecretKey}
      → IsReceived D domain ivk note to memo esk
      → D.kdf
          (D.ka_agree_dec ivk (D.prepare_epk (D.ka_derive_public note esk)))
          (D.epk_bytes (D.ka_derive_public note esk))
        ≡ note_key note esk
  key_agrees {note} {esk} r = ap (λ s. D.kdf s (D.epk_bytes (D.ka_derive_public note esk))) r.agrees

  pub new_lem :
      (ovk : Option D.OutgoingViewingKey) (note : D.Note) (to : D.Recipient) (memo : D.Memo)
      (esk : D.EphemeralSecretKey) (e : NoteEncryption D)
      → D.derive_esk note ≡ some esk
      → new D ovk note to memo ≡ some e
      → new_with_esk D esk ovk note to memo ≡ e
  unfolding new
  new_lem ovk note to memo esk e derived made = ground (arith, derived, made)

  -- The ciphertext splits into the sealed plaintext and the tag.
  pub split_ciphertext :
      (key text : Bytes) (n : ℕ)
      → length text ≡ n
      → let (output, tag) = C.seal key text in
        (take n (output ++ tag) ≡ output) × (drop n (output ++ tag) ≡ tag)
  split_ciphertext key text n size =
      let (output, tag) = C.seal key text in
      let long : length output ≡ n =
        ap length (C.seal_keystream key text) ∙ C.length-apply_keystream key text ∙ size in
      (take-append output tag n long, drop-append output tag n long)

  -- The ciphertext of a note opens under its key.
  pub opens_sealed :
      (note : D.Note) (to : D.Recipient) (memo : D.Memo) (esk : D.EphemeralSecretKey)
      (ovk : Option D.OutgoingViewingKey)
      → length (D.note_plaintext_bytes note to memo) ≡ note_plaintext_size
      → let ciphertext = encrypt_note_plaintext C D (new_with_esk D esk ovk note to memo) in
        C.open_sealed
          (D.key_bytes (note_key note esk))
          (take note_plaintext_size ciphertext)
          (drop note_plaintext_size ciphertext)
        ≡ some (D.note_plaintext_bytes note to memo)
  unfolding encrypt_note_plaintext new_with_esk
  opens_sealed note to memo esk ovk size =
      let key = D.key_bytes (note_key note esk) in
      let text = D.note_plaintext_bytes note to memo in
      let (front, back) = split_ciphertext key text note_plaintext_size size in
      ap₂ (C.open_sealed key) front back ∙ C.open-seal key text

  inner_opens :
      (domain : D.State) (ivk : D.IncomingViewingKey) (output : ShieldedOutput D)
      (key : D.SymmetricKey) (text : Bytes) (note : D.Note) (to : D.Recipient)
      → C.open_sealed
          (D.key_bytes key)
          (take note_plaintext_size output.enc_ciphertext)
          (drop note_plaintext_size output.enc_ciphertext)
        ≡ some text
      → parse_checked D domain ivk output.ephemeral_key output.cmstar_bytes text ≡ some (note, to)
      → try_note_decryption_inner C D domain ivk output.ephemeral_key output key
        ≡ some (note, to, D.extract_memo domain text)
  unfolding try_note_decryption_inner
  inner_opens domain ivk output key text note to opened parsed = ground (arith, opened, parsed)

  with_epk :
      (domain : D.State) (ivk : D.IncomingViewingKey) (output : ShieldedOutput D)
      (epk : D.EphemeralPublicKey)
      → D.epk output.ephemeral_key ≡ some epk
      → try_note_decryption C D domain ivk output
        ≡ try_note_decryption_inner C D domain ivk output.ephemeral_key output
            (D.kdf (D.ka_agree_dec ivk (D.prepare_epk epk)) output.ephemeral_key)
  unfolding try_note_decryption
  with_epk domain ivk output epk e = ground (arith, e)

  decrypts :
      {domain : D.State} {ivk : D.IncomingViewingKey} {note : D.Note} {to : D.Recipient}
      {memo : D.Memo} {esk : D.EphemeralSecretKey} (ovk : Option D.OutgoingViewingKey)
      → IsReceived D domain ivk note to memo esk
      → try_note_decryption C D domain ivk (output_of (new_with_esk D esk ovk note to memo))
        ≡ some (note, to, memo)
  decrypts {domain} {ivk} {note} {to} {memo} {esk} ovk r =
      let output = output_of (new_with_esk D esk ovk note to memo) in
      let text = D.note_plaintext_bytes note to memo in
      let parsed = parse_checked_lem D domain ivk note to esk text r.derived r.parses in
      unfold new_with_esk in
      with_epk domain ivk output (D.ka_derive_public note esk) r.epk_back
      ∙ ap (try_note_decryption_inner C D domain ivk output.ephemeral_key output) (key_agrees r)
      ∙ inner_opens domain ivk output (note_key note esk) text note to
          (opens_sealed note to memo esk ovk r.size) parsed
      ∙ ap (λ m. some (note, to, m)) r.memo_back

  pub try_note_decryption-new :
      {domain : D.State} {ivk : D.IncomingViewingKey} {note : D.Note} {to : D.Recipient}
      {memo : D.Memo} {esk : D.EphemeralSecretKey} (ovk : Option D.OutgoingViewingKey)
      (e : NoteEncryption D)
      → IsReceived D domain ivk note to memo esk
      → new D ovk note to memo ≡ some e
      → try_note_decryption C D domain ivk (output_of e) ≡ some (note, to, memo)
  try_note_decryption-new {domain} {ivk} {note} {to} {memo} {esk} ovk e r made =
      ap (λ x. try_note_decryption C D domain ivk (output_of x))
        (sym (new_lem ovk note to memo esk e r.derived made))
      ∙ decrypts ovk r
