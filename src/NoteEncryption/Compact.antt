-- ===== src/NoteEncryption/Compact.antt =====
-- The first bytes of a ciphertext are enough for the note, without its memo.
use masp.Base.{◌≤◌, ◌≡◌, ap, sym, ◌∙◌, arith, Option, some}
use masp.Base.{length, take, take-append_left}
use masp.Base.Bytes.{Bytes}
use masp.NoteEncryption.{
  Cipher, Domain, ShieldedOutput, NoteEncryption, new, new_with_esk, parse_checked,
  encrypt_note_plaintext, try_compact_note_decryption, try_compact_note_decryption_inner,
  note_plaintext_size, compact_note_size,
}
use masp.NoteEncryption.Opens.{
  IsReceived, parse_checked_lem, output_of, note_key, key_agrees, new_lem,
}

module _ (C : Cipher) (D : Domain) where
  -- What a light client holds of an output.
  abbrev pub compact_of : NoteEncryption D → ShieldedOutput D
  compact_of e = record (output_of C D e) {
    enc_ciphertext = take compact_note_size (encrypt_note_plaintext C D e);
  }

  compact_plaintext :
      (note : D.Note) (to : D.Recipient) (memo : D.Memo) (esk : D.EphemeralSecretKey)
      (ovk : Option D.OutgoingViewingKey)
      → length (D.note_plaintext_bytes note to memo) ≡ note_plaintext_size
      → C.apply_keystream (D.key_bytes (note_key C D note esk)) (
          take compact_note_size (encrypt_note_plaintext C D (new_with_esk D esk ovk note to memo)))
        ≡ take compact_note_size (D.note_plaintext_bytes note to memo)
  unfolding encrypt_note_plaintext new_with_esk
  compact_plaintext note to memo esk ovk size =
      let key = D.key_bytes (note_key C D note esk) in
      let text = D.note_plaintext_bytes note to memo in
      let (output, tag) = C.seal key text in
      let stream : output ≡ C.apply_keystream key text = C.seal_keystream key text in
      let long : compact_note_size ≤ length output =
        omega (arith, ap length stream, C.length-apply_keystream key text, size) in
      ap (C.apply_keystream key) (
        take-append_left output tag compact_note_size long
        ∙ ap (take compact_note_size) stream
        ∙ sym (C.apply_keystream-take key text compact_note_size))
      ∙ C.apply_keystream_twice key (take compact_note_size text)

  with_epk :
      (domain : D.State) (ivk : D.IncomingViewingKey) (output : ShieldedOutput D)
      (epk : D.EphemeralPublicKey)
      → D.epk output.ephemeral_key ≡ some epk
      → try_compact_note_decryption C D domain ivk output
        ≡ try_compact_note_decryption_inner C D domain ivk output.ephemeral_key output
            (D.kdf (D.ka_agree_dec ivk (D.prepare_epk epk)) output.ephemeral_key)
  unfolding try_compact_note_decryption
  with_epk domain ivk output epk e = ground (arith, e)

  inner_parses :
      (domain : D.State) (ivk : D.IncomingViewingKey) (output : ShieldedOutput D)
      (key : D.SymmetricKey) (text : Bytes)
      → C.apply_keystream (D.key_bytes key) output.enc_ciphertext ≡ text
      → try_compact_note_decryption_inner C D domain ivk output.ephemeral_key output key
        ≡ parse_checked D domain ivk output.ephemeral_key output.cmstar_bytes text
  unfolding try_compact_note_decryption_inner
  inner_parses domain ivk output key text e =
      ap (parse_checked D domain ivk output.ephemeral_key output.cmstar_bytes) e

  decrypts :
      {domain : D.State} {ivk : D.IncomingViewingKey} {note : D.Note} {to : D.Recipient}
      {memo : D.Memo} {esk : D.EphemeralSecretKey} (ovk : Option D.OutgoingViewingKey)
      → IsReceived D domain ivk note to memo esk
      → try_compact_note_decryption C D domain ivk
          (compact_of (new_with_esk D esk ovk note to memo))
        ≡ some (note, to)
  decrypts {domain} {ivk} {note} {to} {memo} {esk} ovk r =
      let output = compact_of (new_with_esk D esk ovk note to memo) in
      let text = take compact_note_size (D.note_plaintext_bytes note to memo) in
      unfold new_with_esk in
      with_epk domain ivk output (D.ka_derive_public note esk) r.epk_back
      ∙ ap (try_compact_note_decryption_inner C D domain ivk output.ephemeral_key output)
          (key_agrees C D r)
      ∙ inner_parses domain ivk output (note_key C D note esk) text
          (compact_plaintext note to memo esk ovk r.size)
      ∙ parse_checked_lem D domain ivk note to esk text r.derived r.parses_compact

  pub try_compact_note_decryption-new :
      {domain : D.State} {ivk : D.IncomingViewingKey} {note : D.Note} {to : D.Recipient}
      {memo : D.Memo} {esk : D.EphemeralSecretKey} (ovk : Option D.OutgoingViewingKey)
      (e : NoteEncryption D)
      → IsReceived D domain ivk note to memo esk
      → new D ovk note to memo ≡ some e
      → try_compact_note_decryption C D domain ivk (compact_of e) ≡ some (note, to)
  try_compact_note_decryption-new {domain} {ivk} {note} {to} {memo} {esk} ovk e r made =
      ap (λ x. try_compact_note_decryption C D domain ivk (compact_of x))
        (sym (new_lem C D ovk note to memo esk e r.derived made))
      ∙ decrypts ovk r
